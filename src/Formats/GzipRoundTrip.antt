-- ===== src/Formats/GzipRoundTrip.antt =====
-- gzip_compress and gzip_decompress of src/formats/gzip_wrapper.cpp, whatever the raw codec does.
use orot.Base.{
  drop, ◌↔◌, Outcome, stuck, fails, if-both, sym, ap, ltb, not, ◌==◌, true, false, Bool,
  if◌then◌else◌, ℕ, ◌+◌, ◌-◌, ◌*◌, ◌/◌, ◌%◌, ◌^◌, ◌≤◌, ◌<◌, ◌≡◌, refl, ◌∙◌, List, [], ◌∷◌, ◌++◌,
  Option, none, some, done, arith, length, All, ==_iff, ge-ltb, ne-==, take-append, drop-append,
  length-append, append_assoc,
}
use orot.Simd.Checksum.{scalar_crc32}
use orot.Formats.Gzip.{
  Error, data_error, RawCodec, le32, gzip_header, skip_string, skip_fields, skip_rest,
  check_trailer, gzip_compress_bound, gzip_compress, decompress_stream, gzip_decompress,
}

-- A file name: no byte of it is null.
abbrev pub IsName : Option (List ℕ) → Type 0
IsName none = Unit
IsName (some name) = All (λ b. 0 < b) name

not-false : (a : Bool) → not a ≡ false → a ≡ true
not-false true e = refl
not-false false e = absurd (cc)

scalar_crc32-lt : (crc : ℕ) (bytes : List ℕ) → scalar_crc32 crc bytes < 2 ^ 32
unfolding scalar_crc32
scalar_crc32-lt crc bytes = omega arith

skip_string-name :
    (name rest : List ℕ) → All (λ b. 0 < b) name → skip_string (name ++ (0 ∷ rest)) ≡ rest
unfolding skip_string
skip_string-name [] rest h = refl
skip_string-name (b ∷ name) rest h =
    rw (ne-== b 0 (omega (arith, h.0))) (skip_string-name name rest h.1)

-- What stands behind the raw stream of a source.
abbrev trailer_of : List ℕ → List ℕ
trailer_of src = le32 (scalar_crc32 0 src) ++ le32 (length src % 2 ^ 32)

-- The trailer of a source admits what has its checksum and its length.
check_trailer-trailer_of :
    (src out : List ℕ)
    → check_trailer out (trailer_of src) ≡ (
        if not (scalar_crc32 0 out == scalar_crc32 0 src)
        then fails data_error
        else if not (length src % 2 ^ 32 == length out % 2 ^ 32)
        then fails data_error
        else done out)
unfolding check_trailer le32
check_trailer-trailer_of src out =
    let crc = scalar_crc32 0 src in
    let n = length src % 2 ^ 32 in
    let small = scalar_crc32-lt 0 src in
    let ec : crc % 256
          + 2 ^ 8 * (crc / 2 ^ 8 % 256)
          + 2 ^ 16 * (crc / 2 ^ 16 % 256)
          + 2 ^ 24 * (crc / 2 ^ 24 % 256)
        ≡ crc =
      omega (arith, small) in
    let en : n % 256
          + 2 ^ 8 * (n / 2 ^ 8 % 256)
          + 2 ^ 16 * (n / 2 ^ 16 % 256)
          + 2 ^ 24 * (n / 2 ^ 24 % 256)
        ≡ n =
      omega arith in
    rw (ec, en) refl

-- An output with the checksum and, modulo 2 ^ 32, the length of a source.
abbrev pub IsAlike : List ℕ → List ℕ → Type 0
IsAlike out src =
    (scalar_crc32 0 out ≡ scalar_crc32 0 src) × (length out % 2 ^ 32 ≡ length src % 2 ^ 32)

check_trailer-IsAlike :
    (src held out : List ℕ)
    → (check_trailer held (trailer_of src) ≡ done out) ↔ ((held ≡ out) × IsAlike out src)
check_trailer-IsAlike src held out = rw (check_trailer-trailer_of src held) (
  λ e.
      if-both (λ o. o ≡ done out → (held ≡ out) × IsAlike out src)
        (not (scalar_crc32 0 held == scalar_crc32 0 src)) _ _ (λ _ q. absurd (cc))
        (λ crc.
          if-both (λ o. o ≡ done out → (held ≡ out) × IsAlike out src)
            (not (length src % 2 ^ 32 == length held % 2 ^ 32)) _ _ (λ _ q. absurd (cc))
            (λ size q.
              let same : held ≡ out = cc in
              let e1 = (==_iff (scalar_crc32 0 held) (scalar_crc32 0 src)).0 (not-false _ crc) in
              let e2 = (==_iff (length src % 2 ^ 32) (length held % 2 ^ 32)).0 (not-false _ size) in
              (same, rw (sym same) (e1, sym e2))))
        e,
  λ (same, alike).
      rw
        (
          same,
          alike.0,
          alike.1,
          (==_iff (scalar_crc32 0 src) (scalar_crc32 0 src)).1 refl,
          (==_iff (length src % 2 ^ 32) (length src % 2 ^ 32)).1 refl,
        )
        refl,
)

pub trailer_size : (a b : ℕ) → length (le32 a ++ le32 b) ≡ 8
unfolding le32
trailer_size a b = refl

module _ (codec : RawCodec) where
  decompress_stream-IsAlike :
      (capacity : ℕ) (src raw out : List ℕ)
      → (decompress_stream codec capacity (raw ++ trailer_of src) ≡ done out)
        ↔ ((codec.raw_decompress capacity raw ≡ done out) × IsAlike out src)
  unfolding decompress_stream
  decompress_stream-IsAlike capacity src raw out =
      let trailer = trailer_of src in
      let size : length trailer ≡ 8 = trailer_size (scalar_crc32 0 src) (length src % 2 ^ 32) in
      let total = length-append raw trailer in
      let back : length (raw ++ trailer) - 8 ≡ length raw = omega (arith, size, total) in
      rw
        (
          ge-ltb (length (raw ++ trailer)) 8 (omega (arith, size, total)),
          back,
          take-append raw trailer,
        )
        (answers (codec.raw_decompress capacity raw)
          (drop (length (raw ++ trailer) - 8) (raw ++ trailer))
          (ap (λ k. drop k (raw ++ trailer)) back ∙ drop-append raw trailer))
    where
      answers :
          (o : Outcome Error (List ℕ)) (trailer : List ℕ)
          → trailer ≡ trailer_of src
          → (elim o [ fails e ↦ fails e | stuck ↦ stuck | done held ↦ check_trailer held trailer ]
              ≡ done out)
            ↔ ((o ≡ done out) × IsAlike out src)
      answers (fails e) trailer same = (λ q. absurd (cc), λ (q, _). absurd (cc))
      answers stuck trailer same = (λ q. absurd (cc), λ (q, _). absurd (cc))
      answers (done held) trailer e =
          let c = check_trailer-IsAlike src held out in
          rw e (
            λ q. let (same, alike) = c.0 q in (ap done same, alike),
            λ (q, alike). let same : held ≡ out = cc in c.1 (same, alike),
          )

-- From behind the fixed header on.
skip_fields-none : (p : List ℕ) → skip_fields 0 p ≡ some p
unfolding skip_fields skip_rest
skip_fields-none p = refl

skip_fields-name :
    (name p : List ℕ) → All (λ b. 0 < b) name → skip_fields 8 (name ++ (0 ∷ p)) ≡ some p
unfolding skip_fields skip_rest
skip_fields-name name p h = rw (skip_string-name name p h) refl

module _ (codec : RawCodec) where
  pub gzip_decompress-header :
      (capacity level mtime : ℕ) (filename : Option (List ℕ)) (p : List ℕ)
      → IsName filename
      → 8 ≤ length p
      → gzip_decompress codec capacity (gzip_header level filename mtime ++ p)
        ≡ decompress_stream codec capacity p
  unfolding gzip_decompress gzip_header le32
  gzip_decompress-header capacity level mtime none p named long =
      rw (ge-ltb (length (gzip_header level none mtime ++ p)) 18 (omega arith), skip_fields-none p)
        refl
  gzip_decompress-header capacity level mtime (some name) p named long =
      let total = length-append (name ++ (0 ∷ [])) p in
      let e = append_assoc name (0 ∷ []) p in
      rw
        (
          ge-ltb (length (gzip_header level (some name) mtime ++ p)) 18 (omega (arith, total)),
          e,
          skip_fields-name name p named,
        )
        refl

  -- Whatever the raw codec does: what gzip_compress writes is the raw stream that raw_compress gave
  -- in the room between header and trailer, with 18 bytes and a file name more, and gzip_decompress
  -- gives just what the raw codec gives for that stream, if it has the checksum and, modulo 2 ^ 32,
  -- the length of the source. The capacity is below 2 ^ 64 and enough for the header and the trailer,
  -- and the file name, if there is one, has no null byte.
  pub gzip_decompress-gzip_compress :
      (capacity level mtime dst_capacity : ℕ) (filename : Option (List ℕ)) (src bytes out : List ℕ)
      → IsName filename
      → capacity < 2 ^ 64
      → length (gzip_header level filename mtime) + 8 ≤ capacity
      → gzip_compress codec capacity level filename mtime src ≡ some bytes
      → (raw : List ℕ) × (codec.raw_compress
            (capacity - length (gzip_header level filename mtime) - 8)
            level
            src
          ≡ some raw)
        × (length bytes ≡ length (gzip_header level filename mtime) + length raw + 8)
        × ((gzip_decompress codec dst_capacity bytes ≡ done out)
            ↔ ((codec.raw_decompress dst_capacity raw ≡ done out) × IsAlike out src))
  unfolding gzip_compress
  gzip_decompress-gzip_compress capacity level mtime dst_capacity filename src bytes out named small
        fits e =
      let header = gzip_header level filename mtime in
      let room : (capacity + 2 ^ 64 - length header - 8) % 2 ^ 64 ≡ capacity - length header - 8 =
        omega arith in
      if-both (λ o. o ≡ some bytes → Goal) (ltb capacity (gzip_compress_bound codec (length src))) _
        _ (λ _ q. absurd (cc))
        (λ _ q.
          unwrap (codec.raw_compress (capacity - length header - 8) level src) refl (rw room at q))
        e
    where
      Goal : Type 0
      Goal =
          (raw : List ℕ) × (codec.raw_compress
              (capacity - length (gzip_header level filename mtime) - 8) level src
            ≡ some raw)
          × (length bytes ≡ length (gzip_header level filename mtime) + length raw + 8)
          × ((gzip_decompress codec dst_capacity bytes ≡ done out)
              ↔ ((codec.raw_decompress dst_capacity raw ≡ done out) × IsAlike out src))

      unwrap :
          (o : Option (List ℕ))
          → codec.raw_compress (capacity - length (gzip_header level filename mtime) - 8) level src
            ≡ o
          → elim o [
            | none ↦ none
            | some raw ↦ some (gzip_header level filename mtime ++ (raw ++ trailer_of src))
          ]
            ≡ some bytes
          → Goal
      unwrap none p q = absurd (cc)
      unwrap (some raw) p q =
          let header = gzip_header level filename mtime in
          let tail = raw ++ trailer_of src in
          let size = trailer_size (scalar_crc32 0 src) (length src % 2 ^ 32) in
          let total = length-append raw (trailer_of src) in
          let whole : header ++ tail ≡ bytes = cc in
          (
            raw,
            p,
            omega (arith, ap length whole, length-append header tail, total, size),
            rw
                (
                  sym whole,
                  gzip_decompress-header dst_capacity level mtime filename tail named
                      (omega (arith, total, size)),
                )
                (decompress_stream-IsAlike codec dst_capacity src raw out),
          )
