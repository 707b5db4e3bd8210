-- ===== src/Formats/Gzip.antt =====
-- src/formats/gzip_wrapper.cpp over a raw codec, which src/formats/raw_deflate.cpp provides.
use Prim.Native.Nat.{bit_and}
use orot.Base.{
  ℕ, ◌+◌, ◌-◌, ◌*◌, ◌/◌, ◌%◌, ◌^◌, not, ◌||◌, List, [], ◌∷◌, ◌++◌, Option, none, some, Outcome,
  done, fails, stuck, length, get_or, take, drop, ltb, leb, ◌==◌, if◌then◌else◌,
}
use orot.Simd.Checksum.{scalar_crc32}

-- The negative results of the format layer.
pub data Error : Type 0 where
  data_error other_error : Error

-- raw_compress_bound, raw_compress (`none` is 0), and raw_decompress, with a capacity each.
pub record RawCodec : Type 0 where
  pub raw_compress_bound : ℕ → ℕ
  pub raw_compress : ℕ → ℕ → List ℕ → Option (List ℕ)
  pub raw_decompress : ℕ → List ℕ → Outcome Error (List ℕ)

unfoldable pub le32 : ℕ → List ℕ
le32 v = (v % 256) ∷ (v / 2 ^ 8 % 256) ∷ (v / 2 ^ 16 % 256) ∷ (v / 2 ^ 24 % 256) ∷ []

abbrev pub le32_at : List ℕ → ℕ → ℕ
le32_at p i =
    get_or p i 0
    + 2 ^ 8 * get_or p (i + 1) 0
    + 2 ^ 16 * get_or p (i + 2) 0
    + 2 ^ 24 * get_or p (i + 3) 0

-- The fixed header, and the file name with its null byte.
unfoldable pub gzip_header : ℕ → Option (List ℕ) → ℕ → List ℕ
gzip_header level filename mtime =
    let xfl = if leb 9 level then 2 else if leb level 2 then 4 else 0 in
    let flags : ℕ = elim filename [ none ↦ 0 | some name ↦ 0x08 ] in
    let name : List ℕ = elim filename [ none ↦ [] | some name ↦ name ++ (0 ∷ []) ] in
    0x1F ∷ 0x8B ∷ 8 ∷ flags ∷ (le32 mtime ++ (xfl ∷ 255 ∷ name))

-- Past the null byte, or the end.
unfoldable pub skip_string : List ℕ → List ℕ
skip_string [] = []
skip_string (b ∷ p) = let rest = skip_string p in if b == 0 then p else rest

unfoldable pub skip_extra : List ℕ → Option (List ℕ)
skip_extra p =
    if ltb (length p) 2 then none else some (drop (2 + (get_or p 0 0 + 2 ^ 8 * get_or p 1 0)) p)

-- The optional fields, FHCRC last.
unfoldable pub skip_rest : ℕ → List ℕ → List ℕ
skip_rest flags p =
    let p1 = if not (bit_and flags 0x08 == 0) then skip_string p else p in
    let p2 = if not (bit_and flags 0x10 == 0) then skip_string p1 else p1 in
    if not (bit_and flags 0x02 == 0) then drop 2 p2 else p2

unfoldable pub skip_fields : ℕ → List ℕ → Option (List ℕ)
skip_fields flags p =
    if bit_and flags 0x04 == 0
    then some (skip_rest flags p)
    else elim (skip_extra p) [ none ↦ none | some p' ↦ some (skip_rest flags p') ]

-- The two words behind the stream.
unfoldable pub check_trailer : List ℕ → List ℕ → Outcome Error (List ℕ)
check_trailer out trailer =
    if not (scalar_crc32 0 out == le32_at trailer 0)
    then fails data_error
    else if not (le32_at trailer 4 == length out % 2 ^ 32)
    then fails data_error
    else done out

module _ (codec : RawCodec) where
  unfoldable pub gzip_compress_bound : ℕ → ℕ
  gzip_compress_bound src_len = codec.raw_compress_bound src_len + 18

  -- `none` is 0. The room behind the header wraps as a size_t, since the code does not check it; the
  -- header itself is taken to fit.
  unfoldable pub gzip_compress : ℕ → ℕ → Option (List ℕ) → ℕ → List ℕ → Option (List ℕ)
  gzip_compress capacity level filename mtime src =
      let header = gzip_header level filename mtime in
      let written : Option (List ℕ) =
        elim (codec.raw_compress ((capacity + 2 ^ 64 - length header - 8) % 2 ^ 64) level src) [
          | none ↦ none
          | some raw ↦
              some (header ++ (raw ++ (le32 (scalar_crc32 0 src) ++ le32 (length src % 2 ^ 32))))
        ] in
      if ltb capacity (gzip_compress_bound (length src)) then none else written

  unfoldable pub decompress_stream : ℕ → List ℕ → Outcome Error (List ℕ)
  decompress_stream capacity p =
      let unpacked : Outcome Error (List ℕ) =
        elim (codec.raw_decompress capacity (take (length p - 8) p)) [
          | fails e ↦ fails e
          | stuck ↦ stuck
          | done out ↦ check_trailer out (drop (length p - 8) p)
        ] in
      if ltb (length p) 8 then fails data_error else unpacked

  unfoldable pub gzip_decompress : ℕ → List ℕ → Outcome Error (List ℕ)
  gzip_decompress capacity src =
      let flags = get_or src 3 0 in
      let rest : Outcome Error (List ℕ) = elim (skip_fields flags (drop 10 src)) [
        | none ↦ fails data_error
        | some p ↦ decompress_stream capacity p
      ] in
      if ltb (length src) 18
      then fails data_error
      else if not (get_or src 0 0 == 0x1F) || not (get_or src 1 0 == 0x8B)
      then fails data_error
      else if not (get_or src 2 0 == 8)
      then fails data_error
      else rest
