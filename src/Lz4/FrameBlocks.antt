-- ===== src/Lz4/FrameBlocks.antt =====
-- The blocks of a frame, src/lz4/lz4_frame.cpp: what the compressor writes, and what the decoder reads.
use orot.Base.{
  ℕ, zero, suc, ◌+◌, ◌-◌, ◌*◌, ◌/◌, ◌%◌, ◌^◌, ◌≤◌, ◌<◌, ◌≡◌, refl, ap, ◌∙◌, true, List, [], ◌∷◌,
  ◌++◌, some, Outcome, done, bit_or, arith, length, take, drop, leb, if-both, le→leb, ne-==, ge-ltb,
  lt-leb, length-append, length-drop, length-take, take-append, drop-append, append_assoc,
  append-nil, take-append-drop,
}
use orot.Base.Bits.{bit_or_high}
use orot.Lz4.Block.{Error, block_decompress, block_decompress_with_prefix, decode_loop}
use orot.Lz4.RoundTrip.{IsEncoding}
use orot.Lz4.Frame.{block_max, block_uncomp, write_le32, read_le32, block_field, decompress_blocks}

pub read_le32-write_le32 :
    (v : ℕ) (p : List ℕ) → v < 2 ^ 32 → read_le32 (write_le32 v ++ p) ≡ some (v, p)
unfolding read_le32 write_le32
read_le32-write_le32 v p small = ap (λ w. some (w, p)) (omega arith)

pub length-write_le32 : (v : ℕ) → length (write_le32 v) ≡ 4
unfolding write_le32
length-write_le32 v = refl

-- One round of the decoder, on a stored block.
decompress_blocks-stored :
    (fuel dst_cap : ℕ) (chunk rest out : List ℕ)
    → 0 < length chunk
    → length chunk ≤ block_max
    → length out + length chunk ≤ dst_cap
    → decompress_blocks
        (suc fuel)
        true
        dst_cap
        (write_le32 (bit_or (length chunk) block_uncomp) ++ (chunk ++ rest))
        out
      ≡ decompress_blocks fuel true dst_cap rest (out ++ chunk)
unfolding decompress_blocks
decompress_blocks-stored fuel dst_cap chunk rest out some_bytes le fits =
    let e : bit_or (length chunk) block_uncomp ≡ length chunk + 2 ^ 31 =
      bit_or_high 31 (length chunk) 1 (omega arith) in
    let m : (length chunk + 2 ^ 31) % block_uncomp ≡ length chunk = omega arith in
    rw
      (
        e,
        decompress_blocks,
        read_le32-write_le32 (length chunk + 2 ^ 31) (chunk ++ rest) (omega arith),
        m,
        take-append chunk rest,
        drop-append chunk rest,
        ne-== (length chunk + 2 ^ 31) 0 (omega arith),
        ge-ltb block_max (length chunk) (omega arith),
        ge-ltb (length (chunk ++ rest)) (length chunk) (omega (arith, length-append chunk rest)),
        le→leb block_uncomp (length chunk + 2 ^ 31) (omega arith),
        ge-ltb dst_cap (length out + length chunk) (omega arith),
      )
      refl

-- One round of the decoder, on a compressed block.
decompress_blocks-packed :
    (fuel dst_cap : ℕ) (chunk block rest out : List ℕ)
    → 0 < length block
    → length block ≤ block_max
    → IsEncoding chunk block
    → length out + length chunk ≤ dst_cap
    → decompress_blocks (suc fuel) true dst_cap (write_le32 (length block) ++ (block ++ rest)) out
      ≡ decompress_blocks fuel true dst_cap rest (out ++ chunk)
unfolding decompress_blocks block_decompress
decompress_blocks-packed fuel dst_cap chunk block rest out some_bytes le encoding fits =
    let m : length block % block_uncomp ≡ length block = omega arith in
    rw
      (
        decompress_blocks,
        read_le32-write_le32 (length block) (block ++ rest) (omega arith),
        m,
        take-append block rest,
        drop-append block rest,
        ne-== (length block) 0 (omega arith),
        ge-ltb block_max (length block) (omega arith),
        ge-ltb (length (block ++ rest)) (length block) (omega (arith, length-append block rest)),
        lt-leb block_uncomp (length block) (omega arith),
        encoding.decoded (dst_cap - length out) (omega arith),
        m,
        drop-append block rest,
      )
      refl

abbrev or_empty : Outcome Error (List ℕ) → List ℕ
or_empty (done xs) = xs
or_empty _ = []

-- The block of a source that is not empty is not empty.
block-not-empty : (src block : List ℕ) → 0 < length src → IsEncoding src block → 0 < length block
unfolding block_decompress block_decompress_with_prefix decode_loop
block-not-empty src [] h encoding =
    let e : 0 ≡ length src =
      ap (λ o. length (or_empty o)) (encoding.decoded (length src) (omega arith)) in
    absurd (omega arith)
block-not-empty src (x ∷ block) h encoding = omega arith

-- The blocks `bytes` of a frame for `src`: their size, and what the decoder makes of them.
pub record IsBlocks (src bytes : List ℕ) : Type 0 where
  pub size : length bytes ≤ length src + 4 * ((length src + block_max - 1) / block_max)
  pub decoded :
      (fuel dst_cap : ℕ) (rest out : List ℕ)
      → length bytes < fuel
      → length out + length src ≤ dst_cap
      → decompress_blocks fuel true dst_cap (bytes ++ (write_le32 0 ++ rest)) out
        ≡ done (out ++ src, rest)

pub IsBlocks-nil : IsBlocks [] []
unfolding decompress_blocks
IsBlocks-nil = record { size = omega arith; decoded = end_mark }
  where
    end_mark :
        (fuel dst_cap : ℕ) (rest out : List ℕ)
        → 0 < fuel
        → length out + 0 ≤ dst_cap
        → decompress_blocks fuel true dst_cap (write_le32 0 ++ rest) out ≡ done (out ++ [], rest)
    end_mark zero dst_cap rest out h fits = absurd (omega arith)
    end_mark (suc fuel) dst_cap rest out h fits =
        rw (decompress_blocks, read_le32-write_le32 0 rest (omega arith), append-nil out) refl

-- What one chunk adds.
pub record IsField (chunk : List ℕ) (f : ℕ × List ℕ) : Type 0 where
  pub size : length f.1 ≤ length chunk
  pub round :
      (fuel dst_cap : ℕ) (rest out : List ℕ)
      → length out + length chunk ≤ dst_cap
      → decompress_blocks (suc fuel) true dst_cap (write_le32 f.0 ++ (f.1 ++ rest)) out
        ≡ decompress_blocks fuel true dst_cap rest (out ++ chunk)

pub block_field-IsField :
    (chunk block : List ℕ)
    → 0 < length chunk
    → length chunk ≤ block_max
    → IsEncoding chunk block
    → IsField chunk (block_field chunk block)
unfolding block_field
block_field-IsField chunk block some_bytes le encoding =
    if-both (IsField chunk) (leb (length chunk) (length block)) _ _
      (λ _. record {
        size = omega arith;
        round = λ fuel dst_cap rest out fits.
            decompress_blocks-stored fuel dst_cap chunk rest out some_bytes le fits;
      })
      (λ shorter. record {
        size = ground arith;
        round = λ fuel dst_cap rest out fits.
            decompress_blocks-packed fuel dst_cap chunk block rest out
              (block-not-empty chunk block some_bytes encoding) (ground arith) encoding fits;
      })

-- The most that the blocks of n bytes take.
abbrev pub blocks_bound : ℕ → ℕ
blocks_bound n = n + 4 * ((n + block_max - 1) / block_max)

pub IsBlocks-cons :
    (src : List ℕ) (f : ℕ × List ℕ) (bytes : List ℕ)
    → 0 < length src
    → IsField (take block_max src) f
    → IsBlocks (drop block_max src) bytes
    → IsBlocks src (write_le32 f.0 ++ (f.1 ++ bytes))
IsBlocks-cons src f bytes some_bytes field blocks = record {
  size = omega (
    arith,
    blocks.size,
    field.size,
    length-append (write_le32 f.0) (f.1 ++ bytes),
    length-write_le32 f.0,
    length-append f.1 bytes,
    length-take block_max src,
    length-drop block_max src,
  );
  decoded = decoded;
}
  where
    decoded :
        (fuel dst_cap : ℕ) (rest out : List ℕ)
        → length (write_le32 f.0 ++ (f.1 ++ bytes)) < fuel
        → length out + length src ≤ dst_cap
        → decompress_blocks fuel true dst_cap
            ((write_le32 f.0 ++ (f.1 ++ bytes)) ++ (write_le32 0 ++ rest))
            out
          ≡ done (out ++ src, rest)
    decoded zero dst_cap rest out h fits = absurd (omega arith)
    decoded (suc fuel) dst_cap rest out h fits =
        let tail = write_le32 0 ++ rest in
        let chunk = take block_max src in
        let src' = drop block_max src in
        let shorter : length bytes < fuel = omega (
          arith,
          length-append (write_le32 f.0) (f.1 ++ bytes),
          length-write_le32 f.0,
          length-append f.1 bytes,
        ) in
        let both : length chunk + length src' ≡ length src =
          omega (arith, length-take block_max src, length-drop block_max src) in
        rw (append_assoc (write_le32 f.0) (f.1 ++ bytes) tail, append_assoc f.1 bytes tail)
          (field.round fuel dst_cap (bytes ++ tail) out (omega arith)
            ∙ blocks.decoded fuel dst_cap rest (out ++ chunk) shorter
                (omega (arith, length-append out chunk))
            ∙ ap (λ o. done (o, rest))
                (append_assoc out chunk src' ∙ ap (λ s. out ++ s) (take-append-drop block_max src)))
