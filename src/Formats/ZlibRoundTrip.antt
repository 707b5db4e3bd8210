-- ===== src/Formats/ZlibRoundTrip.antt =====
-- zlib_compress and zlib_decompress of src/formats/zlib_wrapper.cpp, whatever the classes behind do.
use orot.Base.{
  true, ℕ, suc, ◌+◌, ◌-◌, ◌^◌, ◌≤◌, ◌<◌, ◌≡◌, refl, sym, ap, ◌∙◌, List, ◌∷◌, ◌++◌, some, done,
  arith, length, take, drop, All-append, length-append, take-append, drop-append, ge-ltb,
}
use orot.Simd.Checksum.{scalar_adler32}
use orot.Simd.Adler.{scalar_adler32-IsAdler}
use orot.Formats.RawDeflate.{Engine, raw_compress, raw_compress_bound, raw_decompress_ex}
use orot.Formats.StoredBlocks.{IsBytes, Stored, Stored-IsBytes}
use orot.Formats.Zlib.{
  be32, be32_at, bad_header, accept_raw, or_else, wrapped, zlib_compress_bound, zlib_compress,
  zlib_decompress, try_stored_zlib_decompress,
}
use orot.Formats.ZlibAccepts.{try_stored_zlib_decompress-Stored}

scalar_adler32-lt : (src : List ℕ) → IsBytes src → scalar_adler32 1 src < 2 ^ 32
scalar_adler32-lt src small =
    let h = scalar_adler32-IsAdler 1 src (omega arith, omega arith) small in omega (arith, h.1)

be32_at-be32 : (v : ℕ) → v < 2 ^ 32 → be32_at (be32 v) ≡ v
unfolding be32
be32_at-be32 v h = omega (arith, h)

length-be32 : (v : ℕ) → length (be32 v) ≡ 4
unfolding be32
length-be32 v = refl

be32-IsBytes : (v : ℕ) → IsBytes (be32 v)
unfolding be32
be32-IsBytes v = (omega arith, (omega arith, (omega arith, (omega arith, tt))))

-- A raw stream between the header and the trailer.
abbrev framed : List ℕ → ℕ → List ℕ
framed raw sum = 0x78 ∷ 0x9C ∷ (raw ++ be32 sum)

-- The parts of a framed stream, as zlib_decompress takes them.
record Frame (raw : List ℕ) (sum : ℕ) : Type 0 where
  long : 6 ≤ length (framed raw sum)
  body : take (length (framed raw sum) - 6) (drop 2 (framed raw sum)) ≡ raw
  trailer : be32_at (drop (length (framed raw sum) - 4) (framed raw sum)) ≡ sum

frame : (raw : List ℕ) (sum : ℕ) → sum < 2 ^ 32 → Frame raw sum
frame raw sum small =
    let bytes = framed raw sum in
    let total = length-append raw (be32 sum) in
    let four = length-be32 sum in
    let front : length bytes - 6 ≡ length raw = omega (arith, total, four) in
    let back : length bytes - 4 ≡ suc (suc (length raw)) = omega (arith, total, four) in
    record {
      long = omega (arith, total, four);
      body = ap (λ k. take k (raw ++ be32 sum)) front ∙ take-append raw (be32 sum);
      trailer =
          ap be32_at (ap (λ k. drop k bytes) back ∙ drop-append raw (be32 sum))
          ∙ be32_at-be32 sum small;
    }

module _ (engine : Engine) where
  -- The fast path has the whole stream, and the raw decoder just what stands between.
  zlib_decompress-framed :
      (room : ℕ) (raw src : List ℕ)
      → IsBytes src
      → zlib_decompress engine room (framed raw (scalar_adler32 1 src))
        ≡ or_else
            (try_stored_zlib_decompress room (framed raw (scalar_adler32 1 src)))
            (accept_raw (scalar_adler32 1 src) (raw_decompress_ex engine room raw))
  unfolding zlib_decompress bad_header
  zlib_decompress-framed room raw src small =
      let sum = scalar_adler32 1 src in
      let f = frame raw sum (scalar_adler32-lt src small) in
      rw (ge-ltb (length (framed raw sum)) 6 f.long, f.body, f.trailer) refl

  -- If BlockCompressor gives a stream of stored blocks that holds the source, a list of bytes, and
  -- the capacity is at least the bound, zlib_compress succeeds, and zlib_decompress gives the source
  -- back, given room for it, whatever Decompressor does.
  pub zlib_decompress-Stored :
      (dst_capacity level room : ℕ) (src raw : List ℕ)
      → IsBytes src
      → zlib_compress_bound (length src) ≤ dst_capacity
      → engine.compress (dst_capacity - 6) level src true ≡ some raw
      → Stored raw src
      → length src ≤ room
      → (bytes : List ℕ) × (zlib_compress engine dst_capacity level src ≡ some bytes)
        × (zlib_decompress engine room bytes ≡ done src)
  unfolding zlib_compress zlib_compress_bound wrapped raw_compress or_else
  zlib_decompress-Stored dst_capacity level room src raw small enough packed stored le =
      let sum = scalar_adler32 1 src in
      let bound = raw_compress_bound (length src) in
      let bytes = framed raw sum in
      let f = frame raw sum (scalar_adler32-lt src small) in
      let bytes_small : IsBytes bytes = (
        omega arith,
        (
          omega arith,
          All-append (λ b. b < 256) raw (be32 sum) (Stored-IsBytes stored small) (be32-IsBytes sum),
        ),
      ) in
      let fast : try_stored_zlib_decompress room bytes ≡ some src =
        (try_stored_zlib_decompress-Stored room bytes src bytes_small).1
          (rw f.body stored, le, sym f.trailer) in
      (
        bytes,
        rw
            (
              ge-ltb dst_capacity (bound + 6) enough,
              ge-ltb (dst_capacity - 6) bound (omega (arith, enough)),
              packed,
            )
            refl,
        zlib_decompress-framed room raw src small ∙ rw fast refl,
      )
