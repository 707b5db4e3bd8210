-- ===== src/Formats/Tests.antt =====
-- Runs of src/formats on small inputs, and the theorem at a concrete input.
use orot.Base.{
  ℕ, ◌+◌, ◌≡◌, ◌↔◌, refl, List, [], ◌∷◌, ◌++◌, Option, some, Outcome, done, arith, length,
}
use orot.Simd.Checksum.{scalar_crc32}
use orot.Formats.Gzip.{
  le32, gzip_header, Error, RawCodec, gzip_compress_bound, gzip_compress, gzip_decompress,
}
use orot.Formats.GzipRoundTrip.{IsAlike, gzip_decompress-gzip_compress}

-- A codec that copies.
abbrev copier : RawCodec
copier = record {
  raw_compress_bound = λ n. n;
  raw_compress = λ capacity level src. some src;
  raw_decompress = λ capacity raw. done raw;
}

abbrev packed : List ℕ
packed =
    gzip_header 6 (some (97 ∷ 98 ∷ [])) 7
    ++ ((1 ∷ 2 ∷ 3 ∷ []) ++ (le32 (scalar_crc32 0 (1 ∷ 2 ∷ 3 ∷ [])) ++ le32 3))

packed_run : gzip_compress copier 100 6 (some (97 ∷ 98 ∷ [])) 7 (1 ∷ 2 ∷ 3 ∷ []) ≡ some packed
unfolding gzip_compress gzip_compress_bound gzip_header
packed_run = refl

gzip_decompress-gzip_compress_example :
    (raw : List ℕ) × (◌≡◌ {A = Option (List ℕ)} (some (1 ∷ 2 ∷ 3 ∷ [])) (some raw))
    × (length packed ≡ length (gzip_header 6 (some (97 ∷ 98 ∷ [])) 7) + length raw + 8)
    × ((gzip_decompress copier 3 packed ≡ done (1 ∷ 2 ∷ 3 ∷ [])) ↔ (
        (◌≡◌ {A = Outcome Error (List ℕ)} (done raw) (done (1 ∷ 2 ∷ 3 ∷ [])))
        × IsAlike (1 ∷ 2 ∷ 3 ∷ []) (1 ∷ 2 ∷ 3 ∷ [])))
unfolding gzip_header le32
gzip_decompress-gzip_compress_example =
    gzip_decompress-gzip_compress copier 100 6 7 3 (some (97 ∷ 98 ∷ [])) (1 ∷ 2 ∷ 3 ∷ []) packed
      (1 ∷ 2 ∷ 3 ∷ []) (ground arith) (omega arith) (omega arith) packed_run
