-- ===== src/Formats/ZlibTests.antt =====
-- The theorems on src/formats/zlib_wrapper.cpp at concrete inputs.
use orot.Base.{
  ℕ, ◌≤◌, ◌≡◌, ◌↔◌, refl, Bool, true, false, List, [], ◌∷◌, some, done, arith, ltb, if-both,
  if◌then◌else◌,
}
use orot.Simd.Checksum.{scalar_adler32}
use orot.Formats.Gzip.{data_error}
use orot.Formats.Zlib.{
  be32_at, try_stored_zlib_decompress, zlib_compress_bound, zlib_compress, zlib_decompress,
}
use orot.Formats.RawDeflate.{Engine, error, raw_compress_bound}
use orot.Formats.StoredBlocks.{IsBytes, Stored, last, stored_block}
use orot.Formats.ZlibAccepts.{try_stored_zlib_decompress-Stored}
use orot.Formats.ZlibRoundTrip.{zlib_decompress-Stored}

-- One stored block, and a decoder that reads nothing.
abbrev stored_engine : Engine
stored_engine = record {
  compress = λ capacity level src is_last. some (1 ∷ stored_block src);
  State = Unit;
  start = tt;
  decompress =
      λ state src room. record { result = error data_error; state = tt; avail_in = src; out = [] };
  adler = λ state. 1;
  adler_exact = λ state. false;
}

abbrev bytes_below : List ℕ → Bool
bytes_below [] = true
bytes_below (b ∷ bytes) = if ltb b 256 then bytes_below bytes else false

all_below : (bytes : List ℕ) → bytes_below bytes ≡ true → IsBytes bytes
all_below [] e = tt
all_below (b ∷ bytes) e =
    if-both (λ o. o ≡ true → IsBytes (b ∷ bytes)) (ltb b 256) _ _
      (λ small q. (ground (arith, small), all_below bytes q)) (λ _ q. absurd (cc)) e

abbrev abc_stream : List ℕ
abc_stream = 120 ∷ 156 ∷ 1 ∷ 3 ∷ 0 ∷ 252 ∷ 255 ∷ 97 ∷ 98 ∷ 99 ∷ 2 ∷ 77 ∷ 1 ∷ 39 ∷ []

abbrev abc : List ℕ
abc = 97 ∷ 98 ∷ 99 ∷ []

abbrev abc_raw : List ℕ
abc_raw = 1 ∷ 3 ∷ 0 ∷ 252 ∷ 255 ∷ abc

zlib_decompress-Stored_example :
    (bytes : List ℕ) × (zlib_compress stored_engine 40 6 abc ≡ some bytes)
    × (zlib_decompress stored_engine 3 bytes ≡ done abc)
unfolding zlib_compress_bound raw_compress_bound
zlib_decompress-Stored_example =
    zlib_decompress-Stored stored_engine 40 6 3 abc abc_raw (all_below abc refl) (omega arith) refl
      (last abc (omega arith)) (omega arith)

try_stored_zlib_decompress-Stored_example :
    (try_stored_zlib_decompress 3 abc_stream ≡ some abc)
    ↔ (Stored abc_raw abc × (3 ≤ 3) × (scalar_adler32 1 abc ≡ be32_at (2 ∷ 77 ∷ 1 ∷ 39 ∷ [])))
try_stored_zlib_decompress-Stored_example =
    try_stored_zlib_decompress-Stored 3 abc_stream abc (all_below abc_stream refl)
