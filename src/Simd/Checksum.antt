-- ===== src/Simd/Checksum.antt =====
-- src/simd/simd_detect.cpp, scalar_crc32 and scalar_adler32, on 32-bit words.
use orot.Base.{
  ℕ, zero, suc, ◌+◌, ◌-◌, ◌*◌, ◌/◌, ◌%◌, ◌^◌, bit_or, bit_xor, List, [], ◌∷◌, length, take, drop,
  ◌==◌, if◌then◌else◌,
}

-- The rounds for one entry of the table.
unfoldable pub crc_rounds : ℕ → ℕ → ℕ
crc_rounds zero c = c
crc_rounds (suc n) c = crc_rounds n (bit_xor (c / 2) (if c % 2 == 1 then 0xEDB88320 else 0))

unfoldable pub crc_bytes : ℕ → List ℕ → ℕ
crc_bytes crc [] = crc
crc_bytes crc (b ∷ bytes) =
    crc_bytes (bit_xor (crc / 2 ^ 8) (crc_rounds 8 (bit_xor crc b % 256))) bytes

unfoldable pub scalar_crc32 : ℕ → List ℕ → ℕ
scalar_crc32 crc bytes = 2 ^ 32 - 1 - crc_bytes (2 ^ 32 - 1 - crc) bytes

abbrev pub mod_adler : ℕ
mod_adler = 65521

abbrev pub nmax : ℕ
nmax = 5552

-- The sums over one chunk.
unfoldable pub adler_bytes : ℕ → ℕ → List ℕ → ℕ × ℕ
adler_bytes s1 s2 [] = (s1, s2)
adler_bytes s1 s2 (b ∷ bytes) =
    adler_bytes ((s1 + b) % 2 ^ 32) ((s2 + (s1 + b) % 2 ^ 32) % 2 ^ 32) bytes

-- The loop over chunks; the fuel is at least the length.
unfoldable pub adler_chunks : ℕ → ℕ → ℕ → List ℕ → ℕ × ℕ
adler_chunks fuel s1 s2 [] = (s1, s2)
adler_chunks zero s1 s2 (b ∷ bytes) = (s1, s2)
adler_chunks (suc fuel) s1 s2 (b ∷ bytes) =
    let sums = adler_bytes s1 s2 (take nmax (b ∷ bytes)) in
    adler_chunks fuel (sums.0 % mod_adler) (sums.1 % mod_adler) (drop nmax (b ∷ bytes))

unfoldable pub scalar_adler32 : ℕ → List ℕ → ℕ
scalar_adler32 adler bytes =
    let sums = adler_chunks (length bytes) (adler % 2 ^ 16) (adler / 2 ^ 16 % 2 ^ 16) bytes in
    bit_or (sums.1 * 2 ^ 16 % 2 ^ 32) sums.0
