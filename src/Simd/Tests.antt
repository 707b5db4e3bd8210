-- ===== src/Simd/Tests.antt =====
-- Runs of src/simd on small inputs, and the theorem at a concrete input.
use orot.Base.{ℕ, zero, suc, ◌+◌, ◌%◌, ◌/◌, ◌^◌, ◌≡◌, refl, List, [], ◌∷◌, arith}
use orot.Simd.Checksum.{
  scalar_crc32, crc_bytes, crc_rounds, scalar_adler32, adler_chunks, adler_bytes,
}
use orot.Simd.Adler.{adler_of, scalar_adler32-adler_of}
use orot.Simd.HashInsert.{hash_at, scalar_hash_insert_bulk, walk, walk-scalar_hash_insert_bulk}
use orot.Simd.Ctz.{ctz}
use orot.Simd.Match.{
  IsMatchLength, match_bytes, match_words, scalar_match_length, scalar_match_length-IsMatchLength,
}

abbrev ones : ℕ → ℕ
ones i = 1

abbrev ones_below_ten : ℕ → ℕ
ones_below_ten zero = 0
ones_below_ten (suc i) = 1

match_run : scalar_match_length (λ i. ones_below_ten (i + 1)) ones 12 ≡ 12
unfolding scalar_match_length match_words match_bytes
match_run = refl

-- The second word differs in its third byte.
differs_run : scalar_match_length (λ i. i % 10) (λ i. i % 256 % 11) 40 ≡ 10
unfolding scalar_match_length match_words match_bytes ctz
differs_run = refl

scalar_match_length-IsMatchLength_example :
    IsMatchLength
      (λ i. i % 10)
      (λ i. i % 256 % 11)
      40
      (scalar_match_length (λ i. i % 10) (λ i. i % 256 % 11) 40)
scalar_match_length-IsMatchLength_example =
    scalar_match_length-IsMatchLength (λ i. i % 10) (λ i. i % 256 % 11) 40 (λ i. omega arith)
      (λ i. omega arith)

-- The digits 1 to 9.
abbrev digits : List ℕ
digits = 49 ∷ 50 ∷ 51 ∷ 52 ∷ 53 ∷ 54 ∷ 55 ∷ 56 ∷ 57 ∷ []

crc32_run : scalar_crc32 0 digits ≡ 0xCBF43926
unfolding scalar_crc32 crc_bytes crc_rounds
crc32_run = refl

adler32_run : scalar_adler32 1 digits ≡ 0x091E01DE
unfolding scalar_adler32 adler_chunks adler_bytes
adler32_run = refl

scalar_adler32-adler_of_example :
    scalar_adler32 0x11E60398 (87 ∷ 105 ∷ 107 ∷ [])
    ≡ adler_of (0x11E60398 % 2 ^ 16) (0x11E60398 / 2 ^ 16) (87 ∷ 105 ∷ 107 ∷ [])
scalar_adler32-adler_of_example =
    scalar_adler32-adler_of 0x11E60398 (87 ∷ 105 ∷ 107 ∷ []) (omega arith, omega arith)
      (omega arith, (omega arith, (omega arith, tt)))

-- Five bytes, of which the first four and the last four are zeros.
walk-scalar_hash_insert_bulk_example :
    walk 2
      (scalar_hash_insert_bulk (0 ∷ 0 ∷ 0 ∷ 0 ∷ 0 ∷ []) 15 (λ h. 0, λ p. 0)).1
      ((scalar_hash_insert_bulk (0 ∷ 0 ∷ 0 ∷ 0 ∷ 0 ∷ []) 15 (λ h. 0, λ p. 0)).0 0)
    ≡ 1 ∷ 0 ∷ []
unfolding hash_at
walk-scalar_hash_insert_bulk_example =
    walk-scalar_hash_insert_bulk (0 ∷ 0 ∷ 0 ∷ 0 ∷ 0 ∷ []) 15 (λ h. 0, λ p. 0) 0 (omega arith)
