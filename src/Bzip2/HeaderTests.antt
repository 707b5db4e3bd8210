-- ===== src/Bzip2/HeaderTests.antt =====
-- A block header of src/bzip2, written and read, and the theorems at concrete inputs.
use orot.Base.{
  ℕ, ◌+◌, ◌*◌, ◌<◌, ◌≡◌, refl, List, [], ◌∷◌, ◌++◌, true, false, arith, replicate, some,
}
use orot.Bzip2.BitStream.{
  new_writer, new_reader, write_bits, push_bits, drain, store_byte, flush, ok,
}
use orot.Bzip2.BitStream.Fields.{write_all, read_all, read_all-write_all}
use orot.Bzip2.Header.{Header}

abbrev two_fields : List (ℕ × ℕ)
two_fields = (4, 9) ∷ (7, 100) ∷ []

two_fields_written : (flush 4 (write_all 4 new_writer two_fields)).dst ≡ 0x9C ∷ 0x80 ∷ []
unfolding write_bits push_bits drain store_byte flush
two_fields_written = refl

two_fields_fit : ok 4 (flush 4 (write_all 4 new_writer two_fields)) ≡ true
unfolding write_bits push_bits drain store_byte flush ok
two_fields_fit = refl

read_all-write_all_example :
    (read_all (new_reader (flush 4 (write_all 4 new_writer two_fields)).dst) (4 ∷ 7 ∷ [])
      ≡ some (9 ∷ 100 ∷ []))
    × ((pad : ℕ) × (pad < 8) × (11 + pad ≡ (flush 4 (write_all 4 new_writer two_fields)).pos * 8))
read_all-write_all_example =
    read_all-write_all 4 two_fields ((omega arith, omega arith), ((omega arith, omega arith), tt))
      two_fields_fit

-- One byte in use, and three symbols.
abbrev header : Header
header = record {
  crc = 0x12345678;
  primary = 5;
  in_use = replicate 97 false ++ (true ∷ replicate 158 false);
  n_tables = 2;
  selectors = 1 ∷ 0 ∷ 0 ∷ [];
  lens = (1 ∷ 2 ∷ 2 ∷ []) ∷ (2 ∷ 2 ∷ 1 ∷ []) ∷ [];
}
