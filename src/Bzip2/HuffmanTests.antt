-- ===== src/Bzip2/HuffmanTests.antt =====
-- Runs of the Huffman coding of src/bzip2, and the theorems at concrete inputs.
use orot.Base.{◌≤◌, All, ℕ, ◌≡◌, refl, List, [], ◌∷◌, ◌++◌, some, arith}
use orot.Base.Digits.{bits, byte_bits}
use orot.Bzip2.BitStream.{Reader, refill}
use orot.Bzip2.BitStream.RoundTrip.{remaining}
use orot.Bzip2.BitStream.Refill.{IsRefilled, refill-IsRefilled}
use orot.Bzip2.Huffman.{
  HuffDecTable, build_codes, assign_codes, next_code, bl_count, base_of, find_max_len, limit_of,
  perm_of, offset_of, symbols_of, build_table, build_from_lengths,
}
use orot.Bzip2.HuffmanDecode.{
  decode_sym, decode_slow, decode_from, next_bit, high_bit, fetch_byte, within, symbol_at,
}
use orot.Bzip2.Header.{and_then}
use orot.Bzip2.HuffmanDecode.Slow.{IsCoded}
use orot.Bzip2.Symbols.{symbol_fields, build_tables, read_block_symbols}
use orot.Bzip2.Symbols.RoundTrip.{read_block_symbols-symbol_fields}
use orot.Bzip2.HuffmanDecode.RoundTrip.{decode_sym-build_codes, decode_slow-IsCoded}

-- One symbol of one bit, one of two, and two of three.
abbrev four_lens : List ℕ
four_lens = 1 ∷ 2 ∷ 3 ∷ 3 ∷ []

build_codes_run : build_codes four_lens ≡ 0 ∷ 2 ∷ 6 ∷ 7 ∷ []
unfolding build_codes assign_codes next_code bl_count
build_codes_run = refl

-- The code 110 at the front of a buffer of sixteen bits.
abbrev code_reader : Reader
code_reader = record { src = 9 ∷ []; buf = 0xC005; buf_bits = 16 }

decode_sym-build_codes_example :
    (t : HuffDecTable) × (r' : Reader) × (build_from_lengths four_lens ≡ some t)
    × (decode_sym t code_reader ≡ some (2, r'))
    × (remaining r' ≡ bits 13 5 ++ byte_bits (9 ∷ []))
unfolding build_codes assign_codes next_code bl_count base_of find_max_len
decode_sym-build_codes_example =
    decode_sym-build_codes four_lens 2
      (omega arith, (omega arith, (omega arith, (omega arith, (omega arith, tt))))) (omega arith)
      (omega arith, omega arith) code_reader (bits 13 5 ++ byte_bits (9 ∷ [])) (omega arith, tt)
      refl

-- Three symbols of one bit are no prefix code.
abbrev three_lens : List ℕ
three_lens = 1 ∷ 1 ∷ 1 ∷ []

decode_slow_run :
    decode_slow (build_table three_lens (find_max_len three_lens 0) []) code_reader
    ≡ some (1, record { src = 9 ∷ []; buf = 0xC005; buf_bits = 15 })
unfolding decode_slow decode_from next_bit high_bit fetch_byte within symbol_at and_then build_table
    limit_of base_of bl_count perm_of offset_of symbols_of find_max_len
decode_slow_run = refl

decode_slow-IsCoded_example : IsCoded three_lens 1
decode_slow-IsCoded_example =
    decode_slow-IsCoded three_lens [] code_reader
      (record { src = 9 ∷ []; buf = 0xC005; buf_bits = 15 }) 1
      (omega arith, (omega arith, (omega arith, (omega arith, tt)))) decode_slow_run

refill-IsRefilled_example : IsRefilled code_reader (refill code_reader)
refill-IsRefilled_example = refill-IsRefilled code_reader (omega arith, tt) (omega arith)

-- Symbols in a table of two bits each and in four_lens; the last is 3.
abbrev two_tables : List (List ℕ)
two_tables = (2 ∷ 2 ∷ 2 ∷ 2 ∷ []) ∷ four_lens ∷ []

abbrev symbol_reader : Reader
symbol_reader = record { src = 0xD7 ∷ []; buf = 0; buf_bits = 0 }

read_block_symbols-symbol_fields_example :
    (ts : List HuffDecTable) × (r' : Reader) × (build_tables two_tables ≡ some ts)
    × (read_block_symbols ts (1 ∷ []) 3 symbol_reader ≡ some (2 ∷ 1 ∷ 3 ∷ [], r'))
    × (remaining r' ≡ [])
unfolding symbol_fields build_codes assign_codes next_code bl_count base_of find_max_len
read_block_symbols-symbol_fields_example =
    read_block_symbols-symbol_fields two_tables (1 ∷ []) 3 (2 ∷ 1 ∷ 3 ∷ [])
      (((omega arith, four_small), omega arith), (((omega arith, four_short), omega arith), tt))
      (omega arith, tt)
      ((λ e. absurd (cc)), coded_two, ((λ e. absurd (cc)), coded_one, (refl, coded_three)))
      (omega arith) symbol_reader [] (omega arith, tt) refl
  where
    four_small : All (λ l. l ≤ 20) (2 ∷ 2 ∷ 2 ∷ 2 ∷ [])
    four_small = (omega arith, (omega arith, (omega arith, (omega arith, tt))))

    four_short : All (λ l. l ≤ 20) four_lens
    four_short = (omega arith, (omega arith, (omega arith, (omega arith, tt))))

    coded_two : All (λ lens. IsCoded lens 2) two_tables
    coded_two = ((omega arith, omega arith), ((omega arith, omega arith), tt))

    coded_one : All (λ lens. IsCoded lens 1) two_tables
    coded_one = ((omega arith, omega arith), ((omega arith, omega arith), tt))

    coded_three : All (λ lens. IsCoded lens 3) two_tables
    coded_three = ((omega arith, omega arith), ((omega arith, omega arith), tt))
