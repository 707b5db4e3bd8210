-- ===== src/Bzip2/Header/RoundTrip.antt =====
-- The header of a block of src/bzip2, written and read.
use orot.Base.{ℕ, ◌+◌, ◌^◌, ◌≤◌, ◌<◌, ◌≡◌, ◌≢◌, List, ◌++◌, length, All}
use orot.Base.Digits.{bits}
use orot.Bzip2.BitStream.Fields.{field_bits}
use orot.Bzip2.Header.{
  Header, count_flags, flag_word, coarse_flags, fine_fields, selector_mtf_encode, selector_fields,
  table_fields, count_up, max_selectors,
}
use orot.Bzip2.Header.Takes.{Takes}
use orot.Bzip2.Header.Lengths.{IsTable}

-- What compress_block can put into a header.
pub record IsHeader (h : Header) : Type 0 where
  pub crc_word : h.crc < 2 ^ 32
  pub primary_field : h.primary < 2 ^ 24
  pub all_bytes : length h.in_use ≡ 256
  pub some_byte : count_flags h.in_use ≢ 0
  pub few_tables : (2 ≤ h.n_tables) × (h.n_tables ≤ 6)
  pub selector_count : length h.selectors ≤ max_selectors
  pub are_tables : All (λ t. t < h.n_tables) h.selectors
  pub table_count : length h.lens ≡ h.n_tables
  pub lengths : All (IsTable (count_flags h.in_use + 2)) h.lens

module _ (h : Header) (v : IsHeader h) where
  abbrev selector_bits : List ℕ
  selector_bits =
      field_bits (selector_fields (selector_mtf_encode h.selectors (count_up h.n_tables 0)))

  abbrev coding_bits : List ℕ
  coding_bits =
      bits 3 h.n_tables
      ++ (bits 15 (length h.selectors) ++ (selector_bits ++ field_bits (table_fields h.lens)))

  abbrev map_bits : List ℕ
  map_bits =
      bits 16 (flag_word (coarse_flags 16 h.in_use) 0)
      ++ (field_bits (fine_fields 16 h.in_use) ++ coding_bits)
