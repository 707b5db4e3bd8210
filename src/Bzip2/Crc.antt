-- ===== src/Bzip2/Crc.antt =====
-- src/bzip2/bzip2_crc.hpp: the checksum of bzip2, whose highest bit comes first.
pub mod Linear
pub mod Slices
pub mod Updates
use orot.Base.{
  ℕ, zero, suc, ◌+◌, ◌-◌, ◌*◌, ◌/◌, ◌%◌, ◌^◌, bit_xor, bit_or, List, [], ◌∷◌, ◌==◌, leb,
  if◌then◌else◌, length, take, replicate,
}

abbrev pub polynomial : ℕ
polynomial = 0x04C11DB7

-- One round of make_crc32_table: the bit that leaves on the left decides.
unfoldable pub crc_round : ℕ → ℕ
crc_round c = if c / 2 ^ 31 % 2 == 1 then bit_xor (c * 2 % 2 ^ 32) polynomial else c * 2 % 2 ^ 32

unfoldable pub crc_rounds : ℕ → ℕ → ℕ
crc_rounds zero c = c
crc_rounds (suc j) c = crc_rounds j (crc_round c)

-- CRC32_TABLE.
unfoldable pub crc32_table : ℕ → ℕ
crc32_table i = crc_rounds 8 (i * 2 ^ 24)

-- CRC32_TABLES.
unfoldable pub crc32_tables : ℕ → ℕ → ℕ
crc32_tables zero i = crc32_table i
crc32_tables (suc n) i =
    let c = crc32_tables n i in bit_xor (c * 2 ^ 8 % 2 ^ 32) (crc32_table (c / 2 ^ 24))

unfoldable pub crc32_update : ℕ → ℕ → ℕ
crc32_update crc byte =
    bit_xor (crc * 2 ^ 8 % 2 ^ 32) (crc32_table (bit_xor (crc / 2 ^ 24) byte % 256))

-- The loop behind the slices.
unfoldable pub update_each : ℕ → List ℕ → ℕ
update_each crc [] = crc
update_each crc (byte ∷ data_bytes) = update_each (crc32_update crc byte) data_bytes

-- Eight bytes at once.
unfoldable pub update_slice : ℕ → ℕ → ℕ → ℕ → ℕ → ℕ → ℕ → ℕ → ℕ → ℕ
update_slice crc d0 d1 d2 d3 d4 d5 d6 d7 =
    bit_xor
      (bit_xor
        (bit_xor
          (bit_xor
            (bit_xor
              (bit_xor
                (bit_xor (crc32_tables 7 (bit_xor (crc / 2 ^ 24) d0 % 256))
                  (crc32_tables 6 (bit_xor (crc / 2 ^ 16) d1 % 256)))
                (crc32_tables 5 (bit_xor (crc / 2 ^ 8) d2 % 256)))
              (crc32_tables 4 (bit_xor crc d3 % 256)))
            (crc32_tables 3 d4))
          (crc32_tables 2 d5))
        (crc32_tables 1 d6))
      (crc32_tables 0 d7)

unfoldable pub crc32_update_bytes : ℕ → List ℕ → ℕ
crc32_update_bytes crc (d0 ∷ d1 ∷ d2 ∷ d3 ∷ d4 ∷ d5 ∷ d6 ∷ d7 ∷ data_bytes) =
    crc32_update_bytes (update_slice crc d0 d1 d2 d3 d4 d5 d6 d7) data_bytes
crc32_update_bytes crc data_bytes = update_each crc data_bytes

-- The chunks of 64 copies, and the rest.
unfoldable pub repeat_chunks : ℕ → ℕ → ℕ → ℕ → ℕ
repeat_chunks zero crc byte len = crc
repeat_chunks (suc fuel) crc byte len =
    let rest = repeat_chunks fuel (crc32_update_bytes crc (replicate 64 byte)) byte (len - 64) in
    if leb 64 len
    then rest
    else if leb 1 len
    then crc32_update_bytes crc (replicate len byte)
    else crc

unfoldable pub crc32_update_repeat : ℕ → ℕ → ℕ → ℕ
crc32_update_repeat crc byte len = repeat_chunks (suc len) crc byte len

unfoldable pub crc32_finalize : ℕ → ℕ
crc32_finalize crc = bit_xor crc 0xFFFFFFFF

unfoldable pub crc32_block : List ℕ → ℕ
crc32_block data_bytes = crc32_finalize (crc32_update_bytes 0xFFFFFFFF data_bytes)

unfoldable pub crc32_combine : ℕ → ℕ → ℕ
crc32_combine combined block_crc =
    bit_xor (bit_or (combined * 2 % 2 ^ 32) (combined / 2 ^ 31)) block_crc
