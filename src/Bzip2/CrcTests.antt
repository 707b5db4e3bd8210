-- ===== src/Bzip2/CrcTests.antt =====
-- The checksum of src/bzip2 on small inputs, and the theorems at concrete inputs.
use orot.Base.{ℕ, ◌<◌, ◌≡◌, refl, List, [], ◌∷◌, some, arith, All, replicate}
use orot.Bzip2.Rle1.{Mode, expand, rle1_encode}
use orot.Bzip2.Crc.{
  crc_round, crc_rounds, crc32_table, crc32_tables, crc32_update, update_each, update_slice,
  crc32_update_bytes, crc32_update_repeat, crc32_block, crc32_finalize,
}
use orot.Bzip2.Crc.Updates.{crc32_update_bytes-update_each, crc32_update_repeat-update_each}
use orot.Bzip2.Output.{with_block_crc, output_block, output_block-expand, output_block-rle1_encode}

-- The check value of CRC-32/BZIP2: "123456789".
abbrev digits : List ℕ
digits = 49 ∷ 50 ∷ 51 ∷ 52 ∷ 53 ∷ 54 ∷ 55 ∷ 56 ∷ 57 ∷ []

digits-All : All (λ x. x < 256) digits
digits-All = (
  omega arith,
  (
    omega arith,
    (
      omega arith,
      (omega arith, (omega arith, (omega arith, (omega arith, (omega arith, (omega arith, tt)))))),
    ),
  ),
)

digits_checked : crc32_block digits ≡ 0xFC891918
unfolding crc32_block crc32_finalize crc32_update_bytes update_slice update_each crc32_update
    crc32_tables crc32_table crc_rounds crc_round
digits_checked = refl

crc32_update_bytes-update_each_example :
    crc32_update_bytes 0xFFFFFFFF digits ≡ update_each 0xFFFFFFFF digits
crc32_update_bytes-update_each_example =
    crc32_update_bytes-update_each digits 0xFFFFFFFF digits-All (omega arith)

crc32_update_repeat-update_each_example :
    crc32_update_repeat 0xFFFFFFFF 7 70 ≡ update_each 0xFFFFFFFF (replicate 70 7)
crc32_update_repeat-update_each_example =
    crc32_update_repeat-update_each 0xFFFFFFFF 7 70 (omega arith) (omega arith)

output_block-expand_example :
    output_block 100 digits ≡ with_block_crc (expand 100 digits (Mode.counting 0 0) [])
output_block-expand_example = output_block-expand 100 digits digits-All

output_block-rle1_encode_example :
    output_block 100 (rle1_encode digits) ≡ some (digits, crc32_block digits)
output_block-rle1_encode_example = output_block-rle1_encode 100 digits digits-All (omega arith)
