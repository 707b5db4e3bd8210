-- ===== src/Deflate/Tests.antt =====
-- Runs of src/deflate on small inputs.
use orot.Base.{ℕ, ◌≡◌, refl, List, [], ◌∷◌}
use orot.Deflate.BitWriter.{
  new_writer, low_bytes, store, write_bits, align_to_byte, store_bytes, flush_full_bytes, flush,
}
use orot.Deflate.BitReader.{
  new_reader, refill_bytes, refill_safe, peek_bits, consume_bits, read_bits,
}

abbrev packed : List ℕ
packed = 0x05 ∷ 0x1A ∷ 0x55 ∷ 0x55 ∷ 0x55 ∷ 0x55 ∷ []

written_run :
    (flush (write_bits 0xAAAAAAAA 31 (write_bits 0x340 13 (write_bits 5 3 new_writer)))).out
    ≡ 0x05 ∷ 0x1A ∷ 0xAA ∷ 0xAA ∷ 0xAA ∷ 0x2A ∷ []
unfolding flush write_bits new_writer store low_bytes align_to_byte store_bytes flush_full_bytes
written_run = refl

read_run : (read_bits 13 (read_bits 3 (refill_safe (new_reader packed))).1).0 ≡ 0x340
unfolding read_bits refill_safe new_reader refill_bytes peek_bits consume_bits
read_run = refl
