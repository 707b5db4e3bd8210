-- ===== src/Deflate/BitWriter.antt =====
-- src/deflate/bit_writer.hpp, BitWriter: a 64-bit accumulator over the bytes written so far. The
-- caller has reserved the space, as the class asks.
use orot.Base.{
  ℕ, zero, suc, ◌+◌, ◌-◌, ◌*◌, ◌/◌, ◌%◌, ◌^◌, bit_or, List, [], ◌∷◌, ◌++◌, length, ltb, leb, ◌==◌,
  if◌then◌else◌,
}

pub record Writer : Type 0 where
  pub out : List ℕ
  pub bits : ℕ
  pub bit_count : ℕ

unfoldable pub new_writer : Writer
new_writer = record { out = []; bits = 0; bit_count = 0 }

-- The low `n` bytes of a word.
unfoldable pub low_bytes : ℕ → ℕ → List ℕ
low_bytes zero v = []
low_bytes (suc n) v = (v % 256) ∷ low_bytes n (v / 256)

-- Stores `n` bytes.
unfoldable pub store : ℕ → Writer → Writer
store n w = record {
  out = w.out ++ low_bytes n w.bits;
  bits = w.bits / 2 ^ (8 * n);
  bit_count = w.bit_count - 8 * n;
}

unfoldable pub write_bits : ℕ → ℕ → Writer → Writer
write_bits value count w =
    let w' : Writer = record {
      out = w.out;
      bits = bit_or w.bits (value % 2 ^ count * 2 ^ w.bit_count % 2 ^ 64);
      bit_count = w.bit_count + count;
    } in
    if leb 32 w'.bit_count then (if leb 56 w'.bit_count then store 7 w' else store 4 w') else w'

unfoldable pub write_bit : ℕ → Writer → Writer
write_bit b w = write_bits b 1 w

unfoldable pub write_byte : ℕ → Writer → Writer
write_byte b w = write_bits b 8 w

unfoldable pub align_to_byte : Writer → Writer
align_to_byte w = if w.bit_count % 8 == 0 then w else write_bits 0 (8 - w.bit_count % 8) w

-- flush_full_bytes; the fuel is at least the number of whole bytes.
unfoldable pub store_bytes : ℕ → Writer → Writer
store_bytes zero w = w
store_bytes (suc fuel) w =
    let rest = store_bytes fuel (store 1 w) in if leb 8 w.bit_count then rest else w

unfoldable pub flush_full_bytes : Writer → Writer
flush_full_bytes w = store_bytes w.bit_count w

unfoldable pub flush : Writer → Writer
flush w = flush_full_bytes (align_to_byte w)

unfoldable pub write_bytes : List ℕ → Writer → Writer
write_bytes src w =
    let drained = flush_full_bytes w in
    if length src == 0 then w else record drained { out = drained.out ++ src }

unfoldable pub total_bytes : Writer → ℕ
total_bytes w = length w.out + (if ltb 0 w.bit_count then 1 else 0)
