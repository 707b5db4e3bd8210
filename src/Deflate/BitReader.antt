-- ===== src/Deflate/BitReader.antt =====
-- src/deflate/bit_reader.hpp, BitReader: the bytes behind the pointer, and a 64-bit accumulator that
-- may hold bits above those it counts. The asserts are what the callers keep.
use orot.Base.{
  ℕ, zero, suc, ◌+◌, ◌-◌, ◌*◌, ◌/◌, ◌%◌, ◌^◌, bit_or, Bool, ◌&&◌, List, [], ◌∷◌, length, get_or,
  drop, ltb, leb, ◌==◌, if◌then◌else◌,
}

pub record Reader : Type 0 where
  pub src : List ℕ
  pub bits : ℕ
  pub bit_count : ℕ

unfoldable pub new_reader : List ℕ → Reader
new_reader src = record { src = src; bits = 0; bit_count = 0 }

-- A little-endian word of `n` bytes.
unfoldable pub word_of : ℕ → List ℕ → ℕ
word_of zero src = 0
word_of (suc n) src = get_or src 0 0 + 256 * word_of n (drop 1 src)

unfoldable pub refill_fast : Reader → Reader
refill_fast r =
    let bytes = (63 - r.bit_count) / 8 in
    record {
      src = drop bytes r.src;
      bits = bit_or r.bits (word_of 8 r.src * 2 ^ r.bit_count % 2 ^ 64);
      bit_count = r.bit_count + bytes * 8;
    }

-- The loop of refill_safe.
unfoldable pub refill_bytes : List ℕ → ℕ → ℕ → Reader
refill_bytes [] bits bit_count = record { src = []; bits = bits; bit_count = bit_count }
refill_bytes (b ∷ src) bits bit_count =
    let rest = refill_bytes src (bit_or bits (b * 2 ^ bit_count % 2 ^ 64)) (bit_count + 8) in
    if ltb bit_count 56 then rest else record { src = b ∷ src; bits = bits; bit_count = bit_count }

unfoldable pub refill_safe : Reader → Reader
refill_safe r = refill_bytes r.src r.bits r.bit_count

-- For a count below 32, for which the code's shift is defined.
unfoldable pub peek_bits : ℕ → Reader → ℕ
peek_bits count r = r.bits % 2 ^ 32 % 2 ^ count

unfoldable pub consume_bits : ℕ → Reader → Reader
consume_bits count r = record r { bits = r.bits / 2 ^ count; bit_count = r.bit_count - count }

unfoldable pub read_bits : ℕ → Reader → ℕ × Reader
read_bits count r = (peek_bits count r, consume_bits count r)

unfoldable pub align_to_byte : Reader → Reader
align_to_byte r = if r.bit_count % 8 == 0 then r else consume_bits (r.bit_count % 8) r

unfoldable pub read_u16_le : Reader → ℕ × Reader
read_u16_le r = (word_of 2 r.src, record { src = drop 2 r.src; bits = 0; bit_count = 0 })

unfoldable pub bytes_remaining : Reader → ℕ
bytes_remaining r = length r.src + r.bit_count / 8

unfoldable pub is_exhausted : Reader → Bool
is_exhausted r = length r.src == 0 && r.bit_count == 0

unfoldable pub can_refill_fast : Reader → Bool
can_refill_fast r = leb 8 (length r.src)
