-- ===== src/Bzip2/BitStream.antt =====
-- The bit streams of src/bzip2: BitWriter of bzip2_compress.cpp, BitReader of bzip2_decompress.cpp.
-- Both keep a uint64_t of bits, the highest first.
pub mod RoundTrip
pub mod Fields
pub mod Refill
use orot.Base.{
  ℕ, zero, suc, ◌+◌, ◌-◌, ◌*◌, ◌/◌, ◌%◌, ◌^◌, bit_or, List, [], ◌∷◌, ◌++◌, Bool, Option, none, some,
  ltb, leb, if◌then◌else◌, length, take, drop,
}

-- `dst` holds what was stored, and `pos` goes on behind the capacity.
pub record Writer : Type 0 where
  pub dst : List ℕ
  pub pos : ℕ
  pub buf : ℕ
  pub buf_bits : ℕ
  pub total_bits : ℕ

abbrev pub new_writer : Writer
new_writer = record { dst = []; pos = 0; buf = 0; buf_bits = 0; total_bits = 0 }

-- buf = (buf << nbits) | value, on a uint64_t; `value` is a uint32_t.
unfoldable pub push_bits : Writer → ℕ → ℕ → Writer
push_bits w value nbits = record w {
  buf = bit_or (w.buf * 2 ^ nbits % 2 ^ 64) (value % 2 ^ 32);
  buf_bits = w.buf_bits + nbits;
  total_bits = w.total_bits + nbits;
}

module _ (cap : ℕ) where
  unfoldable pub store_byte : Writer → ℕ → Writer
  store_byte w byte = record w {
    dst = (if ltb w.pos cap then w.dst ++ (byte ∷ []) else w.dst);
    pos = w.pos + 1;
  }

  -- while (buf_bits >= 8), with as much fuel as there are bits.
  unfoldable pub drain : ℕ → Writer → Writer
  drain zero w = w
  drain (suc fuel) w =
      let bits = w.buf_bits - 8 in
      let rest = drain fuel (store_byte (record w { buf_bits = bits }) (w.buf / 2 ^ bits % 256)) in
      if leb 8 w.buf_bits then rest else w

  unfoldable pub write_bits : Writer → ℕ → ℕ → Writer
  write_bits w value nbits = drain (w.buf_bits + nbits) (push_bits w value nbits)

  unfoldable pub flush : Writer → Writer
  flush w =
      if ltb 0 w.buf_bits
      then record (store_byte w (w.buf * 2 ^ (8 - w.buf_bits) % 256)) {
        total_bits = w.total_bits + (8 - w.buf_bits);
        buf = 0;
        buf_bits = 0;
      }
      else w

  unfoldable pub ok : Writer → Bool
  ok w = leb w.pos cap

-- `src` are the bytes from pos on.
pub record Reader : Type 0 where
  pub src : List ℕ
  pub buf : ℕ
  pub buf_bits : ℕ

abbrev pub new_reader : List ℕ → Reader
new_reader src = record { src = src; buf = 0; buf_bits = 0 }

-- while (buf_bits < n), which ends when the bytes do.
unfoldable pub fill_bits : ℕ → List ℕ → ℕ → ℕ → Option Reader
fill_bits n [] buf buf_bits =
    if ltb buf_bits n then none else some (record { src = []; buf = buf; buf_bits = buf_bits })
fill_bits n (byte ∷ src) buf buf_bits =
    let rest = fill_bits n src (bit_or (buf * 2 ^ 8 % 2 ^ 64) byte) (buf_bits + 8) in
    if ltb buf_bits n
    then rest
    else some (record { src = byte ∷ src; buf = buf; buf_bits = buf_bits })

-- The n upper bits leave the buffer, for n below 32, where 1u << n is defined.
unfoldable pub take_bits : ℕ → Reader → ℕ × Reader
take_bits n r =
    let bits = r.buf_bits - n in (r.buf / 2 ^ bits % 2 ^ n, record r { buf_bits = bits })

-- `none` is (uint32_t)-1, or a width of more than 31 bits, for which the mask 1u << n is undefined.
unfoldable pub read_bits : Reader → ℕ → Option (ℕ × Reader)
read_bits r n =
    if ltb 31 n
    then none
    else elim (fill_bits n r.src r.buf r.buf_bits) [ none ↦ none | some r' ↦ some (take_bits n r') ]

-- Bytes as one number, the first the highest: __builtin_bswap64 of a load.
unfoldable pub word_of : ℕ → List ℕ → ℕ
word_of acc [] = acc
word_of acc (byte ∷ bytes) = word_of (acc * 2 ^ 8 + byte) bytes

-- The fallback near the end of the stream.
unfoldable pub refill_bytes : List ℕ → ℕ → ℕ → Reader
refill_bytes [] buf buf_bits = record { src = []; buf = buf; buf_bits = buf_bits }
refill_bytes (byte ∷ src) buf buf_bits =
    let rest = refill_bytes src (bit_or (buf * 2 ^ 8 % 2 ^ 64) byte) (buf_bits + 8) in
    if leb buf_bits 56 then rest else record { src = byte ∷ src; buf = buf; buf_bits = buf_bits }

-- As many of the next eight bytes as there is room for.
unfoldable pub refill_word : Reader → Reader
refill_word r =
    let slots = (64 - r.buf_bits) / 8 in
    let shift = slots * 8 in
    let chunk = word_of 0 (take 8 r.src) in
    record {
      src = drop slots r.src;
      buf =
          bit_or (if ltb shift 64 then r.buf * 2 ^ shift % 2 ^ 64 else 0)
            (chunk / 2 ^ (64 - shift));
      buf_bits = r.buf_bits + shift;
    }

unfoldable pub refill : Reader → Reader
refill r =
    if ltb 56 r.buf_bits
    then r
    else if leb 8 (length r.src)
    then refill_word r
    else refill_bytes r.src r.buf r.buf_bits
