-- ===== src/Bzip2/HuffmanDecode.antt =====
-- decode_sym of src/bzip2/bzip2_huffman.cpp, on the bit reader; decode_sym_hot of
-- src/bzip2/bzip2_decompress.cpp has the same body.
pub mod Slow
pub mod Codes
pub mod Entries
pub mod Table
pub mod Fast
pub mod RoundTrip
use orot.Base.{
  ℕ, zero, suc, ◌+◌, ◌-◌, ◌*◌, ◌/◌, ◌%◌, ◌^◌, bit_or, Bool, true, false, List, [], ◌∷◌, Option,
  none, some, get_or, leb, ◌==◌, if◌then◌else◌,
}
use orot.Bzip2.BitStream.{Reader}
use orot.Bzip2.Header.{Parser, give, refuse, bind}
use orot.Bzip2.Huffman.{HuffDecTable, FastEntry, huff_fast_bits}

-- One byte into an empty buffer; `none` is return -1.
unfoldable pub fetch_byte : List ℕ → ℕ → Option Reader
fetch_byte [] buf = none
fetch_byte (byte ∷ src) buf =
    some (record { src = src; buf = bit_or (buf * 2 ^ 8 % 2 ^ 64) byte; buf_bits = 8 })

-- The highest bit leaves the buffer.
unfoldable pub high_bit : Option Reader → Option (ℕ × Reader)
high_bit none = none
high_bit (some r) =
    let bits = r.buf_bits - 1 in some (r.buf / 2 ^ bits % 2, record r { buf_bits = bits })

unfoldable pub next_bit : Parser ℕ
next_bit r = high_bit (if r.buf_bits == 0 then fetch_byte r.src r.buf else some r)

-- limit[l] != -1 && v <= limit[l]
unfoldable pub within : Option ℕ → ℕ → Bool
within none v = false
within (some limit) v = leb v limit

-- perm[offset[l] + (int)(v - base[l])]; alpha_size, which is no symbol, stands for a read outside.
unfoldable pub symbol_at : HuffDecTable → ℕ → ℕ → ℕ
symbol_at t l v = get_or t.perm (t.offset l + (v + 2 ^ 32 - t.base l) % 2 ^ 32) t.alpha_size

-- The loop over the lengths from l on, k of them, with v the bits so far.
unfoldable pub decode_from : HuffDecTable → ℕ → ℕ → ℕ → Parser ℕ
decode_from t zero l v = refuse
decode_from t (suc k) l v = bind next_bit (λ bit.
    let v' = bit_or (v * 2 % 2 ^ 32) bit in
    if within (t.limit l) v' then give (symbol_at t l v') else decode_from t k (suc l) v')

unfoldable pub decode_slow : HuffDecTable → Parser ℕ
decode_slow t = decode_from t t.max_len 1 0

-- By the entry of the ten bits `peek`.
unfoldable pub decode_entry : HuffDecTable → FastEntry → ℕ → Parser ℕ
decode_entry t (some (sym, len)) peek r = some (sym, record r { buf_bits = r.buf_bits - len })
decode_entry t none peek r =
    decode_from t (t.max_len - huff_fast_bits) (suc huff_fast_bits) peek
      (record r { buf_bits = r.buf_bits - huff_fast_bits })

unfoldable pub decode_sym : HuffDecTable → Parser ℕ
decode_sym t r =
    let peek = r.buf / 2 ^ (r.buf_bits - huff_fast_bits) % 2 ^ huff_fast_bits in
    if leb huff_fast_bits r.buf_bits
    then decode_entry t (get_or t.fast_table peek none) peek r
    else decode_slow t r

-- The copy that the block decoder inlines.
unfoldable pub decode_sym_hot : HuffDecTable → Parser ℕ
decode_sym_hot t = decode_sym t
