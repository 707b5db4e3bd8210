-- ===== src/Lzw/Tests.antt =====
-- Runs of src/lzw on small inputs, and the theorem at a concrete input.
use orot.Base.{
  ℕ, zero, suc, ◌+◌, ◌≤◌, ◌≡◌, refl, List, [], ◌∷◌, Outcome, done, fails, stuck, arith, length,
  true,
}
use orot.Lzw.BitStream.{drain, write, flush, fill, read}
use orot.Lzw.Compress.{
  Error, malformed, hash_slot, find_slot, add_entry, encode_byte, encode_bytes, end_stream, finish,
  start, encode, best_period, agrees, lzw_compress, lzw_compress_fixed12,
}
use orot.Lzw.Decompress.{
  Entry, roots, replicate_byte, walk, emit_code, widen, emit_string, new_entry, decode_code,
  decode_codes, read_codes, lzw_decompress,
}
use orot.Lzw
use orot.Lzw.Periodic.{lzw_decompress-lzw_compress_periodic}

abbrev stale : ℕ → Entry
stale i = record { prefix = 1; suffix = 2; first = 3; repeated = true; len = 4 }

abbrev ababab : List ℕ
ababab = 97 ∷ 98 ∷ 97 ∷ 98 ∷ 97 ∷ 98 ∷ 97 ∷ []

-- The codes 256, 97, 98, 258, 260, 257 of 9 bits.
abbrev packed : List ℕ
packed = 9 ∷ 0 ∷ 195 ∷ 136 ∷ 17 ∷ 72 ∷ 48 ∷ 32 ∷ []

packed_run : lzw_compress (λ i. 5) 9 100 ababab ≡ done packed
unfolding lzw_compress lzw_compress_fixed12 encode encode_bytes encode_byte add_entry end_stream
    finish start find_slot hash_slot write drain flush best_period agrees
packed_run = refl

unpacked_run : lzw_decompress stale 7 packed ≡ done ababab
unfolding lzw_decompress read_codes decode_codes decode_code emit_string emit_code walk
    replicate_byte roots widen new_entry Lzw.Decompress.add_entry read fill
unpacked_run = refl

abbrev zeros : List ℕ
unfolding replicate_byte
zeros = replicate_byte 4096 0

zeros-long : 4096 ≤ length zeros
unfolding replicate_byte
zeros-long = omega arith

zeros-period : best_period 16 1 zeros ≡ 1
unfolding replicate_byte best_period agrees
zeros-period = refl

lzw_decompress-lzw_compress_periodic_example :
    (bytes : List ℕ) × (lzw_compress (λ i. 5) 12 300 zeros ≡ done bytes)
    × (length bytes ≡ best_period 16 1 zeros + 7)
    × (lzw_decompress stale 5000 bytes ≡ done zeros)
unfolding replicate_byte
lzw_decompress-lzw_compress_periodic_example =
    lzw_decompress-lzw_compress_periodic (λ i. 5) stale 300 5000 zeros zeros-long (omega arith)
      (omega (arith, zeros-period)) (omega (arith, zeros-period)) (omega arith)

abbrev count_up : ℕ → ℕ → List ℕ
count_up zero b = []
count_up (suc n) b = b ∷ count_up n (b + 1)

abbrev round_trip : ℕ → List ℕ → Outcome Error (List ℕ)
round_trip max_bits src = elim (lzw_compress (λ i. 5) max_bits 1000 src) [
  | fails e ↦ fails e
  | stuck ↦ stuck
  | done bytes ↦ lzw_decompress stale 1000 bytes
]

-- The width of the last code differs when the dictionary has grown to 511 codes.
width_run : round_trip 10 (count_up 254 0) ≡ fails malformed
unfolding lzw_compress lzw_compress_fixed12 encode encode_bytes encode_byte add_entry end_stream
    finish start find_slot hash_slot write drain flush best_period agrees lzw_decompress read_codes
    decode_codes decode_code emit_string emit_code walk replicate_byte roots widen new_entry
    Lzw.Decompress.add_entry read fill
width_run = refl

-- One byte fewer comes back.
width_run_before : round_trip 10 (count_up 253 0) ≡ done (count_up 253 0)
unfolding lzw_compress lzw_compress_fixed12 encode encode_bytes encode_byte add_entry end_stream
    finish start find_slot hash_slot write drain flush best_period agrees lzw_decompress read_codes
    decode_codes decode_code emit_string emit_code walk replicate_byte roots widen new_entry
    Lzw.Decompress.add_entry read fill
width_run_before = refl
