-- ===== src/Lz4/Tests.antt =====
-- Runs of the code of src/lz4 on small inputs, and the theorems at concrete inputs.
use orot.Base.{
  ℕ, ◌≤◌, ◌≡◌, refl, ◌⊎◌, inr, List, [], ◌∷◌, ◌++◌, some, done, fails, arith, length, All,
}
use orot.Lz4.Block.{
  Error, malformed, config_for_level, read_varint_extra, write_varint_extra, block_compress_bound,
  emit_sequence, copy_doubling, copy_match, read_length, decode_match, decode_offset,
  decode_sequence, decode_loop, block_decompress_with_prefix, block_decompress,
}
use orot.Lz4.Length.{read_varint_extra-write_varint_extra}
use orot.Lz4.Sequence.{append_if_fits, sequence_bytes, emit_sequence-sequence_bytes}
use orot.Lz4.Compress.{Tables, search_match}
use orot.Lz4.Match.{IsByte, IsFound, IsBounded, search_match-IsFound}
use orot.Lz4.Frame.{lz4f_compress_bound, lz4f_compress, lz4f_decompress}
use orot.Lz4.FrameRoundTrip.{lz4f_decompress-lz4f_compress}
use orot.Lz4.FrameSafety.{lz4f_decompress_total}
use orot.Lz4.XxHash.{
  reset, update_all, digest, xxh32, stripes, finish, avalanche, tail_words, tail_bytes, rotl,
}
use mathlib.Core.List.{flatten}
use orot.Lz4.HashStream.{digest-update_all}

abbrev no_tables : Tables
no_tables = record { head = λ h. 7; prev = λ k. 9 }

-- 24 bytes with a match.
abbrev text : List ℕ
text =
    1 ∷ 2 ∷ 3 ∷ 4 ∷ 5 ∷ 6 ∷ 1 ∷ 2 ∷ 3 ∷ 4 ∷ 5 ∷ 6 ∷ 1 ∷ 2 ∷ 3 ∷ 4 ∷ 5 ∷ 6 ∷ 1 ∷ 2 ∷ 3 ∷ 4 ∷ 5 ∷ 255
    ∷ []

text_bytes : All IsByte text
text_bytes = ground arith

xxh32_empty : xxh32 0 [] ≡ 0x02CC5D05
unfolding xxh32 stripes finish avalanche tail_words tail_bytes rotl
xxh32_empty = refl

-- A token with 1 literal and a match of 9 bytes, 1 back.
block_decompress_run :
    block_decompress 10 (0x15 ∷ 7 ∷ 1 ∷ 0 ∷ []) ≡ done (7 ∷ 7 ∷ 7 ∷ 7 ∷ 7 ∷ 7 ∷ 7 ∷ 7 ∷ 7 ∷ 7 ∷ [])
unfolding block_decompress block_decompress_with_prefix decode_loop decode_sequence decode_offset
    decode_match read_length copy_match copy_doubling
block_decompress_run = refl

-- An offset before the start of the output is refused.
block_decompress_refused : block_decompress 10 (0x15 ∷ 7 ∷ 2 ∷ 0 ∷ []) ≡ fails malformed
unfolding block_decompress block_decompress_with_prefix decode_loop decode_sequence decode_offset
    decode_match read_length copy_match copy_doubling
block_decompress_refused = refl

-- A frame of one stored block that claims five bytes and has two.
abbrev short_frame : List ℕ
short_frame = 0x04 ∷ 0x22 ∷ 0x4D ∷ 0x18 ∷ 0x60 ∷ 0x70 ∷ 0x73 ∷ 5 ∷ 0 ∷ 0 ∷ 0x80 ∷ 65 ∷ 66 ∷ []

lz4f_decompress_total_example :
    ((out : List ℕ) × (lz4f_decompress 8 short_frame ≡ done out) × (length out ≤ 8))
    ⊎ ((e : Error) × (lz4f_decompress 8 short_frame ≡ fails e))
lz4f_decompress_total_example = lz4f_decompress_total short_frame 8

digest-update_all_example :
    digest (update_all (reset 5) (text ∷ (1 ∷ []) ∷ text ∷ []))
    ≡ xxh32 5 (flatten (text ∷ (1 ∷ []) ∷ text ∷ []))
unfolding flatten
digest-update_all_example = digest-update_all 5 (text ∷ (1 ∷ []) ∷ text ∷ []) (omega arith)

emit_sequence-sequence_bytes_example :
    emit_sequence 9 (8 ∷ []) (1 ∷ 2 ∷ []) 300 5
    ≡ append_if_fits 9 (8 ∷ []) (sequence_bytes (1 ∷ 2 ∷ []) 300 5)
emit_sequence-sequence_bytes_example =
    emit_sequence-sequence_bytes 9 (8 ∷ []) (1 ∷ 2 ∷ []) 300 5 (inr (omega arith))

abbrev zero_tables : Tables
zero_tables = record { head = λ h. 0; prev = λ k. 0 }

zero_tables-IsBounded : IsBounded (config_for_level 9) text text_bytes 6 zero_tables
zero_tables-IsBounded = record { heads = λ h. omega arith; links = λ c k. omega arith }

search_match-IsFound_example :
    IsFound text 6 (search_match (config_for_level 9) text zero_tables 6 3)
search_match-IsFound_example =
    search_match-IsFound (config_for_level 9) text text_bytes zero_tables 6 3 (omega arith)
      (omega arith) zero_tables-IsBounded (omega arith)

read_varint_extra-write_varint_extra_example :
    read_varint_extra (write_varint_extra 600 ++ (7 ∷ [])) ≡ some (600, 7 ∷ [])
read_varint_extra-write_varint_extra_example = read_varint_extra-write_varint_extra 600 (7 ∷ [])

lz4f_decompress-lz4f_compress_example :
    (frame : List ℕ) × (lz4f_compress (λ n. no_tables) 9000000 1 text ≡ done frame)
    × (length frame ≤ 9000000)
    × (lz4f_decompress 24 frame ≡ done text)
unfolding lz4f_compress_bound block_compress_bound
lz4f_decompress-lz4f_compress_example =
    lz4f_decompress-lz4f_compress (λ n. no_tables) 1 text text_bytes (omega arith) 9000000 24
      (omega arith) (omega arith)
