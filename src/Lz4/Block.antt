-- ===== src/Lz4/Block.antt =====
-- src/lz4/lz4_block.cpp: level configuration, lengths beyond 15, sequences, and the decoder.
-- The bytes behind a read pointer and those written so far are lists; `room` is the capacity of `dst`.
use orot.Base.{
  ℕ, zero, suc, ◌+◌, ◌-◌, ◌*◌, ◌/◌, ◌%◌, ◌^◌, bit_or, Bool, ◌&&◌, true, false, List, [], ◌∷◌, ◌++◌,
  Option, none, some, Outcome, done, fails, stuck, length, take, drop, ltb, leb, ◌==◌,
  if◌then◌else◌,
}

-- The negative results: -1 is `malformed` (or, of the compressor, `too_small`), -2 is `too_small`,
-- and -3, which only a frame has, is `bad_checksum`.
pub data Error : Type 0 where
  malformed too_small bad_checksum : Error

abbrev pub min_match : ℕ
min_match = 4

abbrev pub last_lit : ℕ
last_lit = 5

abbrev pub last_match : ℕ
last_match = 12

pub record Config : Type 0 where
  pub fast_path : Bool
  pub max_chain : ℕ
  pub miss_limit : ℕ
  pub nice_len : ℕ

abbrev config : Bool → ℕ → ℕ → ℕ → Config
config fast chain miss nice = record {
  fast_path = fast;
  max_chain = chain;
  miss_limit = miss;
  nice_len = nice;
}

-- A level of 0 stands for all levels below 1.
unfoldable pub config_for_level : ℕ → Config
config_for_level level =
    if leb level 1
    then config true 0 3 16
    else if level == 2
    then config true 0 4 32
    else if level == 3
    then config true 0 5 64
    else if level == 4
    then config false 4 5 64
    else if level == 5
    then config false 8 6 128
    else if level == 6
    then config false 16 6 128
    else if level == 7
    then config false 32 7 256
    else if level == 8
    then config false 64 7 256
    else config false 128 8 258

-- The loop of write_varint_extra. The fuel is more than `extra`.
unfoldable pub write_extra : ℕ → ℕ → List ℕ
write_extra zero extra = []
write_extra (suc fuel) extra =
    let rest = write_extra fuel (extra - 255) in
    if leb 255 extra then 255 ∷ rest else (extra % 256) ∷ []

unfoldable pub write_varint_extra : ℕ → List ℕ
unfolding write_extra
write_varint_extra extra = write_extra (suc extra) extra

unfoldable pub varint_extra_size : ℕ → ℕ
varint_extra_size extra = extra / 255 + 1

-- The loop of read_varint_extra; the sum, and the input behind it. A byte is a uint8_t; the sum, an
-- int in the code, is the exact one, which read_length compares with the bound of an int.
unfoldable pub read_extra : ℕ → List ℕ → Option (ℕ × List ℕ)
read_extra sum [] = none
read_extra sum (b ∷ p) =
    let extra = sum + b % 256 in
    let rest = read_extra extra p in if b % 256 == 255 then rest else some (extra, p)

unfoldable pub read_varint_extra : List ℕ → Option (ℕ × List ℕ)
unfolding read_extra
read_varint_extra p = read_extra 0 p

unfoldable pub block_compress_bound : ℕ → ℕ
block_compress_bound src_len = if src_len == 0 then 16 else src_len + src_len / 255 + 16

-- What stands after the literals of a sequence with a match: the offset and the rest of the length.
unfoldable pub emit_match : ℕ → List ℕ → ℕ → ℕ → ℕ → Option (List ℕ)
unfolding varint_extra_size
emit_match room out match_nibble match_len match_offset =
    if ltb room (length out + 2)
    then none
    else let out' = out ++ ((match_offset % 256) ∷ (match_offset / 256 % 256) ∷ []) in
      if match_nibble == 15
      then (if ltb room (length out' + varint_extra_size (match_len - min_match - 15))
          then none
          else some (out' ++ write_varint_extra (match_len - min_match - 15)))
      else some out'

-- The literals, and what follows them.
unfoldable pub emit_literals : ℕ → List ℕ → List ℕ → ℕ → ℕ → ℕ → Option (List ℕ)
emit_literals room out lits match_nibble match_len match_offset =
    if ltb 0 (length lits) && ltb room (length out + length lits)
    then none
    else if match_len == 0
    then some (out ++ lits)
    else emit_match room (out ++ lits) match_nibble match_len match_offset

unfoldable pub literal_nibble : ℕ → ℕ
literal_nibble lit_len = if leb 15 lit_len then 15 else lit_len

unfoldable pub match_nibble : ℕ → ℕ
match_nibble match_len =
    if match_len == 0
    then 0
    else if leb 15 (match_len - min_match)
    then 15
    else match_len - min_match

-- emit_sequence: `out` with one more sequence, or `none` where it does not fit in `room` bytes.
unfoldable pub emit_sequence : ℕ → List ℕ → List ℕ → ℕ → ℕ → Option (List ℕ)
emit_sequence room out lits match_len match_offset =
    let lit_nibble = literal_nibble (length lits) in
    let nibble = match_nibble match_len in
    if leb room (length out)
    then none
    else let out' = out ++ (bit_or (lit_nibble * 16) nibble ∷ []) in
      if lit_nibble == 15
      then (if ltb room (length out' + varint_extra_size (length lits - 15))
          then none
          else emit_literals room (out' ++ write_varint_extra (length lits - 15)) lits nibble
              match_len match_offset)
      else emit_literals room out' lits nibble match_len match_offset

-- The doubling loop of an overlapping copy: `ref` indexes the buffer, and `chunk` bytes from there
-- are appended while they fit `left`. The fuel is more than `left`.
unfoldable pub copy_doubling : ℕ → ℕ → ℕ → ℕ → List ℕ → List ℕ
copy_doubling zero ref chunk left buf = buf
copy_doubling (suc fuel) ref chunk left buf =
    let rest =
      copy_doubling fuel ref (chunk + chunk) (left - chunk) (buf ++ take chunk (drop ref buf)) in
    if leb chunk left then rest else buf ++ take left (drop ref buf)

-- The copy of a match, `offset` back from the end of the buffer.
unfoldable pub copy_match : ℕ → ℕ → List ℕ → List ℕ
unfolding copy_doubling
copy_match offset match_len buf =
    let ref = length buf - offset in
    if leb match_len offset
    then buf ++ take match_len (drop ref buf)
    else copy_doubling (suc match_len) ref offset match_len buf

-- One round of the decoder ends the block, or goes on with the rest of the input.
pub data Step : Type 0 where
  last : List ℕ → Step
  next : List ℕ → List ℕ → Step

-- A sum of ints, none of them negative: beyond 2 ^ 31 - 1 its value is undefined, which is `stuck`.
unfoldable pub int_sum : {A : Type 0} → ℕ → Outcome Error A → Outcome Error A
int_sum sum rest = if leb (2 ^ 31) sum then stuck else rest

-- The extra bytes of a length whose nibble is 15. Where the input ends first, each of them was 255.
unfoldable pub read_length : ℕ → List ℕ → Outcome Error (ℕ × List ℕ)
unfolding int_sum
read_length nibble ip =
    if nibble == 15
    then elim (read_varint_extra ip) [
      | none ↦ int_sum (255 * length ip) (fails malformed)
      | some (extra, ip') ↦ int_sum (nibble + extra) (done (nibble + extra, ip'))
    ]
    else done (nibble, ip)

-- From behind the offset on.
unfoldable pub decode_match : ℕ → ℕ → ℕ → List ℕ → List ℕ → Outcome Error Step
decode_match limit offset nibble ip buf = elim (read_length nibble ip) [
  | fails e ↦ fails e
  | stuck ↦ stuck
  | done (len, ip') ↦
      let match_len = len + min_match in
      int_sum match_len (
        if ltb (length buf) offset
        then fails malformed
        else if ltb limit (length buf + match_len)
        then fails too_small
        else done (next ip' (copy_match offset match_len buf)))
]

-- From behind the literals on: the end of the block, or the offset.
unfoldable pub decode_offset : ℕ → ℕ → List ℕ → List ℕ → Outcome Error Step
decode_offset limit nibble [] buf = done (last buf)
decode_offset limit nibble (lo ∷ []) buf = fails malformed
decode_offset limit nibble (lo ∷ hi ∷ ip) buf =
    if lo + 256 * hi == 0 then fails malformed else decode_match limit (lo + 256 * hi) nibble ip buf

-- One round of the loop of lz4_block_decompress_with_prefix, the token being read. The buffer is
-- the prefix with what was produced so far, and `limit` the length that it may reach.
unfoldable pub decode_sequence : ℕ → ℕ → List ℕ → List ℕ → Outcome Error Step
decode_sequence limit token ip buf = elim (read_length (token / 16 % 16) ip) [
  | fails e ↦ fails e
  | stuck ↦ stuck
  | done (lit_len, ip') ↦
      if ltb limit (length buf + lit_len)
      then fails too_small
      else if ltb (length ip') lit_len
      then fails malformed
      else decode_offset limit (token % 16) (drop lit_len ip') (buf ++ take lit_len ip')
]

-- The loop. The fuel is at least the length of the input.
unfoldable pub decode_loop : ℕ → ℕ → List ℕ → List ℕ → Outcome Error (List ℕ)
decode_loop fuel limit [] buf = done buf
decode_loop zero limit (token ∷ ip) buf = stuck
decode_loop (suc fuel) limit (token ∷ ip) buf = elim (decode_sequence limit token ip buf) [
  | done (last buf') ↦ done buf'
  | done (next ip' buf') ↦ decode_loop fuel limit ip' buf'
  | fails e ↦ fails e
  | stuck ↦ stuck
]

-- The bytes produced behind the prefix.
abbrev pub produced : List ℕ → Outcome Error (List ℕ) → Outcome Error (List ℕ)
produced prefix (done buf) = done (drop (length prefix) buf)
produced prefix (fails e) = fails e
produced prefix stuck = stuck

unfoldable pub block_decompress_with_prefix : List ℕ → ℕ → List ℕ → Outcome Error (List ℕ)
block_decompress_with_prefix prefix dst_cap src =
    produced prefix (decode_loop (length src) (length prefix + dst_cap) src prefix)

unfoldable pub block_decompress : ℕ → List ℕ → Outcome Error (List ℕ)
unfolding block_decompress_with_prefix
block_decompress dst_cap src = block_decompress_with_prefix [] dst_cap src
