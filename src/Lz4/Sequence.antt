-- ===== src/Lz4/Sequence.antt =====
-- The bytes of one sequence: what emit_sequence writes, and that the decoder takes them apart.
use orot.Base.{
  ◌^◌, ℕ, ◌+◌, ◌-◌, ◌*◌, ◌/◌, ◌%◌, ◌≤◌, ◌<◌, ◌≡◌, ◌⊎◌, bit_or, List, [], ◌∷◌, ◌++◌, Option, some,
  none, inl, inr, arith, leb, ◌==◌, length, if◌then◌else◌, Bool-cases, length-append, append_assoc,
  append-nil, take-append, drop-append, take-length, drop-length, done,
}
use orot.Base.Bits.{bit_or_low}
use orot.Lz4.Block.{
  write_varint_extra, varint_extra_size, literal_nibble, match_nibble, emit_match, emit_literals,
  emit_sequence, int_sum, read_length, decode_match, decode_offset, decode_sequence, last, next,
  copy_match, min_match,
}
use orot.Lz4.Length.{read_varint_extra-write_varint_extra, length-write_varint_extra}

-- The parts of a sequence, by the block format.
unfoldable pub extra_bytes : ℕ → List ℕ
extra_bytes n = if leb 15 n then write_varint_extra (n - 15) else []

unfoldable pub match_bytes : ℕ → ℕ → List ℕ
match_bytes match_len offset =
    (offset % 256) ∷ (offset / 256 % 256) ∷ extra_bytes (match_len - min_match)

unfoldable pub tail_bytes : ℕ → ℕ → List ℕ
tail_bytes match_len offset = if match_len == 0 then [] else match_bytes match_len offset

unfoldable pub sequence_bytes : List ℕ → ℕ → ℕ → List ℕ
sequence_bytes lits match_len offset =
    bit_or (literal_nibble (length lits) * 16) (match_nibble match_len)
    ∷ (extra_bytes (length lits) ++ (lits ++ tail_bytes match_len offset))

-- `out` with `bytes` behind it, if they fit.
abbrev pub append_if_fits : ℕ → List ℕ → List ℕ → Option (List ℕ)
append_if_fits room out bytes =
    if leb (length out + length bytes) room then some (out ++ bytes) else none

emit_match_lem :
    (room : ℕ) (out : List ℕ) (match_len offset : ℕ)
    → 4 ≤ match_len
    → emit_match room out (match_nibble match_len) match_len offset
      ≡ append_if_fits room out (match_bytes match_len offset)
unfolding emit_match match_nibble match_bytes extra_bytes varint_extra_size
emit_match_lem room out match_len offset h = ground (
  arith,
  length-append out ((offset % 256) ∷ (offset / 256 % 256) ∷ []),
  length-write_varint_extra (match_len - 4 - 15),
  append_assoc out ((offset % 256) ∷ (offset / 256 % 256) ∷ [])
      (write_varint_extra (match_len - 4 - 15)),
)

emit_literals_lem :
    (room : ℕ) (out lits : List ℕ) (match_len offset : ℕ)
    → (match_len ≡ 0) ⊎ (4 ≤ match_len)
    → length out ≤ room
    → emit_literals room out lits (match_nibble match_len) match_len offset
      ≡ append_if_fits room out (lits ++ tail_bytes match_len offset)
unfolding tail_bytes emit_literals
emit_literals_lem room out lits match_len offset h fits = ground (
  arith,
  emit_match_lem room (out ++ lits) match_len offset,
  length-append out lits,
  length-append lits (match_bytes match_len offset),
  append_assoc out lits (match_bytes match_len offset),
  append-nil lits,
)

-- For a match length of 0 or at least 4, emit_sequence appends the bytes of the sequence exactly if
-- all of them fit in the room, and fails otherwise.
pub emit_sequence-sequence_bytes :
    (room : ℕ) (out lits : List ℕ) (match_len offset : ℕ)
    → (match_len ≡ 0) ⊎ (4 ≤ match_len)
    → emit_sequence room out lits match_len offset
      ≡ append_if_fits room out (sequence_bytes lits match_len offset)
unfolding emit_sequence sequence_bytes literal_nibble extra_bytes varint_extra_size
emit_sequence-sequence_bytes room out lits match_len offset h =
    elim (Bool-cases (leb 15 (length lits))) [
      | inl p ↦ rw p (
          ground (
            arith,
            length-append out (bit_or 240 (match_nibble match_len) ∷ []),
            length-append (out ++ (bit_or 240 (match_nibble match_len) ∷ [])) extra,
            length-write_varint_extra (length lits - 15),
            length-append extra rest,
            append_assoc out (bit_or 240 (match_nibble match_len) ∷ []) (extra ++ rest),
            append_assoc (out ++ (bit_or 240 (match_nibble match_len) ∷ [])) extra rest,
            emit_literals_lem room ((out ++ (bit_or 240 (match_nibble match_len) ∷ [])) ++ extra)
                lits match_len offset h,
          ))
      | inr p ↦ rw p (
          ground (
            arith,
            p,
            length-append out (bit_or (length lits * 16) (match_nibble match_len) ∷ []),
            append_assoc out (bit_or (length lits * 16) (match_nibble match_len) ∷ []) rest,
            emit_literals_lem room
                (out ++ (bit_or (length lits * 16) (match_nibble match_len) ∷ [])) lits match_len
                offset h,
          ))
    ]
  where
    extra : List ℕ
    extra = write_varint_extra (length lits - 15)

    rest : List ℕ
    rest = lits ++ tail_bytes match_len offset

read_length-extra_bytes :
    (n : ℕ) (rest : List ℕ)
    → n < 2 ^ 31
    → read_length (literal_nibble n) (extra_bytes n ++ rest) ≡ done (n, rest)
unfolding read_length extra_bytes literal_nibble int_sum
read_length-extra_bytes n rest small =
    ground (arith, read_varint_extra-write_varint_extra (n - 15) rest)

match_nibble_lem : (n : ℕ) → 4 ≤ n → match_nibble n ≡ literal_nibble (n - 4)
unfolding match_nibble literal_nibble
match_nibble_lem n h = ground arith

-- The token holds both nibbles.
token_nibbles :
    (lit_len match_len : ℕ)
    → (bit_or (literal_nibble lit_len * 16) (match_nibble match_len) / 16 % 16
        ≡ literal_nibble lit_len)
      × (bit_or (literal_nibble lit_len * 16) (match_nibble match_len) % 16
          ≡ match_nibble match_len)
      × (bit_or (literal_nibble lit_len * 16) (match_nibble match_len) < 256)
token_nibbles lit_len match_len =
    let small : match_nibble match_len < 16 = unfold match_nibble in ground arith in
    let small' : literal_nibble lit_len < 16 = unfold literal_nibble in ground arith in
    rw (bit_or_low 4 (literal_nibble lit_len) (match_nibble match_len) small)
      (omega arith, omega arith, omega arith)

decode_match_lem :
    (limit offset match_len : ℕ) (rest buf : List ℕ)
    → 4 ≤ match_len
    → offset ≤ length buf
    → length buf + match_len ≤ limit
    → match_len < 2 ^ 31
    → decode_match limit offset (match_nibble match_len) (extra_bytes (match_len - 4) ++ rest) buf
      ≡ done (next rest (copy_match offset match_len buf))
unfolding decode_match int_sum
decode_match_lem limit offset match_len rest buf h back fits short =
    rw
      (
        match_nibble_lem match_len h,
        decode_match,
        read_length-extra_bytes (match_len - 4) rest (omega arith),
      )
      (ground (arith, plus_four))
  where
    plus_four : match_len - 4 + 4 ≡ match_len
    plus_four = omega arith

decode_offset_lem :
    (limit offset match_len : ℕ) (rest buf : List ℕ)
    → 4 ≤ match_len
    → 1 ≤ offset
    → offset < 65536
    → offset ≤ length buf
    → length buf + match_len ≤ limit
    → match_len < 2 ^ 31
    → decode_offset limit (match_nibble match_len) (match_bytes match_len offset ++ rest) buf
      ≡ done (next rest (copy_match offset match_len buf))
unfolding decode_offset match_bytes
decode_offset_lem limit offset match_len rest buf h pos small back fits short =
    let e : offset % 256 + 256 * (offset / 256 % 256) ≡ offset = omega arith in
    rw e (ground (arith, decode_match_lem limit offset match_len rest buf h back fits short))

-- The decoder reads a sequence with a match, and leaves what stands behind it.
pub decode_sequence-match :
    (limit offset match_len : ℕ) (lits rest buf : List ℕ)
    → 4 ≤ match_len
    → 1 ≤ offset
    → offset < 65536
    → offset ≤ length buf + length lits
    → length buf + length lits + match_len ≤ limit
    → length lits < 2 ^ 31
    → match_len < 2 ^ 31
    → decode_sequence limit
        (bit_or (literal_nibble (length lits) * 16) (match_nibble match_len))
        (extra_bytes (length lits) ++ (lits ++ (match_bytes match_len offset ++ rest)))
        buf
      ≡ done (next rest (copy_match offset match_len (buf ++ lits)))
unfolding decode_sequence
decode_sequence-match limit offset match_len lits rest buf h pos small back fits few short =
    let t = token_nibbles (length lits) match_len in
    let behind = match_bytes match_len offset ++ rest in
    rw (decode_sequence, t.0, read_length-extra_bytes (length lits) (lits ++ behind) few, t.1)
      (rw (take-append lits behind, drop-append lits behind)
        (ground (
          arith,
          length-append lits behind,
          length-append buf lits,
          decode_offset_lem limit offset match_len rest (buf ++ lits) h pos small,
        )))

-- The decoder ends the block behind the literals of a sequence with no match.
pub decode_sequence_last :
    (limit : ℕ) (lits buf : List ℕ)
    → length buf + length lits ≤ limit
    → length lits < 2 ^ 31
    → decode_sequence limit
        (bit_or (literal_nibble (length lits) * 16) (match_nibble 0))
        (extra_bytes (length lits) ++ lits)
        buf
      ≡ done (last (buf ++ lits))
unfolding decode_sequence decode_offset
decode_sequence_last limit lits buf fits few =
    let t = token_nibbles (length lits) 0 in
    rw (decode_sequence, t.0, read_length-extra_bytes (length lits) lits few, t.1)
      (rw (take-length lits, drop-length lits) (ground arith))
