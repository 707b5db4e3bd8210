-- ===== src/Lzw/Decompress.antt =====
-- src/lzw/lzw_block.cpp, lzw_decompress.
use orot.Base.{
  ℕ, zero, suc, ◌+◌, ◌-◌, ◌*◌, ◌%◌, ◌^◌, Bool, true, false, not, ◌&&◌, ◌||◌, List, [], ◌∷◌, ◌++◌,
  Option, none, some, Outcome, done, fails, stuck, length, take, ltb, leb, ◌==◌, if◌then◌else◌,
}
use orot.Lzw.BitStream.{Reader, read}
use orot.Lzw.Compress.{
  Error, malformed, too_small, min_bits, max_bits_limit, clear_code, eoi_code, first_code,
  fixed12_marker, stored12_marker, periodic12_marker,
}

-- DecEntry.
pub record Entry : Type 0 where
  pub prefix : ℕ
  pub suffix : ℕ
  pub first : ℕ
  pub repeated : Bool
  pub len : ℕ

-- The roots of the table; the rest is what it held.
unfoldable pub roots : (ℕ → Entry) → ℕ → Entry
roots table i =
    if ltb i 256
    then record { prefix = 0xFFFF; suffix = i; first = i; repeated = true; len = 1 }
    else table i

unfoldable pub replicate_byte : ℕ → ℕ → List ℕ
replicate_byte zero b = []
replicate_byte (suc n) b = b ∷ replicate_byte n b

-- The string of a code, from its end; the fuel is the code, above which no prefix stands.
unfoldable pub walk : ℕ → (ℕ → Entry) → ℕ → List ℕ → List ℕ
walk zero table c acc = (c % 256) ∷ acc
walk (suc fuel) table c acc =
    let rest = walk fuel table (table c).prefix ((table c).suffix ∷ acc) in
    if leb 256 c then rest else (c % 256) ∷ acc

-- emit_code, on the output so far.
unfoldable pub emit_code : (ℕ → Entry) → ℕ → ℕ → List ℕ → Option (List ℕ)
emit_code table code dst_cap out =
    if ltb dst_cap (length out + (table code).len)
    then none
    else if (table code).repeated
    then some (out ++ replicate_byte (table code).len (table code).first)
    else some (out ++ walk code table code [])

pub record Decoder : Type 0 where
  pub reader : Reader
  pub table : ℕ → Entry
  pub next_code : ℕ
  pub code_bits : ℕ
  pub out : List ℕ
  pub prev_code : Option ℕ

-- The width before a code is read.
unfoldable pub widen : Bool → ℕ → ℕ → ℕ → ℕ
widen fixed12 max_bits next_code code_bits =
    if not fixed12 && (ltb code_bits max_bits && leb (2 ^ code_bits - 1) next_code)
    then code_bits + 1
    else code_bits

-- The output behind a code that is a string; `none` of prev_code is -1.
unfoldable pub emit_string : ℕ → ℕ → Decoder → Outcome Error (List ℕ)
emit_string dst_cap code s =
    if leb first_code code && code == s.next_code
    then elim s.prev_code [
      | none ↦ fails malformed
      | some prev ↦
          if ltb dst_cap (length s.out + (s.table prev).len + 1)
          then fails too_small
          else elim (emit_code s.table prev dst_cap s.out) [
            | none ↦ fails too_small
            | some out ↦ done (out ++ ((s.table prev).first ∷ []))
          ]
    ]
    else if ltb code 256
    then (if leb dst_cap (length s.out) then fails too_small else done (s.out ++ (code ∷ [])))
    else elim (emit_code s.table code dst_cap s.out) [
      | none ↦ fails too_small
      | some out ↦ done out
    ]

-- The new entry for a code behind a previous one.
unfoldable pub new_entry : (ℕ → Entry) → ℕ → ℕ → ℕ → Entry
new_entry table next_code prev code =
    let source = if leb first_code code && code == next_code then prev else code in
    record {
      prefix = prev;
      suffix = (table source).first;
      first = (table prev).first;
      repeated = (table prev).repeated && (table source).first == (table prev).first;
      len = ((table prev).len + 1) % 2 ^ 16;
    }

unfoldable pub add_entry : ℕ → ℕ → Decoder → Decoder
add_entry max_bits code s = elim s.prev_code [
  | none ↦ record s { prev_code = some code }
  | some prev ↦
      if ltb s.next_code (2 ^ max_bits)
      then record s {
        table =
            λ i. if i == s.next_code then new_entry s.table s.next_code prev code else s.table i;
        next_code = s.next_code + 1;
        prev_code = some code;
      }
      else record s { prev_code = some code }
]

-- One round, the code being read; `true` ends the stream.
unfoldable pub decode_code : Bool → ℕ → ℕ → ℕ → Decoder → Outcome Error (Bool × Decoder)
decode_code fixed12 max_bits dst_cap code s =
    let restarted = record s {
      next_code = first_code;
      code_bits = if fixed12 then 12 else min_bits;
      prev_code = none;
    } in
    let emitted : Outcome Error (Bool × Decoder) = elim (emit_string dst_cap code s) [
      | fails e ↦ fails e
      | stuck ↦ stuck
      | done out ↦ done (false, add_entry max_bits code (record s { out = out }))
    ] in
    if code == eoi_code
    then done (true, s)
    else if code == clear_code
    then done (false, restarted)
    else if ltb eoi_code code && ltb s.next_code code
    then fails malformed
    else emitted

-- The loop. Each round takes at least 9 bits; the fuel is more than the bits of the source.
unfoldable pub decode_codes : ℕ → Bool → ℕ → ℕ → Decoder → Outcome Error (List ℕ)
decode_codes zero fixed12 max_bits dst_cap s = stuck
decode_codes (suc fuel) fixed12 max_bits dst_cap s =
    let width = widen fixed12 max_bits s.next_code s.code_bits in
    elim (read width s.reader) [
      | none ↦ fails malformed
      | some (code, reader) ↦
          elim (decode_code fixed12 max_bits dst_cap code
            (record s { reader = reader; code_bits = width })) [
              | fails e ↦ fails e
              | stuck ↦ stuck
              | done (true, s') ↦ done s'.out
              | done (false, s') ↦ decode_codes fuel fixed12 max_bits dst_cap s'
            ]
    ]

unfoldable pub read_stored : ℕ → List ℕ → Outcome Error (List ℕ)
read_stored dst_cap (n0 ∷ n1 ∷ n2 ∷ n3 ∷ bytes) =
    let n = n0 + 2 ^ 8 * n1 + 2 ^ 16 * n2 + 2 ^ 24 * n3 in
    if ltb dst_cap n
    then fails too_small
    else if not (length bytes == n)
    then fails malformed
    else done bytes
read_stored dst_cap _ = fails malformed

-- The copies of a period, and the part of one; the fuel is more than `left`.
unfoldable pub repeat_period : ℕ → ℕ → List ℕ → List ℕ
repeat_period zero left bytes = []
repeat_period (suc fuel) left bytes =
    let rest = repeat_period fuel (left - length bytes) bytes in
    if leb (length bytes) left then bytes ++ rest else take left bytes

unfoldable pub read_periodic : ℕ → List ℕ → Outcome Error (List ℕ)
read_periodic dst_cap (n0 ∷ n1 ∷ n2 ∷ n3 ∷ p0 ∷ p1 ∷ bytes) =
    let n = n0 + 2 ^ 8 * n1 + 2 ^ 16 * n2 + 2 ^ 24 * n3 in
    let period = p0 + 2 ^ 8 * p1 in
    if period == 0 || ltb 256 period
    then fails malformed
    else if not (length bytes == period)
    then fails malformed
    else if ltb dst_cap n
    then fails too_small
    else done (repeat_period (suc n) n bytes)
read_periodic dst_cap _ = fails malformed

-- `table` is what the shared table held.
unfoldable pub read_codes : (ℕ → Entry) → ℕ → ℕ → List ℕ → Outcome Error (List ℕ)
read_codes table dst_cap marker src =
    let fixed12 = marker == fixed12_marker in
    let max_bits = if fixed12 then 12 else marker in
    let s : Decoder = record {
      reader = record { src = src; buf = 0; bits = 0 };
      table = roots table;
      next_code = first_code;
      code_bits = if fixed12 then 12 else min_bits;
      out = [];
      prev_code = none;
    } in
    if ltb max_bits min_bits || ltb max_bits_limit max_bits
    then fails malformed
    else decode_codes (suc (8 * length src)) fixed12 max_bits dst_cap s

unfoldable pub lzw_decompress : (ℕ → Entry) → ℕ → List ℕ → Outcome Error (List ℕ)
lzw_decompress table dst_cap (marker ∷ b ∷ src) =
    if marker == stored12_marker
    then read_stored dst_cap (b ∷ src)
    else if marker == periodic12_marker
    then read_periodic dst_cap (b ∷ src)
    else read_codes table dst_cap marker (b ∷ src)
lzw_decompress table dst_cap _ = fails malformed
