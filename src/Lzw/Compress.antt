-- ===== src/Lzw/Compress.antt =====
-- src/lzw/lzw_block.cpp, lzw_compress and lzw_compress_fixed12.
-- Both encoders are `encode`: in the fixed-width one a code starts with its widest width, so that
-- the width never grows.
use orot.Base.{
  ℕ, zero, suc, ◌+◌, ◌-◌, ◌*◌, ◌/◌, ◌%◌, ◌^◌, bit_or, Bool, true, false, ◌&&◌, ◌||◌, List, [], ◌∷◌,
  ◌++◌, Option, none, some, Outcome, done, fails, stuck, length, take, drop, ltb, leb, ◌==◌,
  if◌then◌else◌, update,
}
use orot.Lzw.BitStream.{Writer, write, flush}

-- Of the compressor, -1 is `too_small` and -2 is `bad_config`; of the decompressor, -1 is
-- `malformed` and -2 is `too_small`.
pub data Error : Type 0 where
  malformed too_small bad_config : Error

abbrev pub min_bits : ℕ
min_bits = 9

abbrev pub max_bits_limit : ℕ
max_bits_limit = 16

abbrev pub def_bits : ℕ
def_bits = 12

abbrev pub clear_code : ℕ
clear_code = 256

abbrev pub eoi_code : ℕ
eoi_code = 257

abbrev pub first_code : ℕ
first_code = 258

abbrev pub fixed12_marker : ℕ
fixed12_marker = 0x8C

abbrev pub stored12_marker : ℕ
stored12_marker = 0x4C

abbrev pub periodic12_marker : ℕ
periodic12_marker = 0x2C

abbrev pub no_key : ℕ
no_key = 0xFFFFFFFF

unfoldable pub lzw_compress_bound : ℕ → ℕ
lzw_compress_bound src_len = if src_len == 0 then 64 else 1 + src_len * 2 + 64

unfoldable pub hash_slot : ℕ → ℕ → ℕ
hash_slot key hash_bits = key * 2654435761 % 2 ^ 32 / 2 ^ (32 - hash_bits)

-- The probe for a key: the slot that holds it or is free. The fuel is the number of slots.
unfoldable pub find_slot : ℕ → ℕ → (ℕ → ℕ) → ℕ → ℕ → Option ℕ
find_slot zero size keys key h = none
find_slot (suc fuel) size keys key h =
    let rest = find_slot fuel size keys key ((h + 1) % size) in
    if keys h == no_key || keys h == key then some h else rest

pub record Encoder : Type 0 where
  pub writer : Writer
  pub keys : ℕ → ℕ
  pub codes : ℕ → ℕ
  pub next_code : ℕ
  pub code_bits : ℕ
  pub prefix : ℕ

module _ (start_bits max_bits room : ℕ) where
  -- Behind the code of a prefix: the pair enters the dictionary, or the dictionary is cleared.
  unfoldable pub add_entry : ℕ → ℕ → ℕ → Encoder → Outcome Error Encoder
  add_entry h key ch s =
      let next = s.next_code + 1 in
      let wider = next == 2 ^ s.code_bits && ltb s.code_bits max_bits in
      if ltb s.next_code (2 ^ max_bits)
      then done (record {
        writer = s.writer;
        keys = update s.keys h key;
        codes = update s.codes h s.next_code;
        next_code = next;
        code_bits = if wider then s.code_bits + 1 else s.code_bits;
        prefix = ch;
      })
      else elim (write room clear_code s.code_bits s.writer) [
        | none ↦ fails too_small
        | some w ↦ done (record {
          writer = w;
          keys = λ i. no_key;
          codes = s.codes;
          next_code = first_code;
          code_bits = start_bits;
          prefix = ch;
        })
      ]

  -- One byte of the source.
  unfoldable pub encode_byte : ℕ → Encoder → Outcome Error Encoder
  encode_byte ch s =
      let key = bit_or (s.prefix * 2 ^ 8) ch in
      elim (find_slot (2 ^ (max_bits + 1)) (2 ^ (max_bits + 1)) s.keys key
        (hash_slot key (max_bits + 1))) [
          | none ↦ stuck
          | some h ↦
              let missing : Outcome Error Encoder =
                elim (write room s.prefix s.code_bits s.writer) [
                  | none ↦ fails too_small
                  | some w ↦ add_entry h key ch (record s { writer = w })
                ] in
              if s.keys h == key then done (record s { prefix = s.codes h }) else missing
        ]

  unfoldable pub encode_bytes : List ℕ → Encoder → Outcome Error Encoder
  encode_bytes [] s = done s
  encode_bytes (ch ∷ src) s = elim (encode_byte ch s) [
    | fails e ↦ fails e
    | stuck ↦ stuck
    | done s' ↦ encode_bytes src s'
  ]

  -- The end-of-information code, and the last bits.
  unfoldable pub end_stream : ℕ → Writer → Outcome Error (List ℕ)
  end_stream width w = elim (write room eoi_code width w) [
    | none ↦ fails too_small
    | some w' ↦ elim (flush room w') [ none ↦ fails too_small | some out ↦ done out ]
  ]

  -- The last prefix.
  unfoldable pub finish : Encoder → Outcome Error (List ℕ)
  finish s = elim (write room s.prefix s.code_bits s.writer) [
    | none ↦ fails too_small
    | some w ↦ end_stream s.code_bits w
  ]

  unfoldable pub start : Writer → (ℕ → ℕ) → ℕ → Encoder
  start w codes first = record {
    writer = w;
    keys = λ i. no_key;
    codes = codes;
    next_code = first_code;
    code_bits = start_bits;
    prefix = first;
  }

  -- From the clear code on. `codes` is what the table of codes held.
  unfoldable pub encode : (ℕ → ℕ) → ℕ → List ℕ → Outcome Error (List ℕ)
  encode codes marker src =
      elim (write room clear_code start_bits (record { out = marker ∷ []; buf = 0; bits = 0 })) [
        | none ↦ fails too_small
        | some w ↦ elim src [
          | [] ↦ end_stream start_bits w
          | first ∷ rest ↦ elim (encode_bytes rest (start w codes first)) [
            | fails e ↦ fails e
            | stuck ↦ stuck
            | done s ↦ finish s
          ]
        ]
      ]

-- src[i] == src[i - period] for the bytes of the first list, which starts `period` further.
unfoldable pub agrees : List ℕ → List ℕ → Bool
agrees [] src = true
agrees (b ∷ later) [] = false
agrees (b ∷ later) (a ∷ src) = b == a && agrees later src

-- The smallest period of at most 16 bytes from `period` on, or 256, or 0 for none.
unfoldable pub best_period : ℕ → ℕ → List ℕ → ℕ
best_period zero period src = if agrees (drop 256 src) src then 256 else 0
best_period (suc left) period src =
    let rest = best_period left (period + 1) src in
    if agrees (drop period src) src then period else rest

unfoldable pub count_distinct : List ℕ → (ℕ → Bool) → ℕ
count_distinct [] seen = 0
count_distinct (b ∷ sample) seen =
    let rest = count_distinct sample (λ i. if i == b then true else seen i) in
    if seen b then rest else rest + 1

unfoldable pub periodic_hits : List ℕ → List ℕ → ℕ
periodic_hits (b ∷ later) (a ∷ sample) =
    let rest = periodic_hits later sample in if a == b then rest + 1 else rest
periodic_hits _ _ = 0

unfoldable pub le32 : ℕ → List ℕ
le32 n = (n % 256) ∷ (n / 2 ^ 8 % 256) ∷ (n / 2 ^ 16 % 256) ∷ (n / 2 ^ 24 % 256) ∷ []

-- Whether the first 8192 bytes look random.
unfoldable pub looks_random : List ℕ → Bool
looks_random src =
    let sample = take 8192 src in
    let checks = length (drop 256 sample) in
    ltb 200 (count_distinct sample (λ b. false))
    && (checks == 0 || ltb (periodic_hits (drop 256 sample) sample * 4) checks)

unfoldable pub write_periodic : ℕ → ℕ → List ℕ → Outcome Error (List ℕ)
write_periodic room period src =
    if ltb room (period + 7)
    then fails too_small
    else done (
        periodic12_marker
        ∷ (le32 (length src) ++ ((period % 256) ∷ (period / 256 % 256) ∷ take period src)))

unfoldable pub write_stored : ℕ → List ℕ → Outcome Error (List ℕ)
write_stored room src =
    if ltb room (length src + 5)
    then fails too_small
    else done (stored12_marker ∷ (le32 (length src) ++ src))

unfoldable pub lzw_compress_fixed12 : (ℕ → ℕ) → ℕ → List ℕ → Outcome Error (List ℕ)
lzw_compress_fixed12 codes room src =
    let period = best_period 16 1 src in
    if ltb room 2
    then fails too_small
    else if leb 4096 (length src) && ltb 0 period
    then write_periodic room period src
    else if leb 4096 (length src) && looks_random src
    then write_stored room src
    else encode 12 12 room codes fixed12_marker src

unfoldable pub lzw_compress : (ℕ → ℕ) → ℕ → ℕ → List ℕ → Outcome Error (List ℕ)
lzw_compress codes max_bits room src =
    if ltb max_bits min_bits || ltb max_bits_limit max_bits
    then fails bad_config
    else if ltb room 2
    then fails too_small
    else if max_bits == def_bits
    then lzw_compress_fixed12 codes room src
    else encode min_bits max_bits room codes (max_bits % 256) src
