-- ===== src/Bzip2/Header.antt =====
-- The header of a block: what compress_block of src/bzip2/bzip2_compress.cpp writes before the
-- symbols, and the first part of decode_block in src/bzip2/bzip2_decompress.cpp.
pub mod Takes
pub mod InUse
pub mod Selectors
pub mod Lengths
pub mod RoundTrip
use orot.Base.{
  ℕ, zero, suc, ◌+◌, ◌-◌, ◌*◌, ◌/◌, ◌%◌, ◌^◌, bit_or, List, [], ◌∷◌, ◌++◌, Bool, true, false, not,
  ◌||◌, Option, none, some, ltb, leb, ◌==◌, if◌then◌else◌, length, take, drop, get_or, set,
  replicate,
}
use orot.Bzip2.Mtf.{find_rank, move_to_front}
use orot.Bzip2.Rle2.{shift_up}
use orot.Bzip2.BitStream.{Reader, read_bits}

-- What the header says; `lens` has the code lengths of each table.
pub record Header : Type 0 where
  pub crc : ℕ
  pub primary : ℕ
  pub in_use : List Bool
  pub n_tables : ℕ
  pub selectors : List ℕ
  pub lens : List (List ℕ)

abbrev pub any_of : List Bool → Bool
any_of [] = false
any_of (b ∷ flags) = b || any_of flags

abbrev pub count_flags : List Bool → ℕ
count_flags [] = 0
count_flags (b ∷ flags) = (if b then 1 else 0) + count_flags flags

-- word |= 1 << (15 - j) for each flag that is set: the shift is the number of the flags behind it.
unfoldable pub flag_word : List Bool → ℕ → ℕ
flag_word [] word = word
flag_word (b ∷ flags) word = flag_word flags (if b then bit_or word (2 ^ length flags) else word)

-- The groups of 16 that have a byte in use, and the words of those.
unfoldable pub coarse_flags : ℕ → List Bool → List Bool
coarse_flags zero in_use = []
coarse_flags (suc n) in_use = any_of (take 16 in_use) ∷ coarse_flags n (drop 16 in_use)

unfoldable pub fine_fields : ℕ → List Bool → List (ℕ × ℕ)
fine_fields zero in_use = []
fine_fields (suc n) in_use =
    (if any_of (take 16 in_use) then (16, flag_word (take 16 in_use) 0) ∷ [] else [])
    ++ fine_fields n (drop 16 in_use)

unfoldable pub map_fields : List Bool → List (ℕ × ℕ)
map_fields in_use = (16, flag_word (coarse_flags 16 in_use) 0) ∷ fine_fields 16 in_use

-- selector_mtf_encode.
unfoldable pub selector_mtf_encode : List ℕ → List ℕ → List ℕ
selector_mtf_encode [] order = []
selector_mtf_encode (tbl ∷ sel) order =
    let pos = find_rank order tbl 0 in pos ∷ selector_mtf_encode sel (move_to_front order pos tbl)

-- m ones followed by a zero.
unfoldable pub selector_fields : List ℕ → List (ℕ × ℕ)
selector_fields [] = []
selector_fields (m ∷ mtf_sel) = replicate m (1, 1) ++ ((1, 0) ∷ selector_fields mtf_sel)

-- From the length `cur` to the next one: +1, -1, done.
unfoldable pub delta_fields : ℕ → ℕ → List (ℕ × ℕ)
delta_fields cur target =
    replicate (target - cur) (2, 2) ++ (replicate (cur - target) (2, 3) ++ ((1, 0) ∷ []))

unfoldable pub length_fields : ℕ → List ℕ → List (ℕ × ℕ)
length_fields cur [] = []
length_fields cur (target ∷ len) = delta_fields cur target ++ length_fields target len

unfoldable pub table_fields : List (List ℕ) → List (ℕ × ℕ)
table_fields [] = []
table_fields (len ∷ tables) =
    ((5, get_or len 0 0) ∷ length_fields (get_or len 0 0) len) ++ table_fields tables

-- The numbers 0 .. n - 1, from `i` on.
abbrev pub count_up : ℕ → ℕ → List ℕ
count_up zero i = []
count_up (suc n) i = i ∷ count_up n (i + 1)

-- The calls of write_bits: widths and values.
unfoldable pub header_fields : Header → List (ℕ × ℕ)
header_fields h =
    ((16, h.crc / 2 ^ 16) ∷ (16, h.crc % 2 ^ 16) ∷ (1, 0) ∷ (24, h.primary) ∷ map_fields h.in_use)
    ++ (((3, h.n_tables) ∷ (15, length h.selectors) ∷ [])
        ++ (selector_fields (selector_mtf_encode h.selectors (count_up h.n_tables 0))
            ++ table_fields h.lens))

-- A part of decode_block that reads; `none` is return false.
abbrev pub Parser : Type 0 → Type 0
Parser A = Reader → Option (A × Reader)

abbrev pub give : {A : Type 0} → A → Parser A
give a r = some (a, r)

abbrev pub refuse : {A : Type 0} → Parser A
refuse r = none

unfoldable pub and_then :
    {A B : Type 0} → Option (A × Reader) → (A → Parser B) → Option (B × Reader)
and_then none next = none
and_then (some (a, r)) next = next a r

abbrev pub bind : {A B : Type 0} → Parser A → (A → Parser B) → Parser B
bind p next r = and_then (p r) next

abbrev pub field : ℕ → Parser ℕ
field n r = read_bits r n

-- w & (1 << (15 - j)), for each of n flags.
unfoldable pub word_flags : ℕ → ℕ → List Bool
word_flags zero w = []
word_flags (suc n) w = (w / 2 ^ n % 2 == 1) ∷ word_flags n w

unfoldable pub read_groups : List Bool → Parser (List Bool)
read_groups [] = give []
read_groups (b ∷ coarse) =
    if b
    then bind (field 16)
        (λ fine. bind (read_groups coarse) (λ rest. give (word_flags 16 fine ++ rest)))
    else bind (read_groups coarse) (λ rest. give (replicate 16 false ++ rest))

-- The ones before a zero, fewer than n_tables.
unfoldable pub read_unary : ℕ → ℕ → ℕ → Parser ℕ
read_unary zero n_tables pos = refuse
read_unary (suc fuel) n_tables pos = bind (field 1) (λ b.
    if b == 0
    then give pos
    else if leb n_tables (pos + 1)
    then refuse
    else read_unary fuel n_tables (pos + 1))

unfoldable pub read_selectors : ℕ → ℕ → List ℕ → Parser (List ℕ)
read_selectors zero n_tables order = give []
read_selectors (suc n_selectors) n_tables order = bind (read_unary n_tables n_tables 0) (λ pos.
    let tbl = get_or order pos 0 in
    bind (read_selectors n_selectors n_tables (set (shift_up pos order) 0 tbl))
      (λ rest. give (tbl ∷ rest)))

-- The steps of one length, each of which takes two bits.
unfoldable pub read_length : ℕ → ℕ → Parser ℕ
read_length zero cur = refuse
read_length (suc fuel) cur = bind (field 1) (λ b.
    if b == 0
    then give cur
    else bind (field 1) (λ dir.
      if dir == 0
      then read_length fuel (if ltb cur 20 then cur + 1 else cur)
      else read_length fuel (if ltb 1 cur then cur - 1 else cur)))

unfoldable pub bits_left : Reader → ℕ
bits_left r = r.buf_bits + 8 * length r.src

-- The loop of one length, with more fuel than there are bits.
unfoldable pub next_length : ℕ → Parser ℕ
next_length cur r = read_length (suc (bits_left r)) cur r

unfoldable pub read_lengths : ℕ → ℕ → Parser (List ℕ)
read_lengths zero cur = give []
read_lengths (suc alpha_size) cur =
    bind (next_length cur) (λ len. bind (read_lengths alpha_size len) (λ rest. give (len ∷ rest)))

unfoldable pub read_tables : ℕ → ℕ → Parser (List (List ℕ))
read_tables zero alpha_size = give []
read_tables (suc n) alpha_size = bind (field 5) (λ cur.
    bind (read_lengths alpha_size cur)
      (λ len. bind (read_tables n alpha_size) (λ rest. give (len ∷ rest))))

-- BZ_MAX_SELECTORS, the size of the array `selectors`.
abbrev pub max_selectors : ℕ
max_selectors = 18002

-- From the number of tables on. Of more selectors than the array holds, decode_block refuses one, or
-- writes behind the array: `none` here stands for either.
unfoldable pub read_coding : ℕ → ℕ → List Bool → Parser Header
read_coding crc primary in_use = bind (field 3) (λ n_tables. bind (field 15) (λ n_selectors.
    if ltb n_tables 2 || ltb 6 n_tables || ltb max_selectors n_selectors
    then refuse
    else bind (read_selectors n_selectors n_tables (count_up n_tables 0)) (λ selectors.
      bind (read_tables n_tables (count_flags in_use + 2)) (λ lens. give (record {
        crc = crc;
        primary = primary;
        in_use = in_use;
        n_tables = n_tables;
        selectors = selectors;
        lens = lens;
      })))))

unfoldable pub decode_header : Parser Header
decode_header = bind (field 16) (λ hi. bind (field 16) (λ lo. bind (field 1) (λ rnd.
    if not (rnd == 0)
    then refuse
    else bind (field 24) (λ primary. bind (field 16) (λ coarse.
      bind (read_groups (word_flags 16 coarse)) (λ in_use.
        if count_flags in_use == 0
        then refuse
        else read_coding (bit_or (hi * 2 ^ 16) lo) primary in_use))))))
