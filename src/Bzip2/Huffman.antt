-- ===== src/Bzip2/Huffman.antt =====
-- src/bzip2/bzip2_huffman.cpp but for the choice of the lengths: the canonical codes of the encoder,
-- and the tables of the decoder with decode_sym. The arrays that a length indexes are functions.
pub mod Canonical
pub mod Symbols
use orot.Base.{
  ℕ, zero, suc, ◌+◌, ◌-◌, ◌*◌, ◌/◌, ◌%◌, ◌^◌, bit_or, min, not, Bool, true, false, List, [], ◌∷◌,
  ◌++◌, Option, none, some, length, get_or, set, replicate, count, ltb, leb, ◌==◌, if◌then◌else◌,
  update,
}
use orot.Bzip2.BitStream.{Reader}
use orot.Bzip2.Header.{Parser, give, refuse, bind}

-- bl_count: how many symbols have a code of the length.
unfoldable pub bl_count : List ℕ → ℕ → ℕ
bl_count lens l = if l == 0 then 0 else count l lens

-- next_code before the second loop: the first code of each length.
unfoldable pub next_code : List ℕ → ℕ → ℕ
next_code lens zero = 0
next_code lens (suc l) = (next_code lens l + bl_count lens l) % 2 ^ 32 * 2 % 2 ^ 32

-- The second loop: code[i] = next_code[len[i]]++.
unfoldable pub assign_codes : (ℕ → ℕ) → List ℕ → List ℕ
assign_codes next [] = []
assign_codes next (l ∷ lens) =
    if l == 0
    then 0 ∷ assign_codes next lens
    else next l ∷ assign_codes (update next l ((next l + 1) % 2 ^ 32)) lens

unfoldable pub build_codes : List ℕ → List ℕ
build_codes lens = assign_codes (next_code lens) lens

-- An entry of fast_table: symbol and length, or `none` with sym = -1.
abbrev pub FastEntry : Type 0
FastEntry = Option (ℕ × ℕ)

pub record HuffDecTable : Type 0 where
  pub alpha_size : ℕ
  pub min_len : ℕ
  pub max_len : ℕ
  pub perm : List ℕ
  pub base : ℕ → ℕ
  pub limit : ℕ → Option ℕ
  pub offset : ℕ → ℕ
  pub fast_table : List FastEntry

abbrev pub huff_fast_bits : ℕ
huff_fast_bits = 10

unfoldable pub find_max_len : List ℕ → ℕ → ℕ
find_max_len [] longest = longest
find_max_len (l ∷ lens) longest = find_max_len lens (if ltb longest l then l else longest)

unfoldable pub find_min_len : List ℕ → ℕ → ℕ
find_min_len [] shortest = shortest
find_min_len (l ∷ lens) shortest =
    find_min_len lens (if l == 0 then shortest else if ltb l shortest then l else shortest)

-- c after the turn of each length, with bl_prev the count of the one before.
unfoldable pub base_of : List ℕ → ℕ → ℕ
base_of lens zero = 0
base_of lens (suc l) = (base_of lens l + bl_count lens l) % 2 ^ 32 * 2 % 2 ^ 32

-- `none` is (uint32_t)-1.
unfoldable pub limit_of : List ℕ → ℕ → Option ℕ
limit_of lens l =
    if bl_count lens l == 0 then none else some ((base_of lens l + bl_count lens l - 1) % 2 ^ 32)

-- The symbols from s on whose length is l.
unfoldable pub symbols_of : ℕ → ℕ → List ℕ → List ℕ
symbols_of l s [] = []
symbols_of l s (x ∷ lens) =
    let rest = symbols_of l (suc s) lens in if x == l then s ∷ rest else rest

-- perm[0..pidx) after the turns of the lengths from 1 to l.
unfoldable pub perm_of : List ℕ → ℕ → List ℕ
perm_of lens zero = []
perm_of lens (suc l) = perm_of lens l ++ symbols_of (suc l) 0 lens

-- pidx before the turn of length l.
unfoldable pub offset_of : List ℕ → ℕ → ℕ
offset_of lens l = length (perm_of lens (l - 1))

-- fast_table[idx + k] = e for the n values of k; `none` is a write behind the array.
unfoldable pub fill_entries : ℕ → ℕ → FastEntry → List FastEntry → Option (List FastEntry)
fill_entries zero idx e table = some table
fill_entries (suc n) idx e table =
    let rest = fill_entries n (suc idx) e (set table idx e) in
    if ltb idx (length table) then rest else none

unfoldable pub and_fill :
    Option (List FastEntry) → (List FastEntry → Option (List FastEntry)) → Option (List FastEntry)
and_fill none next = none
and_fill (some table) next = next table

-- The codes of one length from the j-th on, num of them.
unfoldable pub fill_codes : List ℕ → List ℕ → ℕ → ℕ → ℕ → List FastEntry → Option (List FastEntry)
fill_codes lens perm l zero j table = some table
fill_codes lens perm l (suc num) j table =
    let sym = get_or perm (offset_of lens l + j) 0 in
    let idx = (base_of lens l + j) * 2 ^ (huff_fast_bits - l) in
    and_fill (fill_entries (2 ^ (huff_fast_bits - l)) idx (some (sym, l)) table)
      (fill_codes lens perm l num (suc j))

-- The lengths from 1 to l.
unfoldable pub fill_lengths : List ℕ → List ℕ → ℕ → Option (List FastEntry)
fill_lengths lens perm zero = some (replicate (2 ^ huff_fast_bits) none)
fill_lengths lens perm (suc l) =
    and_fill (fill_lengths lens perm l) (fill_codes lens perm (suc l) (bl_count lens (suc l)) 0)

-- Without codes nothing is built, and the arrays keep what they had: here nothing.
unfoldable pub build_table : List ℕ → ℕ → List FastEntry → HuffDecTable
build_table lens longest fast = record {
  alpha_size = length lens;
  min_len = if longest == 0 then 0 else find_min_len lens 20;
  max_len = longest;
  perm = perm_of lens longest;
  base = base_of lens;
  limit = limit_of lens;
  offset = offset_of lens;
  fast_table = fast;
}

unfoldable pub with_table : List ℕ → ℕ → Option (List FastEntry) → Option HuffDecTable
with_table lens longest none = none
with_table lens longest (some fast) = some (build_table lens longest fast)

-- `none` is a write behind fast_table.
unfoldable pub build_from_lengths : List ℕ → Option HuffDecTable
build_from_lengths lens =
    let longest = find_max_len lens 0 in
    with_table lens longest (fill_lengths lens (perm_of lens longest) (min longest huff_fast_bits))
