-- ===== src/Bzip2/Symbols.antt =====
-- The Huffman coded symbols of a block: the last loop of compress_block in src/bzip2/bzip2_compress.cpp,
-- and in decode_block of src/bzip2/bzip2_decompress.cpp the tables and the front of the loop of phase 1,
-- which gives the symbols to Rle2. The table changes every 50 symbols.
pub mod Groups
pub mod RoundTrip
use orot.Base.{
  ℕ, zero, suc, ◌+◌, ◌-◌, ◌/◌, ◌%◌, List, [], ◌∷◌, Option, none, some, length, get_or, leb, ◌==◌,
  if◌then◌else◌,
}
use orot.Bzip2.BitStream.{Reader, refill}
use orot.Bzip2.Header.{Parser, give, refuse, bind, bits_left}
use orot.Bzip2.Huffman.{HuffDecTable, build_codes, build_table, build_from_lengths}
use orot.Bzip2.HuffmanDecode.{decode_sym_hot}

abbrev pub group_size : ℕ
group_size = 50

-- The fields of the symbols from the i-th on, with g the table in use; a table is its lengths.
unfoldable pub symbol_fields : List (List ℕ) → List ℕ → ℕ → ℕ → List ℕ → List (ℕ × ℕ)
symbol_fields tables selectors i g [] = []
symbol_fields tables selectors i g (sym ∷ syms) =
    let g' = if i % group_size == 0 then get_or selectors (i / group_size) 0 else g in
    let lens = get_or tables g' [] in
    (get_or lens sym 0, get_or (build_codes lens) sym 0)
    ∷ symbol_fields tables selectors (suc i) g' syms

unfoldable pub cons_table :
    Option HuffDecTable → Option (List HuffDecTable) → Option (List HuffDecTable)
cons_table none tables = none
cons_table (some t) none = none
cons_table (some t) (some tables) = some (t ∷ tables)

-- dec_tables, one after the other; `none` is a write behind a fast table.
unfoldable pub build_tables : List (List ℕ) → Option (List HuffDecTable)
build_tables [] = some []
build_tables (lens ∷ tables) = cons_table (build_from_lengths lens) (build_tables tables)

-- g and g_rem before a symbol is read; `none` is return false.
unfoldable pub next_group : ℕ → ℕ → ℕ → Option (ℕ × ℕ)
next_group n_selectors g g_rem =
    if g_rem == 0
    then (if leb n_selectors (g + 1) then none else some (g + 1, group_size))
    else some (g, g_rem)

abbrev pub no_table : HuffDecTable
no_table = build_table [] 0 []

unfoldable pub next_symbol : HuffDecTable → Parser ℕ
next_symbol t r = decode_sym_hot t (refill r)

-- A symbol of the group, and those behind it up to the end of the block.
unfoldable pub read_group :
    List HuffDecTable → List ℕ → ℕ → (ℕ → ℕ → Parser (List ℕ)) → Option (ℕ × ℕ) → Parser (List ℕ)
read_group tables selectors eob next none = refuse
read_group tables selectors eob next (some (g, g_rem)) =
    bind (next_symbol (get_or tables (get_or selectors g 0) no_table)) (λ sym.
      if sym == eob then give (sym ∷ []) else bind (next g (g_rem - 1)) (λ rest. give (sym ∷ rest)))

unfoldable pub read_symbols : List HuffDecTable → List ℕ → ℕ → ℕ → ℕ → ℕ → Parser (List ℕ)
read_symbols tables selectors eob zero g g_rem = refuse
read_symbols tables selectors eob (suc fuel) g g_rem =
    read_group tables selectors eob (read_symbols tables selectors eob fuel)
      (next_group (length selectors) g g_rem)

-- With more fuel than there are bits, of which each symbol takes one at least.
unfoldable pub read_block_symbols : List HuffDecTable → List ℕ → ℕ → Parser (List ℕ)
read_block_symbols tables selectors eob r =
    read_symbols tables selectors eob (suc (bits_left r)) 0 group_size r
