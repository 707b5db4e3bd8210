-- ===== src/Bzip2/Symbols/RoundTrip.antt =====
-- The symbols that compress_block of src/bzip2/bzip2_compress.cpp writes, decode_block of
-- src/bzip2/bzip2_decompress.cpp reads, through the changes of the table.
use orot.Base.{
  ℕ, zero, suc, ◌+◌, ◌-◌, ◌*◌, ◌≤◌, ◌<◌, ◌≡◌, refl, ap, List, [], ◌∷◌, ◌++◌, some, arith, length,
  length-append, get_or, All, ==_iff, ne-==,
}
use orot.Base.Digits.{bits, byte_bits, length-bits}
use orot.Bzip2.BitStream.{Reader}
use orot.Bzip2.BitStream.RoundTrip.{IsBytes, remaining}
use orot.Bzip2.BitStream.Fields.{field_bits}
use orot.Bzip2.Header.{bits_left}
use orot.Bzip2.Header.Lengths.{length-byte_bits}
use orot.Bzip2.Header.Takes.{Takes, Takes-give, Takes-bind, Takes-map}
use orot.Bzip2.Huffman.{HuffDecTable, build_codes}
use orot.Bzip2.HuffmanDecode.{decode_sym}
use orot.Bzip2.HuffmanDecode.Slow.{IsCoded}
use orot.Bzip2.Symbols.{
  symbol_fields, build_tables, no_table, next_symbol, read_group, read_symbols, read_block_symbols,
}
use orot.Bzip2.Symbols.Groups.{
  IsTable, IsStream, InStep, build_tables-Takes, next_symbol-Takes, next_group-InStep, get_or-All,
}

module _ (tables : List (List ℕ)) (selectors : List ℕ) (eob : ℕ) (ts : List HuffDecTable)
    (takes : (k i : ℕ)
      → k < length tables
      → IsCoded (get_or tables k []) i
      → Takes
          (decode_sym (get_or ts k no_table))
          (bits (get_or (get_or tables k []) i 0) (get_or (build_codes (get_or tables k [])) i 0))
          i)
    (chosen : All (λ k. k < length tables) selectors) where
  selected :
      (xs : List ℕ) (j : ℕ)
      → All (λ k. k < length tables) xs
      → j < length xs
      → get_or xs j 0 < length tables
  selected [] j h lt = absurd (omega (arith, lt))
  selected (x ∷ xs) zero h lt = h.0
  selected (x ∷ xs) (suc j) h lt = selected xs j h.1 (omega (arith, lt))

  -- One symbol in the table of its group.
  symbol-Takes :
      (g s : ℕ)
      → g < length selectors
      → All (λ lens. IsCoded lens s) tables
      → Takes
          (next_symbol (get_or ts (get_or selectors g 0) no_table))
          (bits
            (get_or (get_or tables (get_or selectors g 0) []) s 0)
            (get_or (build_codes (get_or tables (get_or selectors g 0) [])) s 0))
          s
  symbol-Takes g s inside coded =
      let k = get_or selectors g 0 in
      let lt = selected selectors g chosen inside in
      next_symbol-Takes (get_or ts k no_table) _ s
        (takes k s lt (get_or-All (λ lens. IsCoded lens s) tables k coded lt))

  read_symbols-Takes :
      (syms : List ℕ) (fuel i g_enc g g_rem : ℕ)
      → IsStream tables eob syms
      → length syms ≤ fuel
      → InStep selectors (length syms) i g_enc g g_rem
      → Takes
          (read_symbols ts selectors eob fuel g g_rem)
          (field_bits (symbol_fields tables selectors i g_enc syms))
          syms
  unfolding read_symbols read_group symbol_fields
  read_symbols-Takes [] fuel i g_enc g g_rem stream enough at = absurd stream
  read_symbols-Takes (s ∷ []) zero i g_enc g g_rem stream enough at = absurd (omega (arith, enough))
  read_symbols-Takes (s ∷ []) (suc fuel) i g_enc g g_rem stream enough at =
      let (g', rem, next, inside, same, at') = next_group-InStep selectors 0 i g_enc g g_rem at in
      rw (next, same)
        (Takes-bind (next_symbol (get_or ts (get_or selectors g' 0) no_table)) _ _ [] s (s ∷ [])
          (symbol-Takes g' s inside stream.1)
          (rw ((==_iff s eob).1 stream.0) (Takes-give (s ∷ []))))
  read_symbols-Takes (s ∷ t ∷ syms) zero i g_enc g g_rem stream enough at =
      absurd (omega (arith, enough))
  read_symbols-Takes (s ∷ t ∷ syms) (suc fuel) i g_enc g g_rem stream enough at =
      let (g', rem, next, inside, same, at') =
        next_group-InStep selectors (suc (length syms)) i g_enc g g_rem at in
      let e : suc rem - 1 ≡ rem = omega arith in
      let later =
        read_symbols-Takes (t ∷ syms) fuel (suc i) (get_or selectors g' 0) g' rem stream.2
          (omega (arith, enough)) at' in
      rw (next, same)
        (Takes-bind (next_symbol (get_or ts (get_or selectors g' 0) no_table)) _ _ _ s
          (s ∷ t ∷ syms) (symbol-Takes g' s inside stream.1)
          (rw (ne-== s eob stream.0, e) (Takes-map _ (λ rest. s ∷ rest) _ (t ∷ syms) later)))

  -- Each symbol has at least one bit.
  code-pos :
      (g s : ℕ) (behind : List ℕ)
      → g < length selectors
      → All (λ lens. IsCoded lens s) tables
      → suc (length behind)
        ≤ length (
            bits
              (get_or (get_or tables (get_or selectors g 0) []) s 0)
              (get_or (build_codes (get_or tables (get_or selectors g 0) [])) s 0)
            ++ behind)
  code-pos g s behind inside coded =
      let k = get_or selectors g 0 in
      let lens = get_or tables k [] in
      let c = get_or (build_codes lens) s 0 in
      let lt = selected selectors g chosen inside in
      let here = get_or-All (λ l. IsCoded l s) tables k coded lt in
      omega (
        arith,
        length-append (bits (get_or lens s 0) c) behind,
        length-bits (get_or lens s 0) c,
        here.1,
      )

  length-symbol_fields :
      (syms : List ℕ) (i g_enc g g_rem : ℕ)
      → IsStream tables eob syms
      → InStep selectors (length syms) i g_enc g g_rem
      → length syms ≤ length (field_bits (symbol_fields tables selectors i g_enc syms))
  unfolding symbol_fields
  length-symbol_fields [] i g_enc g g_rem stream at = absurd stream
  length-symbol_fields (s ∷ []) i g_enc g g_rem stream at =
      let (g', rem, next, inside, same, at') = next_group-InStep selectors 0 i g_enc g g_rem at in
      rw same (code-pos g' s [] inside stream.1)
  length-symbol_fields (s ∷ t ∷ syms) i g_enc g g_rem stream at =
      let (g', rem, next, inside, same, at') =
        next_group-InStep selectors (suc (length syms)) i g_enc g g_rem at in
      rw same (
        omega (
          arith,
          code-pos g' s
              (field_bits
                (symbol_fields tables selectors (suc i) (get_or selectors g' 0) (t ∷ syms)))
              inside stream.1,
          length-symbol_fields (t ∷ syms) (suc i) (get_or selectors g' 0) g' rem stream.2 at',
        ))

IsStream-pos :
    (tables : List (List ℕ)) (eob : ℕ) (syms : List ℕ) → IsStream tables eob syms → 0 < length syms
IsStream-pos tables eob [] h = absurd h
IsStream-pos tables eob (s ∷ syms) h = omega arith

-- For tables of at most 258 lengths up to 20 that leave prefix codes, selectors of them, 50 symbols to
-- a selector at most, and symbols with a code in every table of which the last and no other ends the
-- block: build_tables builds the tables, and in front of anything read_block_symbols takes the fields
-- that symbol_fields gives, and just them, and gives the symbols.
pub read_block_symbols-symbol_fields :
    (tables : List (List ℕ)) (selectors : List ℕ) (eob : ℕ) (syms : List ℕ)
    → All IsTable tables
    → All (λ k. k < length tables) selectors
    → IsStream tables eob syms
    → length syms ≤ 50 * length selectors
    → (r : Reader) (rest : List ℕ) → IsBytes r.src
    → remaining r ≡ field_bits (symbol_fields tables selectors 0 0 syms) ++ rest
    → (ts : List HuffDecTable) × (r' : Reader) × (build_tables tables ≡ some ts)
      × (read_block_symbols ts selectors eob r ≡ some (syms, r'))
      × (remaining r' ≡ rest)
unfolding read_block_symbols bits_left
read_block_symbols-symbol_fields tables selectors eob syms good chosen stream room r rest small e =
    let (ts, built, takes) = build_tables-Takes tables good in
    let start : InStep selectors (length syms) 0 0 0 50 = record {
      place = refl;
      short = omega arith;
      inside = omega (arith, room, IsStream-pos tables eob syms stream);
      room = omega (arith, room);
      same = λ h. absurd (omega (arith, h));
    } in
    let fields = field_bits (symbol_fields tables selectors 0 0 syms) in
    let enough =
      length-symbol_fields tables selectors eob ts takes chosen syms 0 0 0 50 stream start in
    let fuel : length syms ≤ suc (r.buf_bits + 8 * length r.src) = omega (
      arith,
      enough,
      ap length e,
      length-append (bits r.buf_bits r.buf) (byte_bits r.src),
      length-bits r.buf_bits r.buf,
      length-byte_bits r.src,
      length-append fields rest,
    ) in
    let (r', got, left, _) =
      read_symbols-Takes tables selectors eob ts takes chosen syms _ 0 0 0 50 stream fuel start r
        rest small e in
    (ts, r', built, got, left)
