-- ===== src/Bzip2/HuffmanDecode/RoundTrip.antt =====
-- decode_sym of src/bzip2/bzip2_huffman.cpp undoes build_codes, with the fast table or without it.
use orot.Base.{
  ℕ, suc, ◌+◌, ◌-◌, ◌/◌, ◌%◌, ◌^◌, ◌≤◌, ◌<◌, ◌≡◌, refl, sym, ap, subst, ◌∙◌, min, true, false,
  Bool-cases, inl, inr, List, ◌++◌, some, arith, get_or, leb, leb→le, append_assoc,
}
use orot.Base.Digits.{bits, bits-append_inj, byte_bits}
use native.Mathlib.Nat.{mod-lt}
use orot.Base.Bits.{two_pow-pos}
use orot.Bzip2.BitStream.{Reader}
use orot.Bzip2.BitStream.RoundTrip.{IsBytes, remaining}
use orot.Bzip2.Header.Takes.{Takes}
use orot.Bzip2.Huffman.{
  HuffDecTable, FastEntry, bl_count, base_of, perm_of, find_max_len, build_codes, build_table,
  with_table, build_from_lengths,
}
use orot.Bzip2.Huffman.Canonical.{IsAlphabet, base_of-fits, get_or-find_max_len, find_max_len-le}
use orot.Bzip2.HuffmanDecode.{decode_from, decode_slow, decode_entry, decode_sym}
use orot.Bzip2.HuffmanDecode.Slow.{IsCoded, decode_from-IsCoded}
use orot.Bzip2.HuffmanDecode.Codes.{
  IsPrefixCode, build_codes-fits, decode_slow-build_codes, decode_from-Takes,
}
use orot.Bzip2.HuffmanDecode.Table.{IsFilled, fill_lengths-IsFilled}
use orot.Bzip2.HuffmanDecode.Fast.{bound, high_bits, front-eq, entry_short, entry_long}

module _ (lens : List ℕ) (alphabet : IsAlphabet lens) (prefix : IsPrefixCode lens) (i : ℕ)
    (coded : IsCoded lens i) (table : List FastEntry)
    (filled : IsFilled lens
      (perm_of lens (find_max_len lens 0))
      table
      (bound lens alphabet (min (find_max_len lens 0) 10))) where
  -- The result that the reader has to give.
  abbrev Gives : Reader → List ℕ → Type 0
  Gives r rest =
      (r' : Reader) × (decode_sym (build_table lens (find_max_len lens 0) table) r ≡ some (i, r'))
      × (remaining r' ≡ rest)
      × IsBytes r'.src

  short_code :
      (r : Reader) (rest : List ℕ)
      → IsBytes r.src
      → remaining r ≡ bits (get_or lens i 0) (get_or (build_codes lens) i 0) ++ rest
      → leb 10 r.buf_bits ≡ true
      → get_or lens i 0 ≤ 10
      → Gives r rest
  unfolding decode_sym decode_entry build_table
  short_code r rest small e enough short =
      let n = get_or lens i 0 in
      let c = get_or (build_codes lens) i 0 in
      let k = r.buf_bits in
      let bytes = byte_bits r.src in
      let ten : 10 ≤ k = leb→le 10 k enough in
      let peek : ℕ = r.buf / 2 ^ (k - 10) % 2 ^ 10 in
      let top : ℕ = r.buf / 2 ^ (k - n) % 2 ^ n in
      let fits = (build_codes-fits lens i alphabet prefix coded).1 in
      let sum : n + (10 - n) ≡ 10 = omega (arith, short) in
      let peeked : bits n c ++ rest ≡ bits (n + (10 - n)) peek ++ (bits (k - 10) r.buf ++ bytes) =
        sym e
        ∙ ap (λ t. t ++ bytes) (high_bits 10 k r.buf ten)
        ∙ append_assoc (bits 10 peek) (bits (k - 10) r.buf) bytes
        ∙ ap (λ t. bits t peek ++ (bits (k - 10) r.buf ++ bytes)) (sym sum) in
      let peek_small : peek < 2 ^ (n + (10 - n)) =
        subst (λ t. peek < 2 ^ t) (sym sum) (omega arith) in
      let front =
        (front-eq n c (10 - n) peek rest (bits (k - 10) r.buf ++ bytes) fits peek_small peeked).0 in
      let taken : bits n c ++ rest ≡ bits n top ++ (bits (k - n) r.buf ++ bytes) =
        sym e
        ∙ ap (λ t. t ++ bytes) (high_bits n k r.buf (omega (arith, short, ten)))
        ∙ append_assoc (bits n top) (bits (k - n) r.buf) bytes in
      let left =
        (bits-append_inj n c top rest (bits (k - n) r.buf ++ bytes) fits
          (mod-lt (r.buf / 2 ^ (k - n)) (two_pow-pos n)) taken).1 in
      (
        record r { buf_bits = k - n },
        rw (enough, entry_short lens alphabet prefix i coded table filled peek short (sym front))
            refl,
        sym left,
        small,
      )

  long_code :
      (r : Reader) (rest : List ℕ) (d : ℕ)
      → IsBytes r.src
      → remaining r ≡ bits (get_or lens i 0) (get_or (build_codes lens) i 0) ++ rest
      → leb 10 r.buf_bits ≡ true
      → 10 + suc d ≡ get_or lens i 0
      → Gives r rest
  unfolding decode_sym decode_entry build_table
  long_code r rest d small e enough at =
      let m = find_max_len lens 0 in
      let c = get_or (build_codes lens) i 0 in
      let k = r.buf_bits in
      let bytes = byte_bits r.src in
      let peek : ℕ = r.buf / 2 ^ (k - 10) % 2 ^ 10 in
      let (code, fits) = build_codes-fits lens i alphabet prefix coded in
      let peeked : bits 10 peek ++ (bits (k - 10) r.buf ++ bytes) ≡ bits (10 + suc d) c ++ rest =
        sym (append_assoc (bits 10 peek) (bits (k - 10) r.buf) bytes)
        ∙ ap (λ t. t ++ bytes) (sym (high_bits 10 k r.buf (leb→le 10 k enough)))
        ∙ e
        ∙ ap (λ t. bits t c ++ rest) (sym at) in
      let (front, left) =
        front-eq 10 peek (suc d) c (bits (k - 10) r.buf ++ bytes) rest (omega arith)
          (subst (λ t. c < 2 ^ t) (sym at) fits) peeked in
      let longest = find_max_len-le lens 0 (omega arith) alphabet.1 in
      let short = get_or-find_max_len lens 0 i in
      let takes =
        decode_from-Takes lens alphabet m longest table i coded short c code fits d 10 (m - 10) at
          (omega (arith, at, short)) in
      let (r', got, after, small') = takes (record r { buf_bits = k - 10 }) rest small left in
      (
        r',
        rw (enough, entry_long lens alphabet prefix i coded table filled peek d at front)
            (ap
                (λ v.
                  decode_from (build_table lens m table) (m - 10) 11 v
                    (record r { buf_bits = k - 10 }))
                front
              ∙ got),
        after,
        small',
      )

  at_once :
      (r r' : Reader)
      → leb 10 r.buf_bits ≡ false
      → decode_slow (build_table lens (find_max_len lens 0) table) r ≡ some (i, r')
      → decode_sym (build_table lens (find_max_len lens 0) table) r ≡ some (i, r')
  unfolding decode_sym
  at_once r r' few got = rw few got

  gives :
      (r : Reader) (rest : List ℕ)
      → IsBytes r.src
      → remaining r ≡ bits (get_or lens i 0) (get_or (build_codes lens) i 0) ++ rest
      → Gives r rest
  gives r rest small e = elim (Bool-cases (leb 10 r.buf_bits)) [
    | inr few ↦ slowly few
    | inl enough ↦ elim (Bool-cases (leb (get_or lens i 0) 10)) [
      | inl short ↦ short_code r rest small e enough (leb→le (get_or lens i 0) 10 short)
      | inr long ↦ long_code r rest (get_or lens i 0 - 11) small e enough (ground (arith, long))
    ]
  ]
    where
      slowly : leb 10 r.buf_bits ≡ false → Gives r rest
      slowly few =
          let (r', got, left, small') =
            decode_slow-build_codes lens i table alphabet prefix coded r rest small e in
          (r', at_once r r' few got, left, small')

-- The table of a prefix code is built, and takes its codes.
pub build_from_lengths-Takes :
    (lens : List ℕ)
    → IsAlphabet lens
    → IsPrefixCode lens
    → (t : HuffDecTable) × (build_from_lengths lens ≡ some t)
      × ((i : ℕ)
          → IsCoded lens i
          → Takes (decode_sym t) (bits (get_or lens i 0) (get_or (build_codes lens) i 0)) i)
unfolding build_from_lengths with_table
build_from_lengths-Takes lens alphabet prefix =
    let m = find_max_len lens 0 in
    let longest = find_max_len-le lens 0 (omega arith) alphabet.1 in
    let (table, built, filled) =
      fill_lengths-IsFilled lens alphabet (perm_of lens m) (min m 10) (omega arith)
        (λ l h. base_of-fits lens alphabet m l longest prefix (omega (arith, h))) in
    (
      build_table lens m table,
      rw built refl,
      λ i coded r rest small e. gives lens alphabet prefix i coded table filled r rest small e,
    )

-- For at most 258 lengths up to 20 that leave a prefix code, build_from_lengths writes inside its fast
-- table, and in front of anything decode_sym, with the fast table or without it, takes the code that
-- build_codes gives to a symbol, and just that, and gives the symbol.
pub decode_sym-build_codes :
    (lens : List ℕ) (i : ℕ)
    → IsAlphabet lens
    → IsPrefixCode lens
    → IsCoded lens i
    → (r : Reader) (rest : List ℕ) → IsBytes r.src
    → remaining r ≡ bits (get_or lens i 0) (get_or (build_codes lens) i 0) ++ rest
    → (t : HuffDecTable) × (r' : Reader) × (build_from_lengths lens ≡ some t)
      × (decode_sym t r ≡ some (i, r'))
      × (remaining r' ≡ rest)
decode_sym-build_codes lens i alphabet prefix coded r rest small e =
    let (t, built, takes) = build_from_lengths-Takes lens alphabet prefix in
    let (r', got, left, _) = takes i coded r rest small e in (t, r', built, got, left)

-- For at most 258 lengths up to 20, prefix code or not, the loop of decode_sym over single bits reads
-- perm only where a symbol stands: it gives none or a symbol of the alphabet that has a code.
pub decode_slow-IsCoded :
    (lens : List ℕ) (fast : List FastEntry) (r r' : Reader) (s : ℕ)
    → IsAlphabet lens
    → decode_slow (build_table lens (find_max_len lens 0) fast) r ≡ some (s, r')
    → IsCoded lens s
unfolding decode_slow base_of bl_count build_table
decode_slow-IsCoded lens fast r r' s alphabet e =
    let m = find_max_len lens 0 in
    decode_from-IsCoded lens alphabet m (find_max_len-le lens 0 (omega arith) alphabet.1) fast m 0 0
      r r' s (omega arith) (omega arith) (omega arith) e
