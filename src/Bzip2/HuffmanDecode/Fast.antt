-- ===== src/Bzip2/HuffmanDecode/Fast.antt =====
-- decode_sym of src/bzip2/bzip2_huffman.cpp with its fast table undoes build_codes.
use orot.Base.{
  ℕ, zero, suc, ◌+◌, ◌-◌, ◌*◌, ◌/◌, ◌%◌, ◌^◌, ◌≤◌, ◌<◌, ◌≡◌, refl, sym, ap, ◌∙◌, min, Bool-cases,
  inl, inr, List, [], ◌++◌, none, some, arith, get_or, ltb, ltb→lt, append_assoc,
}
use orot.Base.Bits.{two_pow-pos, two_pow-add}
use orot.Base.Digits.{bits, bits_split, bits-mod, bits-append_inj}
use native.Mathlib.Nat.{div-lt_iff_lt-mul, le-div_iff_mul-le, div-div-eq-div-mul, mul-le-mul_right}
use orot.Bzip2.Huffman.{FastEntry, bl_count, base_of, perm_of, offset_of, find_max_len, build_codes}
use orot.Bzip2.Huffman.Canonical.{IsAlphabet, base_of-tower, get_or-find_max_len, find_max_len-le}
use orot.Bzip2.Huffman.Symbols.{rank, rank-lt, perm_of-rank}
use orot.Bzip2.HuffmanDecode.Slow.{IsCoded, bl_count-count}
use orot.Bzip2.HuffmanDecode.Codes.{IsPrefixCode, build_codes-fits}
use orot.Bzip2.HuffmanDecode.Table.{IsFilled, bound_step}

module _ (lens : List ℕ) (alphabet : IsAlphabet lens) where
  -- No code is the front of a longer one.
  ranges_apart :
      (l d x y : ℕ)
      → l + suc d ≤ 20
      → x < base_of lens l + bl_count lens l
      → base_of lens (l + suc d) ≤ y
      → y / 2 ^ suc d ≡ x
      → ⊥
  ranges_apart l d x y short below above same =
      let tower = base_of-tower lens alphabet l d short in
      let end : (base_of lens l + bl_count lens l) * 2 ^ suc d ≤ y = omega (arith, tower, above) in
      let past = (le-div_iff_mul-le (two_pow-pos (suc d))).1 end in omega (arith, past, same, below)

-- The first bits of the first bits.
shorter : (p l d : ℕ) → l + d ≤ 10 → p / 2 ^ (10 - (l + d)) / 2 ^ d ≡ p / 2 ^ (10 - l)
shorter p l d le =
    let e : 10 - (l + d) + d ≡ 10 - l = omega (arith, le) in
    div-div-eq-div-mul p (2 ^ (10 - (l + d))) (2 ^ d)
    ∙ ap (λ t. p / t) (sym (two_pow-add (10 - (l + d)) d) ∙ ap (λ t. 2 ^ t) e)

module _ (lens : List ℕ) (alphabet : IsAlphabet lens) where
  -- Where the entries of the lengths up to l end.
  abbrev pub bound : ℕ → ℕ
  bound l = (base_of lens l + bl_count lens l) * 2 ^ (10 - l)

  bound-le : (l e : ℕ) → l + e ≤ 10 → bound l ≤ bound (l + e)
  bound-le l zero h = let e : l + 0 ≡ l = omega arith in rw e (omega arith)
  bound-le l (suc e) h =
      let up : l + suc e ≡ suc (l + e) = omega arith in
      let k : ℕ = l + e in
      let w : ℕ = 2 ^ (10 - suc k) in
      let step = bound_step lens alphabet [] k (omega (arith, h)) in
      let more : (base_of lens (suc k) + 0) * w
          ≤ (base_of lens (suc k) + bl_count lens (suc k)) * w =
        mul-le-mul_right w (omega arith) in
      rw up (omega (arith, bound-le l e (omega (arith, h)), step, more))

  -- Ten bits are in the range of one length at most.
  abbrev InRange : ℕ → ℕ → Type 0
  InRange p l =
      (l ≤ 10)
      × (base_of lens l ≤ p / 2 ^ (10 - l))
      × (p / 2 ^ (10 - l) < base_of lens l + bl_count lens l)

  not_before : (p l n : ℕ) → InRange p l → InRange p n → l < n → ⊥
  not_before p l n (_, _, below) (short, above, _) lt =
      let d : ℕ = n - l - 1 in
      let sum : l + suc d ≡ n = omega (arith, lt) in
      let same : p / 2 ^ (10 - n) / 2 ^ suc d ≡ p / 2 ^ (10 - l) =
        rw sum at (shorter p l (suc d) (omega (arith, sum, short))) in
      ranges_apart lens alphabet l d (p / 2 ^ (10 - l)) (p / 2 ^ (10 - n))
        (omega (arith, sum, short)) below (omega (arith, above, ap (base_of lens) sum)) same

  range_unique : (p l n : ℕ) → InRange p l → InRange p n → l ≡ n
  range_unique p l n h h' = elim (Bool-cases (ltb l n)) [
    | inl e ↦ absurd (not_before p l n h h' (ltb→lt l n e))
    | inr e ↦ elim (Bool-cases (ltb n l)) [
      | inl e' ↦ absurd (not_before p n l h' h (ltb→lt n l e'))
      | inr e' ↦ ground (arith, e, e')
    ]
  ]

-- The n highest bits of a buffer in front of the others.
pub high_bits :
    (n k buf : ℕ) → n ≤ k → bits k buf ≡ bits n (buf / 2 ^ (k - n) % 2 ^ n) ++ bits (k - n) buf
high_bits n k buf le =
    let sum : n + (k - n) ≡ k = omega (arith, le) in
    ap (λ t. bits t buf) (sym sum)
    ∙ bits_split n (k - n) buf
    ∙ ap (λ t. t ++ bits (k - n) buf) (sym (bits-mod n n (buf / 2 ^ (k - n)) (omega arith)))

-- What the n highest bits of the stream say of the m highest of the buffer.
pub front-eq :
    (n v m w : ℕ) (xs ys : List ℕ)
    → v < 2 ^ n
    → w < 2 ^ (n + m)
    → bits n v ++ xs ≡ bits (n + m) w ++ ys
    → (v ≡ w / 2 ^ m) × (xs ≡ bits m w ++ ys)
front-eq n v m w xs ys small small' e =
    let part : w / 2 ^ m < 2 ^ n =
      (div-lt_iff_lt-mul (two_pow-pos m)).1 (omega (arith, small', two_pow-add n m)) in
    bits-append_inj n v (w / 2 ^ m) xs (bits m w ++ ys) small part
      (e ∙ ap (λ t. t ++ ys) (bits_split n m w) ∙ append_assoc (bits n (w / 2 ^ m)) (bits m w) ys)

module _ (lens : List ℕ) (alphabet : IsAlphabet lens) (prefix : IsPrefixCode lens) (i : ℕ)
    (coded : IsCoded lens i) (table : List FastEntry)
    (filled : IsFilled lens
      (perm_of lens (find_max_len lens 0))
      table
      (bound lens alphabet (min (find_max_len lens 0) 10))) where
  in_codes :
      (base_of lens (get_or lens i 0) ≤ get_or (build_codes lens) i 0)
      × (get_or (build_codes lens) i 0
          < base_of lens (get_or lens i 0) + bl_count lens (get_or lens i 0))
  in_codes =
      let code = (build_codes-fits lens i alphabet prefix coded).0 in
      let longest = find_max_len-le lens 0 (omega arith) alphabet.1 in
      let c =
        bl_count-count lens alphabet (find_max_len lens 0) longest [] (get_or lens i 0) coded.1 in
      (omega (arith, code), omega (arith, code, c, rank-lt lens i coded.0))

  -- Ten bits that begin with a short code lead to its symbol.
  pub entry_short :
      (p : ℕ)
      → get_or lens i 0 ≤ 10
      → p / 2 ^ (10 - get_or lens i 0) ≡ get_or (build_codes lens) i 0
      → get_or table p none ≡ some (i, get_or lens i 0)
  entry_short p short front =
      let n = get_or lens i 0 in
      let m = find_max_len lens 0 in
      let w : ℕ = 2 ^ (10 - n) in
      let e : ℕ = min m 10 - n in
      let sum : n + e ≡ min m 10 = omega (arith, get_or-find_max_len lens 0 i, short) in
      let here : InRange lens alphabet p n =
        (short, omega (arith, in_codes.0, front), omega (arith, in_codes.1, front)) in
      let inside : p < bound lens alphabet n =
        (div-lt_iff_lt-mul (two_pow-pos (10 - n))).0 here.2 in
      let grows = rw sum at (bound-le lens alphabet n e (omega (arith, sum))) in
      let (s, l, entry, pos, low, above, below, sym_at) =
        filled.entries p (omega (arith, inside, grows)) in
      let same : l ≡ n = range_unique lens alphabet p l n (low, above, below) here in
      let code = (build_codes-fits lens i alphabet prefix coded).0 in
      let k : get_or (build_codes lens) i 0 - base_of lens n ≡ rank lens i = omega (arith, code) in
      let found : s ≡ i =
        sym_at
        ∙ ap
            (λ t.
              get_or (perm_of lens m) (offset_of lens t + (p / 2 ^ (10 - t) - base_of lens t)) 0)
            same
        ∙ ap (λ t. get_or (perm_of lens m) (offset_of lens n + (t - base_of lens n)) 0) front
        ∙ ap (λ t. get_or (perm_of lens m) (offset_of lens n + t) 0) k
        ∙ perm_of-rank lens m i 0 coded.0 coded.1 (get_or-find_max_len lens 0 i) in
      rw (entry, found, same) refl

  -- Ten bits of a longer code lead to no entry.
  pub entry_long :
      (p d : ℕ)
      → 10 + suc d ≡ get_or lens i 0
      → p ≡ get_or (build_codes lens) i 0 / 2 ^ suc d
      → get_or table p none ≡ none
  entry_long p d at front =
      let m = find_max_len lens 0 in
      let longest = find_max_len-le lens 0 (omega arith) alphabet.1 in
      let short = get_or-find_max_len lens 0 i in
      let ten : min m 10 ≡ 10 = omega (arith, at, short) in
      let tower = base_of-tower lens alphabet 10 d (omega (arith, at, short, longest)) in
      let end : (base_of lens 10 + bl_count lens 10) * 2 ^ suc d ≤ get_or (build_codes lens) i 0 =
        omega (arith, tower, in_codes.0, ap (base_of lens) at) in
      let past = (le-div_iff_mul-le (two_pow-pos (suc d))).1 end in
      filled.empty p (omega (arith, past, front, ap (bound lens alphabet) ten))
