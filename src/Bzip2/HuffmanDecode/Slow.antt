-- ===== src/Bzip2/HuffmanDecode/Slow.antt =====
-- The bit by bit loop of decode_sym in src/bzip2/bzip2_huffman.cpp reads the canonical codes.
use orot.Base.{
  ℕ, zero, suc, ◌+◌, ◌-◌, ◌*◌, ◌/◌, ◌%◌, ◌^◌, bit_or, ◌≤◌, ◌<◌, ◌≡◌, refl, sym, ap, ◌∙◌, true,
  false, Bool-cases, inl, inr, List, [], ◌∷◌, Option, none, some, arith, length, get_or, count,
  ◌==◌, ==_iff, ne-==, if-both, if◌then◌else◌, ge-ltb,
}
use orot.Base.Bits.{bit_or_low}
use orot.Base.Digits.{bits}
use native.Mathlib.Nat.{pow-suc, pow-le-pow_right}
use orot.Bzip2.BitStream.{Reader, fill_bits, take_bits, read_bits}
use orot.Bzip2.Header.{Parser, field, and_then}
use orot.Bzip2.Header.Takes.{Takes, Takes-field}
use orot.Bzip2.Huffman.{perm_of, offset_of, bl_count, base_of, limit_of, build_table, FastEntry}
use orot.Bzip2.Huffman.Canonical.{IsAlphabet, bl_count-le, base_of-lt, base_of_step}
use orot.Bzip2.Huffman.Symbols.{perm_of-get}
use orot.Bzip2.HuffmanDecode.{fetch_byte, high_bit, next_bit, within, symbol_at, decode_from}

fill_bits-full :
    (src : List ℕ) (buf buf_bits : ℕ)
    → 0 < buf_bits
    → fill_bits 1 src buf buf_bits ≡ some (record { src = src; buf = buf; buf_bits = buf_bits })
unfolding fill_bits
fill_bits-full [] buf buf_bits pos = rw (ge-ltb buf_bits 1 (omega (arith, pos))) refl
fill_bits-full (byte ∷ src) buf buf_bits pos = rw (ge-ltb buf_bits 1 (omega (arith, pos))) refl

fill_bits-empty : (src : List ℕ) (buf : ℕ) → fill_bits 1 src buf 0 ≡ fetch_byte src buf
unfolding fill_bits fetch_byte
fill_bits-empty [] buf = refl
fill_bits-empty (byte ∷ src) buf =
    fill_bits-full src (bit_or (buf * 2 ^ 8 % 2 ^ 64) byte) 8 (omega arith)

high_bit-take_bits :
    (o : Option Reader) → high_bit o ≡ (elim o [ none ↦ none | some r ↦ some (take_bits 1 r) ])
unfolding high_bit take_bits
high_bit-take_bits none = refl
high_bit-take_bits (some r) = refl

fetched :
    (r : Reader)
    → (if r.buf_bits == 0 then fetch_byte r.src r.buf else some r)
      ≡ fill_bits 1 r.src r.buf r.buf_bits
fetched r =
    if-both (λ o. o ≡ fill_bits 1 r.src r.buf r.buf_bits) (r.buf_bits == 0) _ _
      (λ e.
        let zero_bits = (==_iff r.buf_bits 0).0 e in
        sym (ap (fill_bits 1 r.src r.buf) zero_bits ∙ fill_bits-empty r.src r.buf))
      (λ e. sym (fill_bits-full r.src r.buf r.buf_bits (ground (arith, e))))

-- A bit read by hand is a field of one bit.
next_bit-field : (r : Reader) → next_bit r ≡ field 1 r
unfolding next_bit read_bits
next_bit-field r = ap high_bit (fetched r) ∙ high_bit-take_bits (fill_bits 1 r.src r.buf r.buf_bits)

pub Takes-next_bit : (v : ℕ) → v < 2 → Takes next_bit (bits 1 v) v
Takes-next_bit v lt r rest h e = rw (next_bit-field r) (Takes-field 1 v (omega arith) lt r rest h e)

high_bit-lt : (o : Option Reader) (r' : Reader) (b : ℕ) → high_bit o ≡ some (b, r') → b < 2
unfolding high_bit
high_bit-lt none r' b e = absurd (cc)
high_bit-lt (some s) r' b e =
    let same : s.buf / 2 ^ (s.buf_bits - 1) % 2 ≡ b = cc in omega (arith, same)

next_bit-lt : (r r' : Reader) (b : ℕ) → next_bit r ≡ some (b, r') → b < 2
unfolding next_bit
next_bit-lt r r' b e =
    high_bit-lt (if r.buf_bits == 0 then fetch_byte r.src r.buf else some r) r' b e

-- (v << 1) | bit
pub bit_or-bit : (v b : ℕ) → v < 2 ^ 31 → b < 2 → bit_or (v * 2 % 2 ^ 32) b ≡ 2 * v + b
bit_or-bit v b small lt =
    let e : v * 2 % 2 ^ 32 ≡ v * 2 ^ 1 = omega (arith, small) in
    rw e (bit_or_low 1 v b (omega (arith, lt)) ∙ omega arith)

module _ (lens : List ℕ) (alphabet : IsAlphabet lens) where
  -- The test on the limit is one for the end of the codes of the length.
  pub within-below :
      (l v : ℕ)
      → l ≤ 20
      → base_of lens l ≤ v
      → (within (limit_of lens l) v ≡ true → v < base_of lens l + bl_count lens l)
        × (within (limit_of lens l) v ≡ false → base_of lens l + bl_count lens l ≤ v)
  unfolding within limit_of
  within-below l v le above =
      let small = base_of-lt lens alphabet l le in
      let c = bl_count-le lens l in
      elim (Bool-cases (bl_count lens l == 0)) [
        | inl e ↦
            let none_left = (==_iff (bl_count lens l) 0).0 e in
            (λ q. absurd (cc), λ q. omega (arith, none_left, above))
        | inr e ↦
            let last : (base_of lens l + bl_count lens l - 1) % 2 ^ 32
                ≡ base_of lens l + bl_count lens l - 1 =
              omega (arith, small, c) in
            (λ q. ground (arith, last, e, q), λ q. ground (arith, last, e, q))
      ]

and_then-some :
    {A B : Type 0} (o : Option (A × Reader)) (f : A → Parser B) (x : B × Reader)
    → and_then o f ≡ some x
    → (a : A) × (r : Reader) × (o ≡ some (a, r)) × (f a r ≡ some x)
unfolding and_then
and_then-some none f x e = absurd (cc)
and_then-some (some (a, r)) f x e = (a, r, refl, e)

-- A symbol of the alphabet that has a code.
abbrev pub IsCoded : List ℕ → ℕ → Type 0
IsCoded lens s = (s < length lens) × (0 < get_or lens s 0)

module _ (lens : List ℕ) (alphabet : IsAlphabet lens) (m : ℕ) (le : m ≤ 20)
    (fast : List FastEntry) where
  -- Between the first code of a length and the last stands a symbol.
  pub symbol_at-perm :
      (l v : ℕ)
      → l ≤ 20
      → base_of lens l ≤ v
      → v < base_of lens l + bl_count lens l
      → symbol_at (build_table lens m fast) l v
        ≡ get_or (perm_of lens m) (offset_of lens l + (v - base_of lens l)) (length lens)
  unfolding symbol_at build_table
  symbol_at-perm l v low above below =
      let small = base_of-lt lens alphabet l low in
      let c = bl_count-le lens l in
      let e : (v + 2 ^ 32 - base_of lens l) % 2 ^ 32 ≡ v - base_of lens l =
        omega (arith, small, c, alphabet.0) in
      ap (λ k. get_or (perm_of lens m) (offset_of lens l + k) (length lens)) e

  pub bl_count-count : (l : ℕ) → 0 < l → bl_count lens l ≡ count l lens
  unfolding bl_count
  bl_count-count l pos = rw (ne-== l 0 (omega (arith, pos))) refl

  pub symbol_at-IsCoded :
      (l v : ℕ)
      → 0 < l
      → l ≤ m
      → base_of lens l ≤ v
      → v < base_of lens l + bl_count lens l
      → IsCoded lens (symbol_at (build_table lens m fast) l v)
  symbol_at-IsCoded l v pos short above below =
      let at = symbol_at-perm l v (omega (arith, short, le)) above below in
      let (lt, eq) =
        perm_of-get lens m l (v - base_of lens l) (length lens) pos short
          (omega (arith, above, below, bl_count-count l pos)) in
      rw at (lt, omega (arith, eq, pos))

  -- From a prefix behind the codes of its length, the loop gives only symbols that have a code.
  pub decode_from-IsCoded :
      (k l v : ℕ) (r r' : Reader) (s : ℕ)
      → l + k ≤ m
      → base_of lens l + bl_count lens l ≤ v
      → v < 2 ^ l
      → decode_from (build_table lens m fast) k (suc l) v r ≡ some (s, r')
      → IsCoded lens s
  unfolding decode_from build_table
  decode_from-IsCoded zero l v r r' s room above small e = absurd (cc)
  decode_from-IsCoded (suc k) l v r r' s room above small e =
      let t = build_table lens m fast in
      let (b, r1, got, rest) = and_then-some (next_bit r) _ (s, r') e in
      let digit = next_bit-lt r r1 b got in
      let short : l < 20 = omega (arith, room, le) in
      let word : v < 2 ^ 31 = omega (
        arith,
        small,
        pow-le-pow_right {n = 2} (omega arith) {i = l} {j = 20} (omega (arith, short)),
      ) in
      let v' : ℕ = bit_or (v * 2 % 2 ^ 32) b in
      let next : v' ≡ 2 * v + b = bit_or-bit v b word digit in
      let start = base_of_step lens alphabet l short in
      let test =
        within-below lens alphabet (suc l) v' (omega (arith, short))
          (omega (arith, next, start, above)) in
      if-both (λ (p : Parser ℕ). p r1 ≡ some (s, r') → IsCoded lens s)
        (within (limit_of lens (suc l)) v') _ _
        (λ hit q.
          let same : symbol_at t (suc l) v' ≡ s = cc in
          rw (sym same) (
            symbol_at-IsCoded (suc l) v' (omega arith) (omega (arith, room))
              (omega (arith, next, start, above)) (test.0 hit)))
        (λ miss q.
          decode_from-IsCoded k (suc l) v' r1 r' s (omega (arith, room)) (test.1 miss)
            (omega (arith, next, digit, small, pow-suc 2 l)) q)
        rest
