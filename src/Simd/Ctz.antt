-- ===== src/Simd/Ctz.antt =====
-- __builtin_ctzll as src/simd/simd_detect.cpp uses it: the number of zeros below the lowest one of a
-- word that is not 0.
use orot.Base.{
  ℕ, zero, suc, ◌+◌, ◌-◌, ◌*◌, ◌/◌, ◌%◌, ◌^◌, ◌≤◌, ◌<◌, bit_xor, ◌≡◌, ◌≢◌, refl, sym, ap, ◌∙◌,
  arith, ◌==◌, if◌then◌else◌, ==_iff, ne-==,
}
use native.Mathlib.Decide.{ℕ_discrete}
use orot.Base.Bits.{double_shift, bit_xor-eq, bit_xor_self}
use orot.Base.Xor.{mod_digit, xor-div, xor-mod}

-- The first argument is the width of the word.
unfoldable pub ctz : ℕ → ℕ → ℕ
ctz zero word = 0
ctz (suc width) word = let rest = ctz width (word / 2) in if word % 2 == 0 then rest + 1 else 0

ctz-shift : (k width word : ℕ) → ctz (k + width) (word * 2 ^ k) ≡ k + ctz width word
unfolding ctz
ctz-shift zero width word =
    let e : word * 2 ^ 0 ≡ word = omega arith in
    let e' : 0 + width ≡ width = omega arith in rw (e, e') (omega arith)
ctz-shift (suc k) width word =
    let e : suc k + width ≡ suc (k + width) = omega arith in
    let half : 2 * (word * 2 ^ k) / 2 ≡ word * 2 ^ k = omega arith in
    let even : 2 * (word * 2 ^ k) % 2 ≡ 0 = omega arith in
    rw (double_shift word k, e, half, even) (omega (arith, ctz-shift k width word))

ctz-lt : (k width word : ℕ) → word % 2 ^ k ≢ 0 → k ≤ width → ctz width word < k
unfolding ctz
ctz-lt zero width word ne le = absurd (ne (omega arith))
ctz-lt (suc k) zero word ne le = absurd (omega arith)
ctz-lt (suc k) (suc width) word ne le = elim (ℕ_discrete (word % 2) 0) [
  | no odd ↦ rw (ne-== (word % 2) 0 odd) (omega arith)
  | yes even ↦
      let rest =
        ctz-lt k width (word / 2) (λ z. ne (omega (arith, mod_digit k word, even, z)))
          (omega arith) in
      rw ((==_iff (word % 2) 0).1 even) (omega (arith, rest))
]

-- The word of the n bytes from `i` on, the first the lowest.
abbrev pub word_from : ℕ → (ℕ → ℕ) → ℕ → ℕ
word_from zero p i = 0
word_from (suc n) p i = p i + 2 ^ 8 * word_from n p (i + 1)

-- `d` counts the bytes from `i` on that agree, of less than n.
pub record IsFirst (n : ℕ) (a b : ℕ → ℕ) (i d : ℕ) : Type 0 where
  pub before : (j : ℕ) → j < d → a (i + j) ≡ b (i + j)
  pub differs : a (i + d) ≢ b (i + d)
  pub short : d < n

low_byte : (x y : ℕ) → x < 256 → (x + 2 ^ 8 * y) % 2 ^ 8 ≡ x
low_byte x y lt = omega arith

high_bytes : (x y : ℕ) → x < 256 → (x + 2 ^ 8 * y) / 2 ^ 8 ≡ y
high_bytes x y lt = omega arith

IsFirst-suc :
    (n : ℕ) (a b : ℕ → ℕ) (i d : ℕ)
    → a i ≡ b i
    → IsFirst n a b (i + 1) d
    → IsFirst (suc n) a b i (suc d)
IsFirst-suc n a b i d same f = record {
  before = later;
  differs = rw (sym (next d)) f.differs;
  short = omega (arith, f.short);
}
  where
    next : (j : ℕ) → i + 1 + j ≡ i + suc j
    next j = omega arith

    later : (j : ℕ) → j < suc d → a (i + j) ≡ b (i + j)
    later zero lt = let e : i + 0 ≡ i = omega arith in rw e same
    later (suc j) lt = rw (sym (next j)) (f.before j (omega arith))

-- The lowest one of the difference of two words stands in the first byte that differs.
pub ctz-IsFirst :
    (n width : ℕ) (a b : ℕ → ℕ) (i : ℕ)
    → ((j : ℕ) → a j < 256)
    → ((j : ℕ) → b j < 256)
    → 8 * n ≤ width
    → word_from n a i ≢ word_from n b i
    → IsFirst n a b i (ctz width (bit_xor (word_from n a i) (word_from n b i)) / 8)
ctz-IsFirst zero width a b i ha hb le ne = absurd (ne refl)
ctz-IsFirst (suc n) width a b i ha hb le ne =
    let u : ℕ = word_from n a (i + 1) in
    let v : ℕ = word_from n b (i + 1) in
    let diff : ℕ = bit_xor (a i + 2 ^ 8 * u) (b i + 2 ^ 8 * v) in
    let low : diff % 2 ^ 8 ≡ bit_xor (a i) (b i) =
      xor-mod 8 (a i + 2 ^ 8 * u) (b i + 2 ^ 8 * v)
      ∙ rw (low_byte (a i) u (ha i), low_byte (b i) v (hb i)) refl in
    let high : diff / 2 ^ 8 ≡ bit_xor u v =
      xor-div 8 (a i + 2 ^ 8 * u) (b i + 2 ^ 8 * v)
      ∙ rw (high_bytes (a i) u (ha i), high_bytes (b i) v (hb i)) refl in
    let e : i + 0 ≡ i = omega arith in
    elim (ℕ_discrete (a i) (b i)) [
      | no other ↦
          let few =
            ctz-lt 8 width diff (λ z. other (bit_xor-eq (a i) (b i) (sym low ∙ z))) (omega arith) in
          let none : ctz width diff / 8 ≡ 0 = omega (arith, few) in
          rw none (record {
            before = λ j lt. absurd (omega arith);
            differs = rw e other;
            short = omega arith;
          })
      | yes same ↦
          let zeros : diff % 2 ^ 8 ≡ 0 = low ∙ ap (bit_xor (a i)) (sym same) ∙ bit_xor_self (a i) in
          let whole : diff ≡ bit_xor u v * 2 ^ 8 = omega (arith, zeros, high) in
          let w : ℕ = width - 8 in
          let sum : width ≡ 8 + w = omega arith in
          let f =
            ctz-IsFirst n w a b (i + 1) ha hb (omega arith) (λ q. ne (omega (arith, same, q))) in
          let d : ℕ = ctz w (bit_xor u v) / 8 in
          let more : ctz width diff ≡ 8 + ctz w (bit_xor u v) =
            ap (λ t. ctz t diff) sum ∙ ap (ctz (8 + w)) whole ∙ ctz-shift 8 w (bit_xor u v) in
          let tail : ctz width diff / 8 ≡ suc d = omega (arith, more) in
          rw tail (IsFirst-suc n a b i d same f)
    ]
