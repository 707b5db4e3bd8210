-- ===== src/Simd/Match.antt =====
-- src/simd/simd_detect.cpp, scalar_match_length. A pointer is the function of the bytes behind it.
-- Where words differ the model takes the branch of GCC and clang, which counts the zeros below the
-- lowest one; the other branch goes on byte by byte.
use orot.Base.{
  ℕ, zero, suc, ◌+◌, ◌-◌, ◌/◌, ◌≢◌, ◌≤◌, ◌<◌, bit_xor, ◌≡◌, ◌⊎◌, inl, inr, arith, leb, ◌==◌,
  if◌then◌else◌, ==_iff, ne-==, leb→le, if-both, ap, sym, ◌∙◌,
}
use native.Mathlib.Decide.{ℕ_discrete, dec_lt}
use native.Mathlib.Numerals.{add-one}
use orot.Base.Bits.{bit_xor-eq, bit_xor_self}
use orot.Simd.Ctz.{ctz, word_from, ctz-IsFirst}

-- The load of 8 bytes as a little-endian word.
abbrev pub word64 : (ℕ → ℕ) → ℕ → ℕ
word64 p i = word_from 8 p i

-- while (len < max_len && a[len] == b[len]) ++len; the first argument counts the rounds left.
unfoldable pub match_bytes : ℕ → (ℕ → ℕ) → (ℕ → ℕ) → ℕ → ℕ
match_bytes zero a b len = len
match_bytes (suc left) a b len =
    let rest = match_bytes left a b (len + 1) in if a len == b len then rest else len

-- while (len + 8 <= max_len) compare words: len += __builtin_ctzll(diff) >> 3 for the first that
-- differ. The fuel is at least max_len - len.
unfoldable pub match_words : ℕ → (ℕ → ℕ) → (ℕ → ℕ) → ℕ → ℕ → ℕ
unfolding match_bytes ctz
match_words zero a b max_len len = match_bytes (max_len - len) a b len
match_words (suc fuel) a b max_len len =
    let rest = match_words fuel a b max_len (len + 8) in
    let diff = bit_xor (word64 a len) (word64 b len) in
    if leb (len + 8) max_len
    then (if diff == 0 then rest else len + ctz 64 diff / 8)
    else match_bytes (max_len - len) a b len

unfoldable pub scalar_match_length : (ℕ → ℕ) → (ℕ → ℕ) → ℕ → ℕ
unfolding match_words
scalar_match_length a b max_len = match_words max_len a b max_len 0

-- The first `n` bytes agree.
abbrev pub Agree : (ℕ → ℕ) → (ℕ → ℕ) → ℕ → Type 0
Agree a b n = (i : ℕ) → i < n → a i ≡ b i

-- The first `n` bytes agree, `n` is at most `max_len`, and no longer prefix agrees.
pub record IsMatchLength (a b : ℕ → ℕ) (max_len n : ℕ) : Type 0 where
  pub agree : Agree a b n
  pub within : n ≤ max_len
  pub longest : (n ≡ max_len) ⊎ (¬ (a n ≡ b n))

Agree-suc : (a b : ℕ → ℕ) (n : ℕ) → Agree a b n → a n ≡ b n → Agree a b (suc n)
Agree-suc a b n h e i lt = elim (dec_lt i n) [
  | yes p ↦ h i p
  | no p ↦ let q : i ≡ n = omega arith in rw q e
]

match_bytes-IsMatchLength :
    (left : ℕ) (a b : ℕ → ℕ) (max_len len : ℕ)
    → len + left ≡ max_len
    → Agree a b len
    → IsMatchLength a b max_len (match_bytes left a b len)
unfolding match_bytes
match_bytes-IsMatchLength zero a b max_len len e h = record {
  agree = h;
  within = omega arith;
  longest = inl (omega arith);
}
match_bytes-IsMatchLength (suc left) a b max_len len e h = elim (ℕ_discrete (a len) (b len)) [
  | yes p ↦ rw ((==_iff _ _).1 p) (
      match_bytes-IsMatchLength left a b max_len (len + 1) (omega arith)
        (rw add-one (Agree-suc a b len h p)))
  | no p ↦ rw (ne-== _ _ p) (record { agree = h; within = omega arith; longest = inr p })
]

word_from-eq :
    (n : ℕ) (a b : ℕ → ℕ) (i : ℕ)
    → ((j : ℕ) → a j < 256)
    → ((j : ℕ) → b j < 256)
    → word_from n a i ≡ word_from n b i
    → (j : ℕ) → j < n
    → a (i + j) ≡ b (i + j)
word_from-eq zero a b i ha hb e j lt = absurd (omega arith)
word_from-eq (suc n) a b i ha hb e zero lt =
    let p : i + 0 ≡ i = omega arith in rw p (omega (arith, e, ha i, hb i))
word_from-eq (suc n) a b i ha hb e (suc j) lt =
    let p : i + suc j ≡ i + 1 + j = omega arith in
    rw p (word_from-eq n a b (i + 1) ha hb (omega (arith, e, ha i, hb i)) j (omega arith))

-- Bytes that agree behind bytes that agree.
Agree-append :
    (a b : ℕ → ℕ) (n d : ℕ)
    → Agree a b n
    → ((j : ℕ) → j < d → a (n + j) ≡ b (n + j))
    → Agree a b (n + d)
Agree-append a b n d h h' i lt = elim (dec_lt i n) [
  | yes p ↦ h i p
  | no p ↦ let e : i ≡ n + (i - n) = omega arith in ap a e ∙ h' (i - n) (omega arith) ∙ ap b (sym e)
]

match_words-IsMatchLength :
    (fuel : ℕ) (a b : ℕ → ℕ) (max_len len : ℕ)
    → ((i : ℕ) → a i < 256)
    → ((i : ℕ) → b i < 256)
    → len ≤ max_len
    → Agree a b len
    → IsMatchLength a b max_len (match_words fuel a b max_len len)
unfolding match_words
match_words-IsMatchLength zero a b max_len len ha hb le h =
    match_bytes-IsMatchLength (max_len - len) a b max_len len (omega arith) h
match_words-IsMatchLength (suc fuel) a b max_len len ha hb le h =
    let diff : ℕ = bit_xor (word64 a len) (word64 b len) in
    if-both (IsMatchLength a b max_len) (leb (len + 8) max_len) _ _
      (λ p.
        if-both (IsMatchLength a b max_len) (diff == 0) _ _
          (λ q.
            let same = bit_xor-eq (word64 a len) (word64 b len) ((==_iff diff 0).0 q) in
            match_words-IsMatchLength fuel a b max_len (len + 8) ha hb (leb→le _ _ p)
              (Agree-append a b len 8 h (word_from-eq 8 a b len ha hb same)))
          (λ q.
            let other : word64 a len ≢ word64 b len = λ e.
              let none : diff ≡ 0 =
                ap (bit_xor (word64 a len)) (sym e) ∙ bit_xor_self (word64 a len) in
              let zero_test = (==_iff diff 0).1 none in absurd (cc) in
            let f = ctz-IsFirst 8 64 a b len ha hb (omega arith) other in
            record {
              agree = Agree-append a b len (ctz 64 diff / 8) h f.before;
              within = omega (arith, f.short, leb→le _ _ p);
              longest = inr f.differs;
            }))
      (λ p. match_bytes-IsMatchLength (max_len - len) a b max_len len (omega arith) h)

-- On bytes, the routine finds the length of the longest common prefix of at most `max_len` bytes.
pub scalar_match_length-IsMatchLength :
    (a b : ℕ → ℕ) (max_len : ℕ)
    → ((i : ℕ) → a i < 256)
    → ((i : ℕ) → b i < 256)
    → IsMatchLength a b max_len (scalar_match_length a b max_len)
unfolding scalar_match_length
scalar_match_length-IsMatchLength a b max_len ha hb =
    match_words-IsMatchLength max_len a b max_len 0 ha hb (omega arith)
      (λ i lt. absurd (omega arith))
