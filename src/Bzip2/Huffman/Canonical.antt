-- ===== src/Bzip2/Huffman/Canonical.antt =====
-- The first codes of the lengths in src/bzip2/bzip2_huffman.cpp.
use orot.Base.{
  ℕ, zero, suc, ◌+◌, ◌-◌, ◌*◌, ◌%◌, ◌^◌, ◌≤◌, ◌<◌, ◌≡◌, refl, sym, ap, ◌∙◌, List, [], ◌∷◌, arith,
  length, get_or, All, count-le, ltb, ◌==◌, ==_iff, Bool-cases, inl, inr, if-both, if◌then◌else◌,
}
use orot.Bzip2.Huffman.{bl_count, next_code, base_of, find_max_len}
use orot.Base.Bits.{double_shift, two_pow-pos, two_pow-add}
use native.Mathlib.Nat.{mul-le-mul, mod-le, pow-le-pow_right, le_of_mul-le-mul_right}

-- What the block header can hold: at most 258 symbols, and lengths of at most 20.
abbrev pub IsAlphabet : List ℕ → Type 0
IsAlphabet lens = (length lens ≤ 258) × All (λ l. l ≤ 20) lens

pub base_of-next_code : (lens : List ℕ) (l : ℕ) → base_of lens l ≡ next_code lens l
unfolding base_of next_code
base_of-next_code lens zero = refl
base_of-next_code lens (suc l) =
    ap (λ c. (c + bl_count lens l) % 2 ^ 32 * 2 % 2 ^ 32) (base_of-next_code lens l)

pub bl_count-le : (lens : List ℕ) (l : ℕ) → bl_count lens l ≤ length lens
unfolding bl_count
bl_count-le lens l = ground (arith, count-le l lens)

module _ (lens : List ℕ) (alphabet : IsAlphabet lens) where
  -- The words of 32 bits do not wrap.
  base_of-small : (l : ℕ) → l ≤ 20 → base_of lens l + 2 * length lens ≤ length lens * 2 ^ suc l
  unfolding base_of
  base_of-small zero le = omega arith
  base_of-small (suc l) le =
      let before = base_of-small l (omega arith) in
      let n = length lens in
      let c = bl_count-le lens l in
      let x : ℕ = base_of lens l + bl_count lens l in
      let m1 : x % 2 ^ 32 ≤ x = mod-le x (2 ^ 32) in
      let m2 : x % 2 ^ 32 * 2 % 2 ^ 32 ≤ x % 2 ^ 32 * 2 = mod-le (x % 2 ^ 32 * 2) (2 ^ 32) in
      let p : n * 2 ^ suc (suc l) ≡ 2 * (n * 2 ^ suc l) = double_shift n (suc l) in
      omega (arith, before, c, m1, m2, p)

  pub base_of-lt : (l : ℕ) → l ≤ 20 → base_of lens l + 2 * length lens < 2 ^ 31
  base_of-lt l le =
      let small = base_of-small l le in
      let p : length lens * 2 ^ suc l ≤ 258 * 2 ^ 21 =
        mul-le-mul {m₂ = 2 ^ 21} alphabet.0
          (pow-le-pow_right {n = 2} (omega arith) {i = suc l} {j = 21} (omega (arith, le))) in
      omega (arith, small, p)

  pub base_of_step :
      (l : ℕ) → l < 20 → base_of lens (suc l) ≡ (base_of lens l + bl_count lens l) * 2
  unfolding base_of
  base_of_step l lt =
      let small = base_of-lt l (omega arith) in omega (arith, small, bl_count-le lens l)

  -- The codes of a length end before those of the longer ones begin.
  pub base_of-tower :
      (l d : ℕ)
      → l + suc d ≤ 20
      → (base_of lens l + bl_count lens l) * 2 ^ suc d ≤ base_of lens (l + suc d)
  base_of-tower l zero le =
      let e : l + 1 ≡ suc l = omega arith in rw (e, base_of_step l (omega arith)) (omega arith)
  base_of-tower l (suc d) le =
      let x : ℕ = base_of lens l + bl_count lens l in
      let e : l + suc (suc d) ≡ suc (l + suc d) = omega arith in
      let p : x * 2 ^ suc (suc d) ≡ 2 * (x * 2 ^ suc d) = double_shift x (suc d) in
      let before = base_of-tower l d (omega arith) in
      rw (e, p, base_of_step (l + suc d) (omega arith)) (omega (arith, before))

  -- If the codes of the longest length fit into it, so do those of every other.
  pub base_of-fits :
      (m l : ℕ)
      → m ≤ 20
      → base_of lens m + bl_count lens m ≤ 2 ^ m
      → l ≤ m
      → base_of lens l + bl_count lens l ≤ 2 ^ l
  base_of-fits m l le fits below = elim (Bool-cases (l == m)) [
    | inl e ↦ let same = (==_iff l m).0 e in rw same fits
    | inr e ↦
        let d : ℕ = m - l - 1 in
        let sum : l + suc d ≡ m = ground (arith, e) in
        let x : ℕ = base_of lens l + bl_count lens l in
        let tower : x * 2 ^ suc d ≤ base_of lens m =
          rw sum at (base_of-tower l d (omega (arith, sum))) in
        let whole : 2 ^ m ≡ 2 ^ l * 2 ^ suc d = ap (λ t. 2 ^ t) (sym sum) ∙ two_pow-add l (suc d) in
        le_of_mul-le-mul_right {m = x} {n = 2 ^ l} {k = 2 ^ suc d}
          (omega (arith, tower, fits, whole)) (two_pow-pos (suc d))
  ]

longest-le : (lens : List ℕ) (longest : ℕ) → longest ≤ find_max_len lens longest
unfolding find_max_len
longest-le [] longest = omega arith
longest-le (l ∷ lens) longest =
    ground (arith, longest-le lens (if ltb longest l then l else longest))

-- No length is above the longest.
pub get_or-find_max_len :
    (lens : List ℕ) (longest i : ℕ) → get_or lens i 0 ≤ find_max_len lens longest
unfolding find_max_len
get_or-find_max_len [] longest i = omega arith
get_or-find_max_len (l ∷ lens) longest zero =
    ground (arith, longest-le lens (if ltb longest l then l else longest))
get_or-find_max_len (l ∷ lens) longest (suc i) = get_or-find_max_len lens _ i

pub find_max_len-le :
    (lens : List ℕ) (longest : ℕ)
    → longest ≤ 20
    → All (λ l. l ≤ 20) lens
    → find_max_len lens longest ≤ 20
unfolding find_max_len
find_max_len-le [] longest h small = h
find_max_len-le (l ∷ lens) longest h small =
    find_max_len-le lens (if ltb longest l then l else longest)
      (if-both (λ t. t ≤ 20) (ltb longest l) l longest (λ _. small.0) (λ _. h)) small.1
