-- ===== src/Base/Flags.antt =====
-- The tests on the bits of a byte, and the complement of a word.
use Prim.Native.Nat.{ℕ, zero, suc, ◌-◌, ◌/◌, ◌%◌, ◌^◌, ◌≤◌, ◌<◌, bit_and, bit_xor, differ}
use mathlib.Core.Path.{◌≡◌, refl, ap, ◌∙◌}
use mathlib.Core.Bool.{Bool, true, false, not, ◌||◌}
use mathlib.Core.Logic.{inl, inr}
use native.Mathlib.Omega.{arith}
use native.Mathlib.Nat.{pow-suc}
use orot.Base.Tests.{◌==◌, leb, if◌then◌else◌, if-both, Bool-cases, ==_iff}
use orot.Base.Bits.{bit_xor_digit, two_pow-pos}

-- The test holds for every number below the bound.
abbrev pub below : ℕ → (ℕ → Bool) → Bool
below zero p = true
below (suc n) p = if p n then below n p else false

pub below-all : (n : ℕ) (p : ℕ → Bool) → below n p ≡ true → (i : ℕ) → i < n → p i ≡ true
below-all zero p e i h = absurd (omega arith)
below-all (suc n) p e i h =
    if-both (λ b. b ≡ true → p i ≡ true) (p n) (below n p) false
      (λ here rest. elim (Bool-cases (i == n)) [
        | inl same ↦ ap p ((==_iff i n).0 same) ∙ here
        | inr other ↦ below-all n p rest i (ground arith)
      ])
      (λ _ q. absurd (cc)) e

-- The first byte of a stored block, by the tests that the decoders make.
stored_header : ℕ → Bool
stored_header h = leb h 1 || not (bit_and h 0x06 == 0) || not (bit_and h 0xF8 == 0)

stored_header-all : below 256 stored_header ≡ true
unfolding stored_header
stored_header-all = refl

pub bit_and-stored :
    (h : ℕ) → h < 256 → (bit_and h 0x06 == 0) ≡ true → (bit_and h 0xF8 == 0) ≡ true → h ≤ 1
unfolding stored_header
bit_and-stored h small e e' =
    let t = below-all 256 stored_header stored_header-all h small in ground (arith, rw (e, e') at t)

differ-one : (x : ℕ) → x < 2 → differ x 1 ≡ 1 - x
differ-one zero h = refl
differ-one (suc zero) h = refl
differ-one (suc (suc x)) h = absurd (omega arith)

-- All bits inverted.
pub bit_xor-ones : (k v : ℕ) → v < 2 ^ k → bit_xor v (2 ^ k - 1) ≡ 2 ^ k - 1 - v
bit_xor-ones zero v h = let e : v ≡ 0 = omega arith in rw e refl
bit_xor-ones (suc k) v h =
    let pos = two_pow-pos k in
    let p = pow-suc 2 k in
    let half : (2 ^ suc k - 1) / 2 ≡ 2 ^ k - 1 = omega (arith, p, pos) in
    let odd : (2 ^ suc k - 1) % 2 ≡ 1 = omega (arith, p, pos) in
    let rest = bit_xor-ones k (v / 2) (omega (arith, p)) in
    bit_xor_digit v (2 ^ suc k - 1)
    ∙ rw (half, odd, rest, differ-one (v % 2) (omega arith)) (omega (arith, p, pos))
