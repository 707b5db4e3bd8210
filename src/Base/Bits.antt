-- ===== src/Base/Bits.antt =====
-- Bit operations on words of any width, in plain arithmetic.
use Prim.Native.Nat.{
  ℕ, zero, suc, ◌+◌, ◌*◌, ◌/◌, ◌%◌, ◌^◌, ◌≤◌, ◌<◌, max, differ, bit_or, bit_xor, digits,
  bit_or-bitwise, bit_xor-bitwise,
}
use mathlib.Core.Path.{◌≡◌, refl, ap, ◌∙◌}
use native.Mathlib.Omega.{arith}
use native.Mathlib.Nat.{pow-suc, div-add-mod', mod-lt, mod-eq_of_lt, mul-add-mod_self_right}

-- Any count of digits that is large enough gives the same number.
module _ (z : ℕ → ℕ) (f : ℕ → ℕ → ℕ) where
  digits-count : (n m a b : ℕ) → a ≤ n → a ≤ m → digits z f n a b ≡ digits z f m a b
  digits-count zero zero a b p q = refl
  digits-count (suc n) zero zero b p q = refl
  digits-count zero (suc m) zero b p q = refl
  digits-count (suc n) (suc m) zero b p q = refl
  digits-count (suc n) zero (suc a) b p q = absurd (omega arith)
  digits-count zero (suc m) (suc a) b p q = absurd (omega arith)
  digits-count (suc n) (suc m) (suc a) b p q =
      ap (λ t. t * 2 + f (suc a % 2) (b % 2))
        (digits-count n m (suc a / 2) (b / 2) (omega arith) (omega arith))

-- The lowest binary digit and the rest.
bit_or_digit : (a b : ℕ) → bit_or a b ≡ bit_or (a / 2) (b / 2) * 2 + max (a % 2) (b % 2)
bit_or_digit zero b = omega (arith, bit_or-bitwise 0 b, bit_or-bitwise 0 (b / 2))
bit_or_digit (suc a) b = omega (
  arith,
  bit_or-bitwise (suc a) b,
  bit_or-bitwise (suc a / 2) (b / 2),
  digits-count (λ y. y) max a (suc a / 2) (suc a / 2) (b / 2) (omega arith) (omega arith),
)

pub bit_xor_digit : (a b : ℕ) → bit_xor a b ≡ bit_xor (a / 2) (b / 2) * 2 + differ (a % 2) (b % 2)
bit_xor_digit zero b = omega (arith, bit_xor-bitwise 0 b, bit_xor-bitwise 0 (b / 2))
bit_xor_digit (suc a) b = omega (
  arith,
  bit_xor-bitwise (suc a) b,
  bit_xor-bitwise (suc a / 2) (b / 2),
  digits-count (λ y. y) differ a (suc a / 2) (suc a / 2) (b / 2) (omega arith) (omega arith),
)

zero-bit_or : (b : ℕ) → bit_or 0 b ≡ b
zero-bit_or b = bit_or-bitwise 0 b

bit_or-zero_below : (n a : ℕ) → a ≤ n → bit_or a 0 ≡ a
bit_or-zero_below n zero h = refl
bit_or-zero_below zero (suc a) h = absurd (omega arith)
bit_or-zero_below (suc n) (suc a) h =
    omega (arith, bit_or_digit (suc a) 0, bit_or-zero_below n (suc a / 2) (omega arith))

pub double_shift : (q k : ℕ) → q * 2 ^ suc k ≡ 2 * (q * 2 ^ k)
double_shift q k = omega (arith, ap (λ (t : ℕ). q * t) (pow-suc 2 k))

-- `low | (high << k)` is a sum when `low` has at most k bits.
pub bit_or_high : (k low high : ℕ) → low < 2 ^ k → bit_or low (high * 2 ^ k) ≡ low + high * 2 ^ k
bit_or_high zero low high h =
    let e : low ≡ 0 = omega arith in
    let e' : high * 2 ^ 0 ≡ high = omega arith in rw (e, e', zero-bit_or high) (omega arith)
bit_or_high (suc k) low high h = ground (
  arith,
  bit_or_digit low (high * 2 ^ suc k),
  double_shift high k,
  pow-suc 2 k,
  bit_or_high k (low / 2) high (omega (arith, pow-suc 2 k)),
)

-- `(high << k) | low`, the same with the fields in the other order.
pub bit_or_low : (k high low : ℕ) → low < 2 ^ k → bit_or (high * 2 ^ k) low ≡ high * 2 ^ k + low
bit_or_low zero high low h =
    let e : low ≡ 0 = omega arith in
    let e' : high * 2 ^ 0 ≡ high = omega arith in
    rw (e, e', bit_or-zero_below high high (omega arith)) (omega arith)
bit_or_low (suc k) high low h = ground (
  arith,
  bit_or_digit (high * 2 ^ suc k) low,
  double_shift high k,
  pow-suc 2 k,
  bit_or_low k high (low / 2) (omega (arith, pow-suc 2 k)),
)

differ-eq : (x y : ℕ) → differ x y ≡ 0 → x ≡ y
differ-eq zero y h = omega arith
differ-eq (suc x) zero h = absurd (omega arith)
differ-eq (suc x) (suc y) h = ap suc (differ-eq x y h)

bit_xor-eq_below : (n a b : ℕ) → a ≤ n → bit_xor a b ≡ 0 → a ≡ b
bit_xor-eq_below n zero b h e = omega (arith, bit_xor-bitwise 0 b)
bit_xor-eq_below zero (suc a) b h e = absurd (omega arith)
bit_xor-eq_below (suc n) (suc a) b h e = omega (
  arith,
  differ-eq (suc a % 2) (b % 2) (omega (arith, bit_xor_digit (suc a) b)),
  bit_xor-eq_below n (suc a / 2) (b / 2) (omega arith) (omega (arith, bit_xor_digit (suc a) b)),
)

-- Words whose exclusive or is zero are equal.
pub bit_xor-eq : (a b : ℕ) → bit_xor a b ≡ 0 → a ≡ b
bit_xor-eq a b e = bit_xor-eq_below a a b (omega arith) e

bit_xor_self_below : (n a : ℕ) → a ≤ n → bit_xor a a ≡ 0
bit_xor_self_below n zero h = refl
bit_xor_self_below zero (suc a) h = absurd (omega arith)
bit_xor_self_below (suc n) (suc a) h = omega (
  arith,
  bit_xor_digit (suc a) (suc a),
  differ_self (suc a % 2),
  bit_xor_self_below n (suc a / 2) (omega arith),
)
  where
    differ_self : (x : ℕ) → differ x x ≡ 0
    differ_self zero = refl
    differ_self (suc x) = differ_self x

pub bit_xor_self : (a : ℕ) → bit_xor a a ≡ 0
bit_xor_self a = bit_xor_self_below a a (omega arith)

pub differ-le : (x y : ℕ) → x ≤ 1 → y ≤ 1 → differ x y ≤ 1
differ-le zero y h h' = h'
differ-le (suc x) zero h h' = h
differ-le (suc x) (suc y) h h' = differ-le x y (omega arith) (omega arith)

-- The exclusive or of k-bit words is a k-bit word.
pub bit_xor-lt : (k a b : ℕ) → a < 2 ^ k → b < 2 ^ k → bit_xor a b < 2 ^ k
bit_xor-lt zero a b h h' =
    let e : a ≡ 0 = omega arith in
    let e' : b ≡ 0 = omega arith in rw (e, e') (omega (arith, bit_xor_self 0))
bit_xor-lt (suc k) a b h h' = omega (
  arith,
  bit_xor_digit a b,
  pow-suc 2 k,
  differ-le (a % 2) (b % 2) (omega arith) (omega arith),
  bit_xor-lt k (a / 2) (b / 2) (omega (arith, pow-suc 2 k)) (omega (arith, pow-suc 2 k)),
)

pub two_pow-pos : (n : ℕ) → 0 < 2 ^ n
two_pow-pos zero = omega arith
two_pow-pos (suc n) = omega (arith, pow-suc 2 n, two_pow-pos n)

pub double-mod : (x y : ℕ) → 0 < y → 2 * x % (2 * y) ≡ 2 * (x % y)
double-mod x y pos =
    let lt : 2 * (x % y) < 2 * y = omega (arith, mod-lt x {m = y} pos) in
    let e : 2 * x ≡ x / y * (2 * y) + 2 * (x % y) = grind (arith, div-add-mod' x y) in
    ap (λ t. t % (2 * y)) e ∙ mul-add-mod_self_right (x / y) (2 * y) (2 * (x % y)) ∙ mod-eq_of_lt lt

pub two_pow-add : (l d : ℕ) → 2 ^ (l + d) ≡ 2 ^ l * 2 ^ d
two_pow-add l zero = let e : l + 0 ≡ l = omega arith in rw e (omega arith)
two_pow-add l (suc d) =
    let e : l + suc d ≡ suc (l + d) = omega arith in
    rw e (omega (arith, pow-suc 2 (l + d), two_pow-add l d, double_shift (2 ^ l) d))
