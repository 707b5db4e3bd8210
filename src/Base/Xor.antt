-- ===== src/Base/Xor.antt =====
-- The laws of exclusive or, by its digits.
use Prim.Native.Nat.{
  ℕ, zero, suc, ◌+◌, ◌*◌, ◌/◌, ◌%◌, ◌^◌, ◌≤◌, ◌<◌, differ, bit_xor, bit_xor-bitwise,
}
use mathlib.Core.Path.{◌≡◌, refl, sym, ap, ◌∙◌}
use native.Mathlib.Omega.{arith}
use native.Mathlib.Nat.{
  pow-suc, div-div-eq-div-mul, div-add-mod', mod-lt, mod-eq_of_lt, mul-add-mod_self_right,
}
use orot.Base.Bits.{bit_xor_digit, differ-le, double_shift, two_pow-pos}

parity : (a : ℕ) → a % 2 ≤ 1
parity a = omega arith

pub xor_half : (a b : ℕ) → bit_xor a b / 2 ≡ bit_xor (a / 2) (b / 2)
xor_half a b = omega (arith, bit_xor_digit a b, differ-le (a % 2) (b % 2) (parity a) (parity b))

pub xor_parity : (a b : ℕ) → bit_xor a b % 2 ≡ differ (a % 2) (b % 2)
xor_parity a b = omega (arith, bit_xor_digit a b, differ-le (a % 2) (b % 2) (parity a) (parity b))

digits_eq : (a b : ℕ) → a / 2 ≡ b / 2 → a % 2 ≡ b % 2 → a ≡ b
digits_eq a b h l = omega arith

differ_comm : (x y : ℕ) → differ x y ≡ differ y x
differ_comm zero zero = refl
differ_comm zero (suc y) = refl
differ_comm (suc x) zero = refl
differ_comm (suc x) (suc y) = differ_comm x y

differ_assoc : (x y z : ℕ) → x ≤ 1 → y ≤ 1 → z ≤ 1 → differ (differ x y) z ≡ differ x (differ y z)
differ_assoc zero y z p q r = refl
differ_assoc (suc x) zero z p q r = refl
differ_assoc (suc x) (suc y) zero p q r =
    let e : x ≡ 0 = omega arith in let e' : y ≡ 0 = omega arith in rw (e, e') refl
differ_assoc (suc x) (suc y) (suc z) p q r =
    let e : x ≡ 0 = omega arith in
    let e' : y ≡ 0 = omega arith in let e'' : z ≡ 0 = omega arith in rw (e, e', e'') refl

comm_below : (n a b : ℕ) → a ≤ n → b ≤ n → bit_xor a b ≡ bit_xor b a
comm_below zero a b p q =
    let e : a ≡ 0 = omega arith in let e' : b ≡ 0 = omega arith in rw (e, e') refl
comm_below (suc n) a b p q =
    digits_eq (bit_xor a b) (bit_xor b a)
      (xor_half a b ∙ comm_below n (a / 2) (b / 2) (omega arith) (omega arith) ∙ sym (xor_half b a))
      (xor_parity a b ∙ differ_comm (a % 2) (b % 2) ∙ sym (xor_parity b a))

pub xor_comm : (a b : ℕ) → bit_xor a b ≡ bit_xor b a
xor_comm a b = comm_below (a + b) a b (omega arith) (omega arith)

assoc_below :
    (n a b c : ℕ) → a ≤ n → b ≤ n → c ≤ n → bit_xor (bit_xor a b) c ≡ bit_xor a (bit_xor b c)
assoc_below zero a b c p q r =
    let e : a ≡ 0 = omega arith in
    let e' : b ≡ 0 = omega arith in let e'' : c ≡ 0 = omega arith in rw (e, e', e'') refl
assoc_below (suc n) a b c p q r =
    digits_eq (bit_xor (bit_xor a b) c) (bit_xor a (bit_xor b c))
      (xor_half (bit_xor a b) c
        ∙ ap (λ t. bit_xor t (c / 2)) (xor_half a b)
        ∙ assoc_below n (a / 2) (b / 2) (c / 2) (omega arith) (omega arith) (omega arith)
        ∙ ap (bit_xor (a / 2)) (sym (xor_half b c))
        ∙ sym (xor_half a (bit_xor b c)))
      (xor_parity (bit_xor a b) c
        ∙ ap (λ t. differ t (c % 2)) (xor_parity a b)
        ∙ differ_assoc (a % 2) (b % 2) (c % 2) (parity a) (parity b) (parity c)
        ∙ ap (differ (a % 2)) (sym (xor_parity b c))
        ∙ sym (xor_parity a (bit_xor b c)))

pub xor_assoc : (a b c : ℕ) → bit_xor (bit_xor a b) c ≡ bit_xor a (bit_xor b c)
xor_assoc a b c = assoc_below (a + b + c) a b c (omega arith) (omega arith) (omega arith)

pub zero-xor : (a : ℕ) → bit_xor 0 a ≡ a
zero-xor a = bit_xor-bitwise 0 a

pub xor-zero : (a : ℕ) → bit_xor a 0 ≡ a
xor-zero a = xor_comm a 0 ∙ zero-xor a

-- Two sums, term by term.
pub xor_swap :
    (a b c d : ℕ) → bit_xor (bit_xor a b) (bit_xor c d) ≡ bit_xor (bit_xor a c) (bit_xor b d)
xor_swap a b c d =
    xor_assoc a b (bit_xor c d)
    ∙ ap (bit_xor a)
        (sym (xor_assoc b c d) ∙ ap (λ t. bit_xor t d) (xor_comm b c) ∙ xor_assoc c b d)
    ∙ sym (xor_assoc a c (bit_xor b d))

pub xor_shift : (k a b : ℕ) → bit_xor (a * 2 ^ k) (b * 2 ^ k) ≡ bit_xor a b * 2 ^ k
xor_shift zero a b =
    let e : a * 2 ^ 0 ≡ a = omega arith in
    let e' : b * 2 ^ 0 ≡ b = omega arith in rw (e, e') (omega arith)
xor_shift (suc k) a b =
    let e : 2 * (a * 2 ^ k) / 2 ≡ a * 2 ^ k = omega arith in
    let e' : 2 * (b * 2 ^ k) / 2 ≡ b * 2 ^ k = omega arith in
    let p : 2 * (a * 2 ^ k) % 2 ≡ 0 = omega arith in
    let p' : 2 * (b * 2 ^ k) % 2 ≡ 0 = omega arith in
    rw (double_shift a k, double_shift b k, double_shift (bit_xor a b) k)
      (bit_xor_digit (2 * (a * 2 ^ k)) (2 * (b * 2 ^ k))
        ∙ rw (e, e', p, p') (omega (arith, xor_shift k a b)))

pub xor-div : (k a b : ℕ) → bit_xor a b / 2 ^ k ≡ bit_xor (a / 2 ^ k) (b / 2 ^ k)
xor-div zero a b =
    let e : a / 2 ^ 0 ≡ a = omega arith in
    let e' : b / 2 ^ 0 ≡ b = omega arith in rw (e, e') (omega arith)
xor-div (suc k) a b =
    half (bit_xor a b)
    ∙ ap (λ t. t / 2 ^ k) (xor_half a b)
    ∙ xor-div k (a / 2) (b / 2)
    ∙ rw (half a, half b) refl
  where
    half : (x : ℕ) → x / 2 ^ suc k ≡ x / 2 / 2 ^ k
    half x = ap (λ t. x / t) (omega (arith, pow-suc 2 k)) ∙ sym (div-div-eq-div-mul x 2 (2 ^ k))

-- The digits below 2 ^ k, from the halves.
pub mod_digit : (k x : ℕ) → x % 2 ^ suc k ≡ 2 * (x / 2 % 2 ^ k) + x % 2
mod_digit k x =
    let y : ℕ = 2 ^ k in
    let h : ℕ = x / 2 in
    let pos : 0 < y = two_pow-pos k in
    let lt : 2 * (h % y) + x % 2 < 2 * y = omega (arith, mod-lt h {m = y} pos) in
    let e : x ≡ h / y * (2 * y) + (2 * (h % y) + x % 2) = grind (arith, div-add-mod' h y) in
    let e' : 2 ^ suc k ≡ 2 * y = omega (arith, pow-suc 2 k) in
    ap (λ t. x % t) e'
    ∙ ap (λ t. t % (2 * y)) e
    ∙ mul-add-mod_self_right (h / y) (2 * y) (2 * (h % y) + x % 2)
    ∙ mod-eq_of_lt lt

pub xor-mod : (k a b : ℕ) → bit_xor a b % 2 ^ k ≡ bit_xor (a % 2 ^ k) (b % 2 ^ k)
xor-mod zero a b =
    let e : a % 2 ^ 0 ≡ 0 = omega arith in
    let e' : b % 2 ^ 0 ≡ 0 = omega arith in rw (e, e') (omega arith)
xor-mod (suc k) a b =
    let l : ℕ = a / 2 % 2 ^ k in
    let r : ℕ = b / 2 % 2 ^ k in
    let e : (2 * l + a % 2) / 2 ≡ l = omega arith in
    let e' : (2 * r + b % 2) / 2 ≡ r = omega arith in
    let p : (2 * l + a % 2) % 2 ≡ a % 2 = omega arith in
    let p' : (2 * r + b % 2) % 2 ≡ b % 2 = omega arith in
    let d : bit_xor (2 * l + a % 2) (2 * r + b % 2) ≡ bit_xor l r * 2 + differ (a % 2) (b % 2) =
      bit_xor_digit (2 * l + a % 2) (2 * r + b % 2) ∙ rw (e, e', p, p') refl in
    mod_digit k (bit_xor a b)
    ∙ rw (xor_half a b, xor_parity a b, xor-mod k (a / 2) (b / 2), mod_digit k a, mod_digit k b)
        (omega (arith, d))
