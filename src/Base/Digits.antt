-- ===== src/Base/Digits.antt =====
-- The binary digits of numbers and bytes, the highest first.
use Prim.Native.Nat.{ℕ, zero, suc, ◌+◌, ◌-◌, ◌*◌, ◌/◌, ◌%◌, ◌^◌, ◌≤◌, ◌<◌, bit_or}
use mathlib.Core.Path.{◌≡◌, refl, sym, ap, ◌∙◌}
use mathlib.Core.List.{List, [], ◌∷◌, ◌++◌, append_assoc, append-nil}
use native.Mathlib.Omega.{arith}
use native.Mathlib.Nat.{pow-suc, div-div-eq-div-mul, div-add-mod', mul-add-div_right, div-eq_of_lt}
use orot.Base.Lists.{length, replicate, take, drop, length-append, take-append, drop-append}
use orot.Base.Bits.{double_shift, bit_or_low, double-mod, two_pow-pos}

-- The n lowest digits of a number.
abbrev pub bits : ℕ → ℕ → List ℕ
bits zero v = []
bits (suc n) v = bits n (v / 2) ++ (v % 2 ∷ [])

abbrev pub byte_bits : List ℕ → List ℕ
byte_bits [] = []
byte_bits (b ∷ bytes) = bits 8 b ++ byte_bits bytes

pub length-bits : (n v : ℕ) → length (bits n v) ≡ n
length-bits zero v = refl
length-bits (suc n) v =
    omega (arith, length-append (bits n (v / 2)) (v % 2 ∷ []), length-bits n (v / 2))

pub byte_bits-append : (xs ys : List ℕ) → byte_bits (xs ++ ys) ≡ byte_bits xs ++ byte_bits ys
byte_bits-append [] ys = refl
byte_bits-append (x ∷ xs) ys =
    ap (λ t. bits 8 x ++ t) (byte_bits-append xs ys)
    ∙ sym (append_assoc (bits 8 x) (byte_bits xs) (byte_bits ys))

-- The upper digits are those of the quotient.
pub bits_split : (a b v : ℕ) → bits (a + b) v ≡ bits a (v / 2 ^ b) ++ bits b v
bits_split a zero v =
    let e : a + 0 ≡ a = omega arith in
    let e' : v / 2 ^ 0 ≡ v = omega arith in rw (e, e') (sym (append-nil (bits a v)))
bits_split a (suc b) v =
    let e : a + suc b ≡ suc (a + b) = omega arith in
    let e' : v / 2 / 2 ^ b ≡ v / 2 ^ suc b =
      div-div-eq-div-mul v 2 (2 ^ b) ∙ ap (λ t. v / t) (omega (arith, pow-suc 2 b)) in
    rw (e) (
      ap (λ t. t ++ (v % 2 ∷ [])) (bits_split a b (v / 2) ∙ ap (λ t. bits a t ++ bits b (v / 2)) e')
      ∙ append_assoc (bits a (v / 2 ^ suc b)) (bits b (v / 2)) (v % 2 ∷ []))

-- What stands above the n lowest digits does not matter.
pub bits_above : (n m q r : ℕ) → n ≤ m → bits n (q * 2 ^ m + r) ≡ bits n r
bits_above zero m q r le = refl
bits_above (suc n) zero q r le = absurd (omega arith)
bits_above (suc n) (suc m) q r le =
    let half : (q * 2 ^ suc m + r) / 2 ≡ q * 2 ^ m + r / 2 = omega (arith, double_shift q m) in
    let low : (q * 2 ^ suc m + r) % 2 ≡ r % 2 = omega (arith, double_shift q m) in
    rw (half, low) (ap (λ t. t ++ (r % 2 ∷ [])) (bits_above n m q (r / 2) (omega arith)))

pub bits-mod : (n m v : ℕ) → n ≤ m → bits n (v % 2 ^ m) ≡ bits n v
bits-mod n m v le =
    sym (bits_above n m (v / 2 ^ m) (v % 2 ^ m) le) ∙ ap (bits n) (div-add-mod' v (2 ^ m))

pub bits-zero : (n : ℕ) → bits n 0 ≡ replicate n 0
bits-zero zero = refl
bits-zero (suc n) = ap (λ t. ◌++◌ {A = ℕ} t (0 ∷ [])) (bits-zero n) ∙ zeros n
  where
    zeros : (n : ℕ) → ◌++◌ {A = ℕ} (replicate n 0) (0 ∷ []) ≡ replicate (suc n) 0
    zeros zero = refl
    zeros (suc n) = ap (◌∷◌ 0) (zeros n)

abbrev pub from_bits : ℕ → List ℕ → ℕ
from_bits acc [] = acc
from_bits acc (x ∷ xs) = from_bits (acc * 2 + x) xs

from_bits_snoc :
    (acc : ℕ) (xs : List ℕ) (x : ℕ) → from_bits acc (xs ++ (x ∷ [])) ≡ from_bits acc xs * 2 + x
from_bits_snoc acc [] x = refl
from_bits_snoc acc (y ∷ xs) x = from_bits_snoc (acc * 2 + y) xs x

pub from_bits-bits : (n v : ℕ) → v < 2 ^ n → from_bits 0 (bits n v) ≡ v
from_bits-bits zero v lt = omega arith
from_bits-bits (suc n) v lt = omega (
  arith,
  from_bits_snoc 0 (bits n (v / 2)) (v % 2),
  from_bits-bits n (v / 2) (omega (arith, pow-suc 2 n)),
)

-- Equal streams that begin with a field of the same width: equal values, and equal rests.
pub bits-append_inj :
    (n v w : ℕ) (xs ys : List ℕ)
    → v < 2 ^ n
    → w < 2 ^ n
    → bits n v ++ xs ≡ bits n w ++ ys
    → (v ≡ w) × (xs ≡ ys)
bits-append_inj n v w xs ys lt lt' e =
    let heads : bits n v ≡ bits n w =
      sym (take-append (bits n v) xs)
      ∙ ap (λ t. take t (bits n v ++ xs)) (length-bits n v ∙ sym (length-bits n w))
      ∙ ap (take (length (bits n w))) e
      ∙ take-append (bits n w) ys in
    (
      sym (from_bits-bits n v lt) ∙ ap (from_bits 0) heads ∙ from_bits-bits n w lt',
      sym (drop-append (bits n v) xs)
          ∙ ap (λ t. drop t (bits n v ++ xs)) (length-bits n v ∙ sym (length-bits n w))
          ∙ ap (drop (length (bits n w))) e
          ∙ drop-append (bits n w) ys,
    )

-- A shift to the left drops what leaves the word.
pub shifted_mod : (n m x : ℕ) → x * 2 ^ n % 2 ^ (n + m) ≡ x % 2 ^ m * 2 ^ n
shifted_mod zero m x =
    let e : 0 + m ≡ m = omega arith in
    let e' : x * 2 ^ 0 ≡ x = omega arith in rw (e, e') (omega arith)
shifted_mod (suc n) m x =
    let e : suc n + m ≡ suc (n + m) = omega arith in
    let e' : 2 ^ suc (n + m) ≡ 2 * 2 ^ (n + m) = omega (arith, pow-suc 2 (n + m)) in
    rw (e, double_shift x n, e')
      (double-mod (x * 2 ^ n) (2 ^ (n + m)) (two_pow-pos (n + m))
        ∙ ap (λ (t : ℕ). 2 * t) (shifted_mod n m x)
        ∙ sym (double_shift (x % 2 ^ m) n))

-- ((buf << n) | v) on a uint64_t: the digits of v behind those of buf.
pub bits_shift_or :
    (k n buf v : ℕ)
    → k + n ≤ 64
    → v < 2 ^ n
    → bits (k + n) (bit_or (buf * 2 ^ n % 2 ^ 64) v) ≡ bits k buf ++ bits n v
bits_shift_or k n buf v le lt =
    let m : ℕ = 64 - n in
    let e : 64 ≡ n + m = omega arith in
    let word : bit_or (buf * 2 ^ n % 2 ^ 64) v ≡ buf % 2 ^ m * 2 ^ n + v =
      ap (λ t. bit_or (buf * 2 ^ n % 2 ^ t) v) e
      ∙ ap (λ t. bit_or t v) (shifted_mod n m buf)
      ∙ bit_or_low n (buf % 2 ^ m) v lt in
    let high : (buf % 2 ^ m * 2 ^ n + v) / 2 ^ n ≡ buf % 2 ^ m =
      mul-add-div_right (two_pow-pos n) (buf % 2 ^ m) v
      ∙ ap (λ (t : ℕ). buf % 2 ^ m + t) (div-eq_of_lt lt)
      ∙ omega arith in
    ap (bits (k + n)) word
    ∙ bits_split k n (buf % 2 ^ m * 2 ^ n + v)
    ∙ ap (λ t. bits k t ++ bits n (buf % 2 ^ m * 2 ^ n + v)) high
    ∙ ap (λ t. bits k (buf % 2 ^ m) ++ t) (bits_above n n (buf % 2 ^ m) v (omega arith))
    ∙ ap (λ t. t ++ bits n v) (bits-mod k m buf (omega arith))
