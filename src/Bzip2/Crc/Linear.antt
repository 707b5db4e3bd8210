-- ===== src/Bzip2/Crc/Linear.antt =====
-- The checksum of src/bzip2/bzip2_crc.hpp is linear in exclusive or.
use orot.Base.{
  ℕ, zero, suc, ◌+◌, ◌*◌, ◌/◌, ◌%◌, ◌^◌, ◌≤◌, ◌<◌, ◌≡◌, refl, sym, ap, ◌∙◌, bit_xor, ◌==◌,
  if◌then◌else◌, arith, if-both,
}
use Prim.Native.Nat.{differ}
use native.Mathlib.Nat.{mod-eq_of_lt, mul-div_left, mul-mod_left, div-eq_of_lt}
use orot.Base.Bits.{bit_xor-lt, two_pow-pos}
use orot.Base.Digits.{shifted_mod}
use orot.Base.Xor.{xor_comm, xor_swap, xor_shift, xor-div, xor-mod, xor_parity, zero-xor, xor-zero}
use orot.Bzip2.Crc.{polynomial, crc_round, crc_rounds, crc32_table, crc32_update}

-- The polynomial of the bit that leaves.
abbrev pick : ℕ → ℕ
pick t = if t == 1 then polynomial else 0

pick-differ : (s t : ℕ) → s ≤ 1 → t ≤ 1 → pick (differ s t) ≡ bit_xor (pick s) (pick t)
pick-differ zero zero p q = refl
pick-differ zero (suc t) p q = let e : t ≡ 0 = omega arith in rw e refl
pick-differ (suc s) zero p q = let e : s ≡ 0 = omega arith in rw e refl
pick-differ (suc s) (suc t) p q =
    let e : s ≡ 0 = omega arith in let e' : t ≡ 0 = omega arith in rw (e, e') refl

crc_round_lem : (c : ℕ) → crc_round c ≡ bit_xor (c * 2 % 2 ^ 32) (pick (c / 2 ^ 31 % 2))
unfolding crc_round
crc_round_lem c =
    if-both (λ t. t ≡ bit_xor (c * 2 % 2 ^ 32) (pick (c / 2 ^ 31 % 2))) (c / 2 ^ 31 % 2 == 1) _ _
      (λ e. rw e refl) (λ e. rw (e, xor-zero (c * 2 % 2 ^ 32)) refl)

pick-lt : (t : ℕ) → pick t < 2 ^ 32
pick-lt t = if-both (λ n. n < 2 ^ 32) (t == 1) polynomial 0 (λ e. omega arith) (λ e. omega arith)

crc_round-lt : (c : ℕ) → crc_round c < 2 ^ 32
crc_round-lt c =
    rw (crc_round_lem c) (bit_xor-lt 32 (c * 2 % 2 ^ 32) _ (omega arith) (pick-lt (c / 2 ^ 31 % 2)))

crc_round-xor : (a b : ℕ) → crc_round (bit_xor a b) ≡ bit_xor (crc_round a) (crc_round b)
crc_round-xor a b =
    let double : bit_xor a b * 2 % 2 ^ 32 ≡ bit_xor (a * 2 % 2 ^ 32) (b * 2 % 2 ^ 32) =
      ap (λ t. t % 2 ^ 32) (sym (xor_shift 1 a b)) ∙ xor-mod 32 (a * 2) (b * 2) in
    let top : pick (bit_xor a b / 2 ^ 31 % 2)
        ≡ bit_xor (pick (a / 2 ^ 31 % 2)) (pick (b / 2 ^ 31 % 2)) =
      ap (λ t. pick (t % 2)) (xor-div 31 a b)
      ∙ ap pick (xor_parity (a / 2 ^ 31) (b / 2 ^ 31))
      ∙ pick-differ (a / 2 ^ 31 % 2) (b / 2 ^ 31 % 2) (omega arith) (omega arith) in
    crc_round_lem (bit_xor a b)
    ∙ ap (λ t. bit_xor t (pick (bit_xor a b / 2 ^ 31 % 2))) double
    ∙ ap (bit_xor (bit_xor (a * 2 % 2 ^ 32) (b * 2 % 2 ^ 32))) top
    ∙ xor_swap (a * 2 % 2 ^ 32) (b * 2 % 2 ^ 32) (pick (a / 2 ^ 31 % 2)) (pick (b / 2 ^ 31 % 2))
    ∙ ap (λ t. bit_xor t (bit_xor (b * 2 % 2 ^ 32) (pick (b / 2 ^ 31 % 2)))) (sym (crc_round_lem a))
    ∙ ap (bit_xor (crc_round a)) (sym (crc_round_lem b))

crc_rounds-xor :
    (j a b : ℕ) → crc_rounds j (bit_xor a b) ≡ bit_xor (crc_rounds j a) (crc_rounds j b)
unfolding crc_rounds
crc_rounds-xor zero a b = refl
crc_rounds-xor (suc j) a b =
    ap (crc_rounds j) (crc_round-xor a b) ∙ crc_rounds-xor j (crc_round a) (crc_round b)

crc_rounds-lt : (j c : ℕ) → c < 2 ^ 32 → crc_rounds j c < 2 ^ 32
unfolding crc_rounds
crc_rounds-lt zero c lt = lt
crc_rounds-lt (suc j) c lt = crc_rounds-lt j (crc_round c) (crc_round-lt c)

-- Eight rounds: what a zero byte does to the checksum.
abbrev pub turn : ℕ → ℕ
turn c = crc_rounds 8 c

pub turn-lt : (c : ℕ) → c < 2 ^ 32 → turn c < 2 ^ 32
turn-lt c lt = crc_rounds-lt 8 c lt

pub turn-xor : (a b : ℕ) → turn (bit_xor a b) ≡ bit_xor (turn a) (turn b)
turn-xor a b = crc_rounds-xor 8 a b

round_small : (c : ℕ) → c < 2 ^ 31 → crc_round c ≡ c * 2
unfolding crc_round
round_small c lt = let e : c / 2 ^ 31 % 2 ≡ 0 = omega arith in rw e (omega arith)

pub turn_low : (c : ℕ) → c < 2 ^ 24 → turn c ≡ c * 2 ^ 8
unfolding crc_rounds
turn_low c lt =
    rw
      (
        round_small c (omega arith),
        round_small (c * 2) (omega arith),
        round_small (c * 2 * 2) (omega arith),
        round_small (c * 2 * 2 * 2) (omega arith),
        round_small (c * 2 * 2 * 2 * 2) (omega arith),
        round_small (c * 2 * 2 * 2 * 2 * 2) (omega arith),
        round_small (c * 2 * 2 * 2 * 2 * 2 * 2) (omega arith),
        round_small (c * 2 * 2 * 2 * 2 * 2 * 2 * 2) (omega arith),
      )
      (omega arith)

-- A byte above 24 lower bits.
pub disjoint : (h l : ℕ) → l < 2 ^ 24 → bit_xor (h * 2 ^ 24) l ≡ h * 2 ^ 24 + l
disjoint h l lt =
    let high : bit_xor (h * 2 ^ 24) l / 2 ^ 24 ≡ h =
      xor-div 24 (h * 2 ^ 24) l
      ∙ ap (λ t. bit_xor t (l / 2 ^ 24)) (mul-div_left h (two_pow-pos 24))
      ∙ ap (bit_xor h) (div-eq_of_lt lt)
      ∙ xor-zero h in
    let low : bit_xor (h * 2 ^ 24) l % 2 ^ 24 ≡ l =
      xor-mod 24 (h * 2 ^ 24) l
      ∙ ap (λ t. bit_xor t (l % 2 ^ 24)) (mul-mod_left h (2 ^ 24))
      ∙ zero-xor (l % 2 ^ 24)
      ∙ mod-eq_of_lt lt in
    omega (arith, high, low)

pub turn_parts : (c : ℕ) → turn c ≡ bit_xor (c % 2 ^ 24 * 2 ^ 8) (crc32_table (c / 2 ^ 24))
unfolding crc32_table
turn_parts c =
    let parts : c ≡ bit_xor (c / 2 ^ 24 * 2 ^ 24) (c % 2 ^ 24) =
      sym (disjoint (c / 2 ^ 24) (c % 2 ^ 24) (omega arith) ∙ omega arith) in
    ap turn parts
    ∙ turn-xor (c / 2 ^ 24 * 2 ^ 24) (c % 2 ^ 24)
    ∙ ap (bit_xor (turn (c / 2 ^ 24 * 2 ^ 24))) (turn_low (c % 2 ^ 24) (omega arith))
    ∙ xor_comm (turn (c / 2 ^ 24 * 2 ^ 24)) (c % 2 ^ 24 * 2 ^ 8)

-- A byte goes to the top of the word, and the word takes a turn.
pub crc32_update-turn :
    (crc byte : ℕ)
    → crc < 2 ^ 32
    → byte < 256
    → crc32_update crc byte ≡ turn (bit_xor crc (byte * 2 ^ 24))
unfolding crc32_update
crc32_update-turn crc byte lt lt' =
    let y = bit_xor crc (byte * 2 ^ 24) in
    let high : y / 2 ^ 24 ≡ bit_xor (crc / 2 ^ 24) byte =
      xor-div 24 crc (byte * 2 ^ 24)
      ∙ ap (bit_xor (crc / 2 ^ 24)) (mul-div_left byte (two_pow-pos 24)) in
    let low : y % 2 ^ 24 ≡ crc % 2 ^ 24 =
      xor-mod 24 crc (byte * 2 ^ 24)
      ∙ ap (bit_xor (crc % 2 ^ 24)) (mul-mod_left byte (2 ^ 24))
      ∙ xor-zero (crc % 2 ^ 24) in
    let index : bit_xor (crc / 2 ^ 24) byte % 256 ≡ bit_xor (crc / 2 ^ 24) byte =
      mod-eq_of_lt (bit_xor-lt 8 (crc / 2 ^ 24) byte (omega arith) lt') in
    let shift : crc * 2 ^ 8 % 2 ^ 32 ≡ crc % 2 ^ 24 * 2 ^ 8 = shifted_mod 8 24 crc in
    ap (λ t. bit_xor t (crc32_table (bit_xor (crc / 2 ^ 24) byte % 256))) shift
    ∙ ap (λ t. bit_xor (crc % 2 ^ 24 * 2 ^ 8) (crc32_table t)) (index ∙ sym high)
    ∙ ap (λ t. bit_xor (t * 2 ^ 8) (crc32_table (y / 2 ^ 24))) (sym low)
    ∙ sym (turn_parts y)
