-- ===== src/Bzip2/Crc/Slices.antt =====
-- The slices of eight bytes in src/bzip2/bzip2_crc.hpp are eight single updates.
use orot.Base.{
  ℕ, zero, suc, ◌*◌, ◌/◌, ◌%◌, ◌^◌, ◌<◌, ◌≡◌, refl, sym, ap, ◌∙◌, bit_xor, List, [], ◌∷◌, ◌++◌,
  arith, length, All,
}
use native.Mathlib.Nat.{mod-eq_of_lt}
use orot.Base.Bits.{bit_xor-lt}
use orot.Base.Digits.{shifted_mod}
use orot.Base.Xor.{xor_comm, xor_assoc, xor_shift, xor-mod, zero-xor, xor-zero}
use orot.Bzip2.Crc.{crc32_table, crc32_tables, crc32_update, update_each, update_slice}
use orot.Bzip2.Crc.Linear.{
  turn, turn_low, disjoint, turn-lt, turn-xor, turn_parts, crc32_update-turn,
}

-- n turns.
abbrev turns : ℕ → ℕ → ℕ
turns zero c = c
turns (suc n) c = turn (turns n c)

turns-lt : (n c : ℕ) → c < 2 ^ 32 → turns n c < 2 ^ 32
turns-lt zero c lt = lt
turns-lt (suc n) c lt = turn-lt (turns n c) (turns-lt n c lt)

turns-xor : (n a b : ℕ) → turns n (bit_xor a b) ≡ bit_xor (turns n a) (turns n b)
turns-xor zero a b = refl
turns-xor (suc n) a b = ap turn (turns-xor n a b) ∙ turn-xor (turns n a) (turns n b)

turns_first : (n c : ℕ) → turns n (turn c) ≡ turns (suc n) c
turns_first zero c = refl
turns_first (suc n) c = ap turn (turns_first n c)

-- An entry of a table is a byte at the top of a word, some turns later.
crc32_tables-turns : (n i : ℕ) → i < 256 → crc32_tables n i ≡ turns (suc n) (i * 2 ^ 24)
unfolding crc32_tables crc32_table
crc32_tables-turns zero i lt = refl
crc32_tables-turns (suc n) i lt =
    let c = turns (suc n) (i * 2 ^ 24) in
    rw (crc32_tables-turns n i lt)
      (ap (λ t. bit_xor t (crc32_table (c / 2 ^ 24))) (shifted_mod 8 24 c) ∙ sym (turn_parts c))

pub crc32_update-lt : (c x : ℕ) → c < 2 ^ 32 → x < 256 → crc32_update c x < 2 ^ 32
crc32_update-lt c x lt lt' =
    rw (crc32_update-turn c x lt lt')
      (turn-lt (bit_xor c (x * 2 ^ 24)) (bit_xor-lt 32 c (x * 2 ^ 24) lt (omega arith)))

-- What the bytes add to the checksum does not depend on where it stood.
update_each-turns :
    (xs : List ℕ) (c : ℕ)
    → All (λ x. x < 256) xs
    → c < 2 ^ 32
    → update_each c xs ≡ bit_xor (turns (length xs) c) (update_each 0 xs)
unfolding update_each
update_each-turns [] c h lt = sym (xor-zero c)
update_each-turns (x ∷ xs) c h lt =
    let n = length xs in
    let b : ℕ = x * 2 ^ 24 in
    let start : crc32_update 0 x ≡ turn b =
      crc32_update-turn 0 x (omega arith) h.0 ∙ ap turn (zero-xor b) in
    let tail = update_each 0 xs in
    update_each-turns xs (crc32_update c x) h.1 (crc32_update-lt c x lt h.0)
    ∙ ap (λ t. bit_xor (turns n t) tail) (crc32_update-turn c x lt h.0 ∙ turn-xor c b)
    ∙ ap (λ t. bit_xor t tail) (turns-xor n (turn c) (turn b))
    ∙ xor_assoc (turns n (turn c)) (turns n (turn b)) tail
    ∙ ap (λ t. bit_xor t (bit_xor (turns n (turn b)) tail)) (turns_first n c)
    ∙ ap (bit_xor (turns (suc n) c)) (
        ap (λ t. bit_xor (turns n t) tail) (sym start)
        ∙ sym (update_each-turns xs (crc32_update 0 x) h.1 (crc32_update-lt 0 x (omega arith) h.0)))

-- The first byte of a slice is looked up in the table of its place.
update_each-table :
    (x : ℕ) (xs : List ℕ)
    → All (λ x. x < 256) (x ∷ xs)
    → update_each 0 (x ∷ xs) ≡ bit_xor (crc32_tables (length xs) x) (update_each 0 xs)
unfolding update_each
update_each-table x xs h =
    update_each-turns xs (crc32_update 0 x) h.1 (crc32_update-lt 0 x (omega arith) h.0)
    ∙ ap (λ t. bit_xor (turns (length xs) t) (update_each 0 xs))
        (crc32_update-turn 0 x (omega arith) h.0 ∙ ap turn (zero-xor (x * 2 ^ 24)))
    ∙ ap (λ t. bit_xor t (update_each 0 xs))
        (turns_first (length xs) (x * 2 ^ 24) ∙ sym (crc32_tables-turns (length xs) x h.0))

-- Sums that lean to the left, as in the source, and to the right.
abbrev sum_left : ℕ → List ℕ → ℕ
sum_left acc [] = acc
sum_left acc (x ∷ xs) = sum_left (bit_xor acc x) xs

abbrev sum_right : List ℕ → ℕ
sum_right [] = 0
sum_right (x ∷ xs) = bit_xor x (sum_right xs)

sum_left-sum_right : (acc : ℕ) (xs : List ℕ) → sum_left acc xs ≡ bit_xor acc (sum_right xs)
sum_left-sum_right acc [] = sym (xor-zero acc)
sum_left-sum_right acc (x ∷ xs) =
    sum_left-sum_right (bit_xor acc x) xs ∙ xor_assoc acc x (sum_right xs)

abbrev lookups : List ℕ → List ℕ
lookups [] = []
lookups (x ∷ xs) = crc32_tables (length xs) x ∷ lookups xs

update_each-lookups :
    (xs : List ℕ) → All (λ x. x < 256) xs → update_each 0 xs ≡ sum_right (lookups xs)
unfolding update_each
update_each-lookups [] h = refl
update_each-lookups (x ∷ xs) h =
    update_each-table x xs h
    ∙ ap (bit_xor (crc32_tables (length xs) x)) (update_each-lookups xs h.1)

-- A word beside the checksum: its top byte joins the next one.
feed :
    (s w x : ℕ)
    → s < 2 ^ 32
    → w < 2 ^ 32
    → x < 256
    → crc32_update (bit_xor s w) x
      ≡ bit_xor (crc32_update s (bit_xor (w / 2 ^ 24) x)) (w % 2 ^ 24 * 2 ^ 8)
feed s w x ls lw lx =
    let hi : ℕ = w / 2 ^ 24 in
    let lo : ℕ = w % 2 ^ 24 in
    let h : ℕ = hi * 2 ^ 24 in
    let b : ℕ = x * 2 ^ 24 in
    let parts : w ≡ bit_xor h lo = sym (disjoint hi lo (omega arith) ∙ omega arith) in
    let join : bit_xor hi x * 2 ^ 24 ≡ bit_xor h b = sym (xor_shift 24 hi x) in
    let order : bit_xor (bit_xor s (bit_xor h lo)) b ≡ bit_xor (bit_xor s (bit_xor h b)) lo =
      xor_assoc s (bit_xor h lo) b
      ∙ ap (bit_xor s) (xor_assoc h lo b ∙ ap (bit_xor h) (xor_comm lo b) ∙ sym (xor_assoc h b lo))
      ∙ sym (xor_assoc s (bit_xor h b) lo) in
    crc32_update-turn (bit_xor s w) x (bit_xor-lt 32 s w ls lw) lx
    ∙ ap (λ t. turn (bit_xor (bit_xor s t) b)) parts
    ∙ ap turn order
    ∙ turn-xor (bit_xor s (bit_xor h b)) lo
    ∙ ap (bit_xor (turn (bit_xor s (bit_xor h b)))) (turn_low lo (omega arith))
    ∙ ap (λ t. bit_xor (turn (bit_xor s t)) (lo * 2 ^ 8)) (sym join)
    ∙ ap (λ t. bit_xor t (lo * 2 ^ 8))
        (sym (crc32_update-turn s (bit_xor hi x) ls (bit_xor-lt 8 hi x (omega arith) lx)))

-- The index of a lookup: a byte of the checksum and a byte of the data.
index_lem : (c d w : ℕ) → d < 256 → w ≡ c % 256 → bit_xor c d % 256 ≡ bit_xor w d
index_lem c d w lt e =
    xor-mod 8 c d ∙ ap (bit_xor (c % 256)) (mod-eq_of_lt lt) ∙ ap (λ t. bit_xor t d) (sym e)

-- The four bytes of the checksum join the first four bytes of the data.
update_each-joined :
    (c d0 d1 d2 d3 : ℕ) (rest : List ℕ)
    → c < 2 ^ 32
    → All (λ x. x < 256) (d0 ∷ d1 ∷ d2 ∷ d3 ∷ [])
    → update_each c (d0 ∷ d1 ∷ d2 ∷ d3 ∷ rest)
      ≡ update_each 0 (
          bit_xor (c / 2 ^ 24) d0 % 256
          ∷ bit_xor (c / 2 ^ 16) d1 % 256
          ∷ bit_xor (c / 2 ^ 8) d2 % 256
          ∷ bit_xor c d3 % 256
          ∷ rest)
unfolding update_each
update_each-joined c d0 d1 d2 d3 rest lt h =
    let w1 : ℕ = c % 2 ^ 24 * 2 ^ 8 in
    let w2 : ℕ = w1 % 2 ^ 24 * 2 ^ 8 in
    let w3 : ℕ = w2 % 2 ^ 24 * 2 ^ 8 in
    let i0 = index_lem (c / 2 ^ 24) d0 (c / 2 ^ 24) h.0 (omega arith) in
    let i1 = index_lem (c / 2 ^ 16) d1 (w1 / 2 ^ 24) h.1.0 (omega arith) in
    let i2 = index_lem (c / 2 ^ 8) d2 (w2 / 2 ^ 24) h.1.1.0 (omega arith) in
    let i3 = index_lem c d3 (w3 / 2 ^ 24) h.1.1.1.0 (omega arith) in
    let y0 : ℕ = bit_xor (c / 2 ^ 24) d0 in
    let y1 : ℕ = bit_xor (w1 / 2 ^ 24) d1 in
    let y2 : ℕ = bit_xor (w2 / 2 ^ 24) d2 in
    let s1 : ℕ = crc32_update 0 y0 in
    let s2 : ℕ = crc32_update s1 y1 in
    let s3 : ℕ = crc32_update s2 y2 in
    let l1 : s1 < 2 ^ 32 =
      crc32_update-lt 0 y0 (omega arith) (bit_xor-lt 8 (c / 2 ^ 24) d0 (omega arith) h.0) in
    let l2 : s2 < 2 ^ 32 =
      crc32_update-lt s1 y1 l1 (bit_xor-lt 8 (w1 / 2 ^ 24) d1 (omega arith) h.1.0) in
    let l3 : s3 < 2 ^ 32 =
      crc32_update-lt s2 y2 l2 (bit_xor-lt 8 (w2 / 2 ^ 24) d2 (omega arith) h.1.1.0) in
    let f0 : crc32_update c d0 ≡ bit_xor s1 w1 =
      ap (λ t. crc32_update t d0) (sym (zero-xor c)) ∙ feed 0 c d0 (omega arith) lt h.0 in
    let f1 = feed s1 w1 d1 l1 (omega arith) h.1.0 in
    let f2 = feed s2 w2 d2 l2 (omega arith) h.1.1.0 in
    let f3 = feed s3 w3 d3 l3 (omega arith) h.1.1.1.0 in
    let none : w3 % 2 ^ 24 * 2 ^ 8 ≡ 0 = omega arith in
    ap (λ t. update_each (crc32_update (crc32_update (crc32_update t d1) d2) d3) rest) f0
    ∙ ap (λ t. update_each (crc32_update (crc32_update t d2) d3) rest) f1
    ∙ ap (λ t. update_each (crc32_update t d3) rest) f2
    ∙ ap (λ t. update_each t rest)
        (f3
          ∙ ap (bit_xor (crc32_update s3 (bit_xor (w3 / 2 ^ 24) d3))) none
          ∙ xor-zero (crc32_update s3 (bit_xor (w3 / 2 ^ 24) d3)))
    ∙ rw (i0, i1, i2, i3) refl

-- A slice is eight updates.
pub update_slice_lem :
    (c d0 d1 d2 d3 d4 d5 d6 d7 : ℕ)
    → c < 2 ^ 32
    → All (λ x. x < 256) (d0 ∷ d1 ∷ d2 ∷ d3 ∷ d4 ∷ d5 ∷ d6 ∷ d7 ∷ [])
    → update_slice c d0 d1 d2 d3 d4 d5 d6 d7
      ≡ update_each c (d0 ∷ d1 ∷ d2 ∷ d3 ∷ d4 ∷ d5 ∷ d6 ∷ d7 ∷ [])
unfolding update_slice
update_slice_lem c d0 d1 d2 d3 d4 d5 d6 d7 lt h =
    let y0 : ℕ = bit_xor (c / 2 ^ 24) d0 % 256 in
    let y1 : ℕ = bit_xor (c / 2 ^ 16) d1 % 256 in
    let y2 : ℕ = bit_xor (c / 2 ^ 8) d2 % 256 in
    let y3 : ℕ = bit_xor c d3 % 256 in
    sum_left-sum_right (crc32_tables 7 y0) (lookups (y1 ∷ y2 ∷ y3 ∷ d4 ∷ d5 ∷ d6 ∷ d7 ∷ []))
    ∙ sym (
        update_each-lookups (y0 ∷ y1 ∷ y2 ∷ y3 ∷ d4 ∷ d5 ∷ d6 ∷ d7 ∷ []) (
          byte (bit_xor (c / 2 ^ 24) d0),
          (
            byte (bit_xor (c / 2 ^ 16) d1),
            (byte (bit_xor (c / 2 ^ 8) d2), (byte (bit_xor c d3), h.1.1.1.1)),
          ),
        ))
    ∙ sym (
        update_each-joined c d0 d1 d2 d3 (d4 ∷ d5 ∷ d6 ∷ d7 ∷ []) lt
          (h.0, (h.1.0, (h.1.1.0, (h.1.1.1.0, tt)))))
  where
    byte : (x : ℕ) → x % 256 < 256
    byte x = omega arith

pub update_each-append :
    (c : ℕ) (xs ys : List ℕ) → update_each c (xs ++ ys) ≡ update_each (update_each c xs) ys
unfolding update_each
update_each-append c [] ys = refl
update_each-append c (x ∷ xs) ys = update_each-append (crc32_update c x) xs ys
