-- ===== src/Bzip2/Rle2/Moves.antt =====
-- The move to the front of src/bzip2/bzip2_decompress.cpp, element by element, and the memmove.
use orot.Base.{
  ℕ, zero, suc, ◌≤◌, ◌<◌, ◌≡◌, refl, sym, ap, ◌∙◌, List, [], ◌∷◌, ◌++◌, arith, length, get_or, set,
  take, drop, if-both, leb, ◌==◌, if◌then◌else◌, take_snoc, append_assoc, Bool-cases, inl, inr,
}
use orot.Bzip2.Mtf.{move_to_front, decode}
use orot.Bzip2.Rle2.{shift_up, mtf_move_to_front}
use native.Mathlib.Numerals.{add-one}

module _ {ℓ} {A : Type ℓ} where
  take-set : (k j : ℕ) (xs : List A) (v : A) → k ≤ j → take k (set xs j v) ≡ take k xs
  take-set zero j xs v le = refl
  take-set (suc k) j [] v le = refl
  take-set (suc k) zero (x ∷ xs) v le = absurd (omega arith)
  take-set (suc k) (suc j) (x ∷ xs) v le = ap (◌∷◌ x) (take-set k j xs v (omega arith))

  drop-set :
      (k : ℕ) (xs : List A) (v : A) → k < length xs → drop k (set xs k v) ≡ v ∷ drop (suc k) xs
  drop-set k [] v lt = absurd (omega arith)
  drop-set zero (x ∷ xs) v lt = refl
  drop-set (suc k) (x ∷ xs) v lt = drop-set k xs v (omega arith)

  length-set : (k : ℕ) (xs : List A) (v : A) → length (set xs k v) ≡ length xs
  length-set k [] v = refl
  length-set zero (x ∷ xs) v = refl
  length-set (suc k) (x ∷ xs) v = omega (arith, length-set k xs v)

take-set_tail : (k x : ℕ) (xs : List ℕ) (v : ℕ) → take k (x ∷ set xs k v) ≡ take k (x ∷ xs)
take-set_tail zero x xs v = refl
take-set_tail (suc k) x xs v = ap (◌∷◌ x) (take-set k (suc k) xs v (omega arith))

-- The loop copies each symbol one place up.
shift_up_lem :
    (k x : ℕ) (xs : List ℕ)
    → k ≤ length xs
    → shift_up k (x ∷ xs) ≡ x ∷ (take k (x ∷ xs) ++ drop k xs)
unfolding shift_up
shift_up_lem zero x xs le = refl
shift_up_lem (suc k) x xs le =
    let v = get_or (x ∷ xs) k 0 in
    shift_up_lem k x (set xs k v) (omega (arith, length-set k xs v))
    ∙ ap (◌∷◌ x) (
        rw (take-set_tail k x xs v, drop-set k xs v (omega arith))
          (sym (append_assoc (take k (x ∷ xs)) (v ∷ []) (drop (suc k) xs))
            ∙ ap (λ t. t ++ drop (suc k) xs) (sym (take_snoc k (x ∷ xs) 0 (omega arith)))))

-- Either way of mtf_move_to_front is the memmove, for a rank of a symbol in the list.
pub shift_up-move_to_front :
    (rank c : ℕ) (syms : List ℕ)
    → rank < length syms
    → set (shift_up rank syms) 0 c ≡ move_to_front syms rank c
unfolding move_to_front
shift_up-move_to_front rank c [] lt = absurd (omega arith)
shift_up-move_to_front rank c (x ∷ xs) lt =
    ap (λ t. set t 0 c) (shift_up_lem rank x xs (omega arith)) ∙ rw add-one refl

hot :
    (rank c : ℕ) (syms : List ℕ)
    → rank < length syms
    → (if leb rank 8 then set (shift_up rank syms) 0 c else move_to_front syms rank c)
      ≡ move_to_front syms rank c
hot rank c syms lt =
    if-both (λ t. t ≡ move_to_front syms rank c) (leb rank 8) _ _
      (λ h. shift_up-move_to_front rank c syms lt) (λ h. refl)

pub mtf_move_to_front-decode :
    (rank : ℕ) (syms : List ℕ)
    → rank < length syms
    → decode rank syms ≡ (get_or syms rank 0, mtf_move_to_front syms rank (get_or syms rank 0))
unfolding decode mtf_move_to_front
mtf_move_to_front-decode rank syms lt = elim (Bool-cases (rank == 0)) [
  | inl e ↦ rw e refl
  | inr e ↦ rw e (
      ap {B = ℕ × List ℕ} (λ t. (get_or syms rank 0, t))
        (sym (hot rank (get_or syms rank 0) syms lt)))
]
