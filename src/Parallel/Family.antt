-- ===== src/Parallel/Family.antt =====
-- Sums over the first n members of a family, which describe a set of threads.
use native.Mathlib.Decide.{ℕ_discrete}
use orot.Base.{ℕ, zero, suc, ◌+◌, ◌≤◌, ◌<◌, ◌≡◌, refl, arith, update}

module _ {ℓ} {A : Type ℓ} (f : A → ℕ) where
  pub total : ℕ → (ℕ → A) → ℕ
  total zero w = 0
  total (suc n) w = total n w + f (w n)

  total_beyond : (n i : ℕ) (x : A) (w : ℕ → A) → n ≤ i → total n (update w i x) ≡ total n w
  unfolding total
  total_beyond zero i x w h = omega arith
  total_beyond (suc n) i x w h = ground (arith, total_beyond n i x w)

  -- One member is exchanged.
  pub total-update :
      (n i : ℕ) (x : A) (w : ℕ → A) → i < n → total n (update w i x) + f (w i) ≡ total n w + f x
  unfolding total
  total-update zero i x w h = elim h [ ]
  total-update (suc n) i x w h = elim (ℕ_discrete n i) [
    | yes e ↦ rw e (ground (arith, total_beyond i i x w))
    | no p ↦ ground (arith, total-update n i x w)
  ]

  -- A member counts towards the sum.
  pub le-total : (n i : ℕ) (w : ℕ → A) → i < n → f (w i) ≤ total n w
  unfolding total
  le-total zero i w h = elim h [ ]
  le-total (suc n) i w h = elim (ℕ_discrete n i) [
    | yes e ↦ rw e (omega arith)
    | no p ↦ omega (arith, le-total n i w (omega arith))
  ]

  -- A sum that is not 0 has a member that is not.
  pub total_member : (n : ℕ) (w : ℕ → A) → 0 < total n w → (i : ℕ) × (i < n) × (0 < f (w i))
  unfolding total
  total_member zero w h = elim h [ ]
  total_member (suc n) w h = elim (ℕ_discrete (f (w n)) 0) [
    | yes e ↦ let (i, lt, pos) = total_member n w (omega (arith, e)) in (i, omega arith, pos)
    | no p ↦ (n, omega arith, omega arith)
  ]

  pub total_zero : (n : ℕ) (w : ℕ → A) → ((i : ℕ) → f (w i) ≡ 0) → total n w ≡ 0
  unfolding total
  total_zero zero w h = refl
  total_zero (suc n) w h = omega (arith, h n, total_zero n w h)

-- A change of all members that the sum does not see.
pub total_unchanged {ℓ} :
    {A : Type ℓ} (f : A → ℕ) (g : A → A) (n : ℕ) (w : ℕ → A)
    → ((x : A) → f (g x) ≡ f x)
    → total f n (λ i. g (w i)) ≡ total f n w
unfolding total
total_unchanged f g zero w h = refl
total_unchanged f g (suc n) w h = omega (arith, h (w n), total_unchanged f g n w h)

pub total-le {ℓ} :
    {A : Type ℓ} (f g : A → ℕ) (n : ℕ) (w : ℕ → A)
    → ((x : A) → f x ≤ g x)
    → total f n w ≤ total g n w
unfolding total
total-le f g zero w h = omega arith
total-le f g (suc n) w h = omega (arith, h (w n), total-le f g n w h)
