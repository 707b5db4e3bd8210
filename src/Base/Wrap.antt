-- ===== src/Base/Wrap.antt =====
-- Indices that wrap around a ring of n places.
use Prim.Native.Nat.{ℕ, ◌+◌, ◌-◌, ◌%◌, ◌≤◌, ◌<◌}
use mathlib.Core.Path.{◌≡◌, refl, sym, ap, ◌∙◌}
use native.Mathlib.Nat.{add-mod_right, mod-lt, mod-eq_of_lt, mod-add-mod, mod-eq-sub-mod}
use native.Mathlib.Decide.{dec_lt}
use native.Mathlib.Omega.{arith}
use orot.Base.Tests.{ltb, if◌then◌else◌, lt→ltb, ge-ltb}

-- A short way on from an index: it wraps at most once.
pub wrap_add :
    (a d n : ℕ)
    → 0 < n
    → d ≤ n
    → (a + d) % n ≡ (if ltb (a % n + d) n then a % n + d else a % n + d - n)
wrap_add a d n pos h = sym (mod-add-mod a n d) ∙ (elim (dec_lt (a % n + d) n) [
  | yes p ↦ mod-eq_of_lt p ∙ rw (lt→ltb _ _ p) refl
  | no p ↦
      mod-eq-sub-mod {n = a % n + d} {m = n} (omega arith)
      ∙ mod-eq_of_lt {n = a % n + d - n} {m = n} (omega (arith, mod-lt a {m = n} pos))
      ∙ rw (ge-ltb (a % n + d) n (omega arith)) refl
])

-- Two places less than a round apart differ.
pub wrap_ne : (a b n : ℕ) → a < b → b < a + n → ¬ (a % n ≡ b % n)
wrap_ne a b n lt near e =
    let w = wrap_add a (b - a) n (omega arith) (omega arith) in
    let same : a + (b - a) ≡ b = omega arith in
    absurd (ground (arith, rw same at w, mod-lt a {m = n} (omega arith)))

-- A whole round further is the same place.
pub wrap_round : (a b n : ℕ) → b ≡ a + n → b % n ≡ a % n
wrap_round a b n e = ap (λ k. k % n) e ∙ add-mod_right a n
