-- ===== src/Base/Counts.antt =====
-- How often a number stands in a list.
use Prim.Native.Nat.{ℕ, zero, suc, ◌+◌, ◌≤◌}
use mathlib.Core.Path.{◌≡◌}
use mathlib.Core.List.{List, [], ◌∷◌, ◌++◌}
use native.Mathlib.Omega.{arith}
use orot.Base.Lists.{length, replicate}
use orot.Base.Tests.{◌==◌, if◌then◌else◌}

abbrev pub count : ℕ → List ℕ → ℕ
count c [] = 0
count c (x ∷ xs) = (if x == c then 1 else 0) + count c xs

pub count-append : (c : ℕ) (xs ys : List ℕ) → count c (xs ++ ys) ≡ count c xs + count c ys
count-append c [] ys = omega arith
count-append c (x ∷ xs) ys = omega (arith, count-append c xs ys)

pub count-le : (c : ℕ) (xs : List ℕ) → count c xs ≤ length xs
count-le c [] = omega arith
count-le c (x ∷ xs) = ground (arith, count-le c xs)

pub count-replicate : (c x n : ℕ) → count c (replicate n x) ≡ (if x == c then n else 0)
count-replicate c x zero = ground arith
count-replicate c x (suc n) = ground (arith, count-replicate c x n)
