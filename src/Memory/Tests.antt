-- ===== src/Memory/Tests.antt =====
-- Runs of src/memory, and the theorems at concrete states.
use orot.Base.{
  ℕ, ◌≤◌, ◌<◌, ◌≡◌, ◌↔◌, refl, inl, inr, List, [], ◌∷◌, some, none, arith, length, replicate, count,
}
use orot.Memory.Pool
use orot.Memory.Pool.Disjoint.{Reach-disjoint}
use orot.Memory.Arena
use orot.Memory.Arena.Stacked.{IsStacked, Reach-IsStacked}

abbrev held : List ℕ
held = 1 ∷ []

-- Two of three slots are taken, and the first comes back.
abbrev taken : Pool.Allocator
taken = (Pool.alloc (Pool.alloc (Pool.new_pool 3)).1).1

abbrev returned : Pool.Allocator
returned = Pool.free 0 taken

returned_first : (Pool.alloc returned).0 ≡ some 0
unfolding Pool.alloc Pool.free Pool.new_pool
returned_first = refl

returned_reached : Pool.Reach 3 returned held
unfolding Pool.alloc Pool.free Pool.new_pool Pool.remove
returned_reached =
    Pool.frees (Pool.allocates (Pool.allocates Pool.created 0 refl) 1 refl) 0 (inr (inl refl))

Reach-disjoint_example :
    ((slot : ℕ) → (Pool.alloc returned).0 ≡ some slot → (slot < 3) × (count slot held ≡ 0))
    × (((Pool.alloc returned).0 ≡ none) ↔ (length held ≡ 3))
    × (returned.used ≡ length held)
    × ((c : ℕ) → count c held ≤ 1)
Reach-disjoint_example = Reach-disjoint 3 returned held (omega arith) returned_reached

-- Three bytes, and two items of four bytes behind them at the next multiple of four.
abbrev used : Arena.Arena
used = (Arena.alloc_zeroed 4 2 2 (Arena.alloc 1 0 3 (Arena.new_arena (replicate 16 7))).1).1

used_offset : used.offset ≡ 12
unfolding Arena.alloc_zeroed Arena.alloc Arena.zero_filled Arena.align_up Arena.new_arena
used_offset = refl

used_reached : Arena.Reach 16 used ((4, 8, 2) ∷ (0, 3, 0) ∷ [])
unfolding Arena.alloc_zeroed Arena.alloc Arena.zero_filled Arena.align_up Arena.new_arena
used_reached =
    Arena.allocates_zeroed
      (Arena.allocates (Arena.created (replicate 16 7) refl) 1 0 3 0 (omega arith) refl) 4 2 2 4
      (omega arith) refl

Reach-IsStacked_example :
    IsStacked used.offset ((4, 8, 2) ∷ (0, 3, 0) ∷ []) × (used.offset ≤ 16) × (used.capacity ≡ 16)
Reach-IsStacked_example = Reach-IsStacked 16 used ((4, 8, 2) ∷ (0, 3, 0) ∷ []) used_reached
