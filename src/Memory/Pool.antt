-- ===== src/Memory/Pool.antt =====
-- src/memory/pool_allocator.hpp, PoolAllocator of n slots. A pointer is the number of its slot; the
-- free list runs through the first word of each slot, which the client overwrites while it holds it.
pub mod Disjoint
use orot.Base.{
  ℕ, zero, suc, ◌+◌, ◌-◌, ◌<◌, ◌≡◌, ◌⊎◌, List, [], ◌∷◌, Bool, Option, none, some, ltb, ◌==◌,
  if◌then◌else◌, update,
}

pub record Allocator : Type 0 where
  pub link : ℕ → Option ℕ
  pub free_head : Option ℕ
  pub used : ℕ

-- The constructor: each slot points to the next one, the last one to none.
unfoldable pub new_pool : ℕ → Allocator
new_pool n = record {
  link = λ i. if ltb (i + 1) n then some (i + 1) else none;
  free_head = some 0;
  used = 0;
}

unfoldable pub alloc : Allocator → Option ℕ × Allocator
alloc s = elim s.free_head [
  | none ↦ (none, s)
  | some slot ↦ (some slot, record s { free_head = s.link slot; used = s.used + 1 })
]

unfoldable pub free : ℕ → Allocator → Allocator
free slot s = record s {
  link = update s.link slot s.free_head;
  free_head = some slot;
  used = s.used - 1;
}

unfoldable pub available : ℕ → Allocator → ℕ
available n s = n - s.used

unfoldable pub full : ℕ → Allocator → Bool
full n s = s.used == n

unfoldable pub empty : Allocator → Bool
empty s = s.used == 0

-- One occurrence less.
unfoldable pub remove : ℕ → List ℕ → List ℕ
remove c [] = []
remove c (x ∷ xs) = let rest = remove c xs in if x == c then xs else x ∷ rest

-- The slots that the client holds.
abbrev pub IsHeld : ℕ → List ℕ → Type 0
IsHeld slot [] = ⊥
IsHeld slot (x ∷ held) = (x ≡ slot) ⊎ IsHeld slot held

-- What a client may do: it frees and writes only what it holds.
pub data Reach (n : ℕ) : Allocator → List ℕ → Type 0 where
  created : Reach n (new_pool n) []
  allocates :
      {s : Allocator} {held : List ℕ}
      → Reach n s held
      → (slot : ℕ) → (alloc s).0 ≡ some slot
      → Reach n (alloc s).1 (slot ∷ held)
  frees :
      {s : Allocator} {held : List ℕ}
      → Reach n s held
      → (slot : ℕ) → IsHeld slot held
      → Reach n (free slot s) (remove slot held)
  writes :
      {s : Allocator} {held : List ℕ}
      → Reach n s held
      → (slot : ℕ) → IsHeld slot held
      → (word : Option ℕ) → Reach n (record s { link = update s.link slot word }) held
