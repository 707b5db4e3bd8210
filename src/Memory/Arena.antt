-- ===== src/Memory/Arena.antt =====
-- src/memory/arena.hpp, Arena and DynArena, which passes every call on. A pointer is its distance from
-- the buffer, a size_t has 64 bits, and an alignment is 2 ^ k, as alignof is.
pub mod Stacked
use orot.Base.{
  ℕ, zero, suc, ◌+◌, ◌-◌, ◌*◌, ◌/◌, ◌%◌, ◌^◌, ◌<◌, ◌≡◌, List, [], ◌∷◌, ◌++◌, Option, none, some,
  ltb, if◌then◌else◌, length, take, drop, replicate,
}

pub record Arena : Type 0 where
  pub buf : List ℕ
  pub capacity : ℕ
  pub offset : ℕ

unfoldable pub new_arena : List ℕ → Arena
new_arena buf = record { buf = buf; capacity = length buf; offset = 0 }

-- (offset + Align - 1) & ~(Align - 1).
unfoldable pub align_up : ℕ → ℕ → ℕ
align_up k offset = (offset + 2 ^ k - 1) % 2 ^ 64 / 2 ^ k * 2 ^ k

-- Items of `size` bytes; nothing is a null pointer.
unfoldable pub alloc : ℕ → ℕ → ℕ → Arena → Option ℕ × Arena
alloc size k count a =
    let bytes = size * count % 2 ^ 64 in
    let aligned = align_up k a.offset in
    let next = (aligned + bytes) % 2 ^ 64 in
    if ltb a.capacity next then (none, a) else (some aligned, record a { offset = next })

-- memset(p, 0, bytes).
unfoldable pub fill_zeros : ℕ → ℕ → List ℕ → List ℕ
fill_zeros start bytes buf = take start buf ++ (replicate bytes 0 ++ drop (start + bytes) buf)

-- if (p) memset(p, 0, bytes), on what alloc has answered.
unfoldable pub zero_filled : Option ℕ → ℕ → Arena → Option ℕ × Arena
zero_filled none bytes a = (none, a)
zero_filled (some start) bytes a = (some start, record a { buf = fill_zeros start bytes a.buf })

unfoldable pub alloc_zeroed : ℕ → ℕ → ℕ → Arena → Option ℕ × Arena
alloc_zeroed size k count a =
    zero_filled (alloc size k count a).0 (size * count % 2 ^ 64) (alloc size k count a).1

unfoldable pub reset : Arena → Arena
reset a = record a { offset = 0 }

unfoldable pub reset_zero : Arena → Arena
reset_zero a = record a { offset = 0; buf = replicate a.capacity 0 }

unfoldable pub remaining : Arena → ℕ
remaining a = a.capacity - a.offset

-- The regions handed out since the last reset, the last one first: start, length and alignment.
-- No request is so large that a size_t would wrap.
pub data Reach (capacity : ℕ) : Arena → List (ℕ × ℕ × ℕ) → Type 0 where
  created : (buf : List ℕ) → length buf ≡ capacity → Reach capacity (new_arena buf) []
  allocates :
      {a : Arena} {regions : List (ℕ × ℕ × ℕ)}
      → Reach capacity a regions
      → (size k count p : ℕ) → capacity + 2 ^ k + size * count < 2 ^ 64
      → (alloc size k count a).0 ≡ some p
      → Reach capacity (alloc size k count a).1 ((p, size * count, k) ∷ regions)
  allocates_zeroed :
      {a : Arena} {regions : List (ℕ × ℕ × ℕ)}
      → Reach capacity a regions
      → (size k count p : ℕ) → capacity + 2 ^ k + size * count < 2 ^ 64
      → (alloc_zeroed size k count a).0 ≡ some p
      → Reach capacity (alloc_zeroed size k count a).1 ((p, size * count, k) ∷ regions)
  resets :
      {a : Arena} {regions : List (ℕ × ℕ × ℕ)}
      → Reach capacity a regions
      → Reach capacity (reset a) []
  resets_zero :
      {a : Arena} {regions : List (ℕ × ℕ × ℕ)}
      → Reach capacity a regions
      → Reach capacity (reset_zero a) []
