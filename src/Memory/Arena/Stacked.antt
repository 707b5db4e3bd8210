-- ===== src/Memory/Arena/Stacked.antt =====
-- The regions of an arena of src/memory/arena.hpp lie one behind the other.
use orot.Base.{
  ℕ, ◌+◌, ◌-◌, ◌*◌, ◌/◌, ◌%◌, ◌^◌, ◌≤◌, ◌<◌, ◌≡◌, refl, sym, ◌∙◌, List, [], ◌∷◌, Option, none, some,
  arith, ltb, Bool-cases, inl, inr,
}
use mathlib.Core.Option.{some-injective}
use native.Mathlib.Nat.{div-mul-le_self, mul-mod_left, lt-div-mul-add, mod-eq_of_lt}
use orot.Base.Bits.{two_pow-pos}
use orot.Memory.Arena.{
  Arena, new_arena, align_up, alloc, alloc_zeroed, zero_filled, reset, reset_zero, Reach, created,
  allocates, allocates_zeroed, resets, resets_zero,
}

-- Each region is aligned and ends before the bound, which the regions behind it do not reach.
abbrev pub IsStacked : ℕ → List (ℕ × ℕ × ℕ) → Type 0
IsStacked bound [] = Unit
IsStacked bound (r ∷ regions) = (r.0 + r.1 ≤ bound) × (r.0 % 2 ^ r.2 ≡ 0) × IsStacked r.0 regions

IsStacked-le :
    (bound bound' : ℕ) (regions : List (ℕ × ℕ × ℕ))
    → bound ≤ bound'
    → IsStacked bound regions
    → IsStacked bound' regions
IsStacked-le bound bound' [] le h = tt
IsStacked-le bound bound' (r ∷ regions) le h = (omega (arith, h.0), h.1, h.2)

-- Rounding up: not below the offset, and a multiple of the alignment.
align_up_lem :
    (k offset : ℕ)
    → offset + 2 ^ k < 2 ^ 64
    → (offset ≤ align_up k offset)
      × (align_up k offset < offset + 2 ^ k)
      × (align_up k offset % 2 ^ k ≡ 0)
unfolding align_up
align_up_lem k offset small =
    let pos = two_pow-pos k in
    let x : ℕ = offset + 2 ^ k - 1 in
    let e : x % 2 ^ 64 ≡ x = mod-eq_of_lt {n = x} {m = 2 ^ 64} (omega arith) in
    rw e (
      omega (arith, lt-div-mul-add {a = x} {b = 2 ^ k} pos),
      omega (arith, div-mul-le_self x (2 ^ k)),
      mul-mod_left (x / 2 ^ k) (2 ^ k),
    )

record Inv (capacity : ℕ) (a : Arena) (regions : List (ℕ × ℕ × ℕ)) : Type 0 where
  same : a.capacity ≡ capacity
  fits : a.offset ≤ capacity
  stacked : IsStacked a.offset regions

allocates-Inv :
    (capacity size k count p : ℕ) (a : Arena) (regions : List (ℕ × ℕ × ℕ))
    → Inv capacity a regions
    → capacity + 2 ^ k + size * count < 2 ^ 64
    → (alloc size k count a).0 ≡ some p
    → Inv capacity (alloc size k count a).1 ((p, size * count, k) ∷ regions)
unfolding alloc
allocates-Inv capacity size k count p a regions v small e =
    let (low, high, even) = align_up_lem k a.offset (omega (arith, v.fits)) in
    let bytes : size * count % 2 ^ 64 ≡ size * count =
      mod-eq_of_lt {n = size * count} {m = 2 ^ 64} (omega arith) in
    let next : (align_up k a.offset + size * count) % 2 ^ 64 ≡ align_up k a.offset + size * count =
      mod-eq_of_lt {n = align_up k a.offset + size * count} {m = 2 ^ 64}
        (omega (arith, v.fits, high)) in
    elim (Bool-cases (ltb a.capacity (align_up k a.offset + size * count))) [
      | inl over ↦ let e' = rw (bytes, next, over) at e in absurd (cc)
      | inr under ↦
          let e' = rw (bytes, next, under) at e in
          let at : align_up k a.offset ≡ p = some-injective _ p e' in
          rw (bytes, next, under)
            (record {
              same = v.same;
              fits = ground (arith, under, v.same);
              stacked = (
                omega (arith, at),
                rw (sym at) even,
                IsStacked-le a.offset p regions (omega (arith, at)) v.stacked,
              );
            })
    ]

-- The zeros change neither the answer nor the offset.
zero_filled-kept :
    (p : Option ℕ) (bytes : ℕ) (a : Arena)
    → ((zero_filled p bytes a).0 ≡ p)
      × ((zero_filled p bytes a).1.offset ≡ a.offset)
      × ((zero_filled p bytes a).1.capacity ≡ a.capacity)
unfolding zero_filled
zero_filled-kept none bytes a = (refl, refl, refl)
zero_filled-kept (some p) bytes a = (refl, refl, refl)

Reach-Inv :
    (capacity : ℕ) (a : Arena) (regions : List (ℕ × ℕ × ℕ))
    → Reach capacity a regions
    → Inv capacity a regions
unfolding new_arena alloc_zeroed reset reset_zero
Reach-Inv capacity _ _ (created buf e) = record { same = e; fits = omega arith; stacked = tt }
Reach-Inv capacity _ _ (allocates {a = a} {regions = regions} r size k count p small e) =
    allocates-Inv capacity size k count p a regions (Reach-Inv capacity a regions r) small e
Reach-Inv capacity _ _ (allocates_zeroed {a = a} {regions = regions} r size k count p small e) =
    let (answer, offset, bound) =
      zero_filled-kept (alloc size k count a).0 (size * count % 2 ^ 64) (alloc size k count a).1 in
    let v =
      allocates-Inv capacity size k count p a regions (Reach-Inv capacity a regions r) small
        (sym answer ∙ e) in
    record {
      same = bound ∙ v.same;
      fits = omega (arith, offset, v.fits);
      stacked = rw offset v.stacked;
    }
Reach-Inv capacity _ _ (resets {a = a} {regions = regions} r) = record {
  same = (Reach-Inv capacity a regions r).same;
  fits = omega arith;
  stacked = tt;
}
Reach-Inv capacity _ _ (resets_zero {a = a} {regions = regions} r) = record {
  same = (Reach-Inv capacity a regions r).same;
  fits = omega arith;
  stacked = tt;
}

-- In every state that an arena can reach, the regions handed out since the last reset are aligned,
-- lie one behind the other and end within the capacity, if no request was so large that a size_t
-- would wrap.
pub Reach-IsStacked :
    (capacity : ℕ) (a : Arena) (regions : List (ℕ × ℕ × ℕ))
    → Reach capacity a regions
    → IsStacked a.offset regions × (a.offset ≤ capacity) × (a.capacity ≡ capacity)
Reach-IsStacked capacity a regions r =
    let v = Reach-Inv capacity a regions r in (v.stacked, v.fits, v.same)
