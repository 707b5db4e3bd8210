-- ===== src/Memory/Pool/Disjoint.antt =====
-- The free slots and those that the client holds are disjoint, src/memory/pool_allocator.hpp.
use orot.Base.{
  ℕ, zero, suc, ◌+◌, ◌≤◌, ◌<◌, ◌≡◌, ◌≢◌, refl, sym, ap, subst, ◌∙◌, Option-cases, inl, inr, ◌↔◌,
  List, [], ◌∷◌, true, false, Option, none, some, arith, length, ltb, ◌==◌, if◌then◌else◌, update,
  count, ==_iff, ne-==,
}
use mathlib.Core.Option.{some-injective}
use native.Mathlib.Decide.{ℕ_discrete}
use orot.Memory.Pool.{
  Allocator, new_pool, alloc, free, remove, IsHeld, Reach, created, allocates, frees, writes,
}

-- The list that runs from a head through the slots.
abbrev pub Chain : (ℕ → Option ℕ) → Option ℕ → List ℕ → Type 0
Chain link head [] = head ≡ none
Chain link head (slot ∷ slots) = (head ≡ some slot) × Chain link (link slot) slots

record Inv (n : ℕ) (s : Allocator) (held : List ℕ) : Type 0 where
  slots : List ℕ
  chain : Chain s.link s.free_head slots
  once : (c : ℕ) → count c slots + count c held ≡ (if ltb c n then 1 else 0)
  counted : s.used ≡ length held
  all : length slots + length held ≡ n

-- A write to a slot outside of the chain does not change it.
Chain-update :
    (link : ℕ → Option ℕ) (head : Option ℕ) (slots : List ℕ) (slot : ℕ) (word : Option ℕ)
    → count slot slots ≡ 0
    → Chain link head slots
    → Chain (update link slot word) head slots
Chain-update link head [] slot word h c = c
Chain-update link head (x ∷ slots) slot word h c =
    let other : (x == slot) ≡ false = ground (arith, h) in
    let rest : count slot slots ≡ 0 = ground (arith, h) in
    (c.0, rw other (Chain-update link (link x) slots slot word rest c.1))

held-count : (slot : ℕ) (held : List ℕ) → IsHeld slot held → 1 ≤ count slot held
held-count slot [] h = absurd h
held-count slot (x ∷ held) (inl e) = ground (arith, e)
held-count slot (x ∷ held) (inr h) = omega (arith, held-count slot held h)

count-remove :
    (c slot : ℕ) (held : List ℕ)
    → IsHeld slot held
    → count c (remove slot held) + (if slot == c then 1 else 0) ≡ count c held
unfolding remove
count-remove c slot [] h = absurd h
count-remove c slot (x ∷ held) h = elim (ℕ_discrete x slot) [
  | yes p ↦ rw ((==_iff x slot).1 p, p) (omega arith)
  | no p ↦ rw (ne-== x slot p) (omega (arith, count-remove c slot held (behind h p)))
]
  where
    behind : IsHeld slot (x ∷ held) → x ≢ slot → IsHeld slot held
    behind (inl e) p = absurd (p e)
    behind (inr m) p = m

length-remove :
    (slot : ℕ) (held : List ℕ) → IsHeld slot held → length (remove slot held) + 1 ≡ length held
unfolding remove
length-remove slot [] h = absurd h
length-remove slot (x ∷ held) h = elim (ℕ_discrete x slot) [
  | yes p ↦ rw ((==_iff x slot).1 p) (omega arith)
  | no p ↦ rw (ne-== x slot p) (omega (arith, length-remove slot held (behind h p)))
]
  where
    behind : IsHeld slot (x ∷ held) → x ≢ slot → IsHeld slot held
    behind (inl e) p = absurd (p e)
    behind (inr m) p = m

-- The chain of a new pool: the slots from i on.
abbrev slots_from : ℕ → ℕ → List ℕ
slots_from zero i = []
slots_from (suc k) i = i ∷ slots_from k (i + 1)

length-slots_from : (k i : ℕ) → length (slots_from k i) ≡ k
length-slots_from zero i = refl
length-slots_from (suc k) i = omega (arith, length-slots_from k (i + 1))

count-slots_from :
    (k i c : ℕ) → count c (slots_from k i) ≡ (if ltb c i then 0 else if ltb c (i + k) then 1 else 0)
count-slots_from zero i c = ground arith
count-slots_from (suc k) i c = ground (arith, count-slots_from k (i + 1) c)

new-Chain : (n k i : ℕ) → i + suc k ≡ n → Chain (new_pool n).link (some i) (slots_from (suc k) i)
unfolding new_pool
new-Chain n zero i e = let last : ltb (i + 1) n ≡ false = ground (arith, e) in (refl, rw last refl)
new-Chain n (suc k) i e =
    let more : ltb (i + 1) n ≡ true = ground (arith, e) in
    (refl, rw more (new-Chain n k (i + 1) (omega arith)))

new_pool-Inv : (n : ℕ) → 0 < n → Inv n (new_pool n) []
unfolding new_pool
new_pool-Inv zero pos = absurd (omega arith)
new_pool-Inv (suc k) pos = record {
  slots = slots_from (suc k) 0;
  chain = new-Chain (suc k) k 0 (omega arith);
  once = λ c. ground (arith, count-slots_from (suc k) 0 c);
  counted = refl;
  all = omega (arith, length-slots_from (suc k) 0);
}

-- What alloc answers is the head of the free list.
alloc-free_head : (s : Allocator) → (alloc s).0 ≡ s.free_head
unfolding alloc
alloc-free_head s = elim (Option-cases s.free_head) [
  | inl e ↦ rw e refl
  | inr (slot, e) ↦ rw e refl
]

-- The chain behind its first slot.
Chain-rest :
    (link : ℕ → Option ℕ) (head : Option ℕ) (slots : List ℕ) (slot : ℕ)
    → head ≡ some slot
    → Chain link head slots
    → (rest : List ℕ) × (slots ≡ slot ∷ rest) × Chain link (link slot) rest
Chain-rest link head [] slot e chain = absurd (cc)
Chain-rest link head (x ∷ rest) slot e chain =
    let same : x ≡ slot = some-injective x slot (sym chain.0 ∙ e) in
    (rest, ap (λ t. t ∷ rest) same, subst (λ t. Chain link (link t) rest) same chain.1)

allocates-Inv :
    (n : ℕ) (s : Allocator) (held : List ℕ) (slot : ℕ)
    → Inv n s held
    → s.free_head ≡ some slot
    → Inv n (alloc s).1 (slot ∷ held)
unfolding alloc
allocates-Inv n s held slot v e =
    let (rest, split, chain) = Chain-rest s.link s.free_head v.slots slot e v.chain in
    rw e (record {
      slots = rest;
      chain = chain;
      once = λ c. omega (arith, v.once c, ap (count c) split);
      counted = omega (arith, v.counted);
      all = omega (arith, v.all, ap length split);
    })

held-outside :
    (n : ℕ) (s : Allocator) (held : List ℕ) (slot : ℕ) (v : Inv n s held)
    → IsHeld slot held
    → (count slot v.slots ≡ 0) × (slot < n) × (count slot held ≡ 1)
held-outside n s held slot v h = ground (arith, v.once slot, held-count slot held h)

writes-Inv :
    (n : ℕ) (s : Allocator) (held : List ℕ) (slot : ℕ) (word : Option ℕ)
    → Inv n s held
    → IsHeld slot held
    → Inv n (record s { link = update s.link slot word }) held
writes-Inv n s held slot word v h = record {
  slots = v.slots;
  chain =
      Chain-update s.link s.free_head v.slots slot word (held-outside n s held slot v h).0 v.chain;
  once = v.once;
  counted = v.counted;
  all = v.all;
}

frees-Inv :
    (n : ℕ) (s : Allocator) (held : List ℕ) (slot : ℕ)
    → Inv n s held
    → IsHeld slot held
    → Inv n (free slot s) (remove slot held)
unfolding free
frees-Inv n s held slot v h = record {
  slots = slot ∷ v.slots;
  chain = (
    refl,
    rw ((==_iff slot slot).1 refl) (
        Chain-update s.link s.free_head v.slots slot s.free_head (held-outside n s held slot v h).0
          v.chain),
  );
  once = λ c. omega (arith, v.once c, count-remove c slot held h);
  counted = omega (arith, v.counted, length-remove slot held h);
  all = omega (arith, v.all, length-remove slot held h);
}

Reach-Inv : (n : ℕ) (s : Allocator) (held : List ℕ) → 0 < n → Reach n s held → Inv n s held
Reach-Inv n _ _ pos created = new_pool-Inv n pos
Reach-Inv n _ _ pos (allocates {s = s} {held = held} r slot e) =
    allocates-Inv n s held slot (Reach-Inv n s held pos r) (sym (alloc-free_head s) ∙ e)
Reach-Inv n _ _ pos (frees {s = s} {held = held} r slot h) =
    frees-Inv n s held slot (Reach-Inv n s held pos r) h
Reach-Inv n _ _ pos (writes {s = s} {held = held} r slot h word) =
    writes-Inv n s held slot word (Reach-Inv n s held pos r) h

-- In every state that a client can reach, what alloc gives next is a slot of the pool that the client
-- does not hold, and alloc gives nothing just when the client holds as many slots as the pool has;
-- `used` counts those that it holds, and none is held twice. The pool has a slot.
pub Reach-disjoint :
    (n : ℕ) (s : Allocator) (held : List ℕ)
    → 0 < n
    → Reach n s held
    → ((slot : ℕ) → (alloc s).0 ≡ some slot → (slot < n) × (count slot held ≡ 0))
      × (((alloc s).0 ≡ none) ↔ (length held ≡ n))
      × (s.used ≡ length held)
      × ((c : ℕ) → count c held ≤ 1)
Reach-disjoint n s held pos r =
    let v = Reach-Inv n s held pos r in
    (
      λ slot e.
          let (rest, split, chain) =
            Chain-rest s.link s.free_head v.slots slot (sym (alloc-free_head s) ∙ e) v.chain in
          fresh slot rest v.slots (v.once slot) (ap (count slot) split),
      (
        λ e. nothing v.slots v.chain v.all (sym (alloc-free_head s) ∙ e),
        λ e. alloc-free_head s ∙ done v.slots v.chain v.all e,
      ),
      v.counted,
      λ c. ground (arith, v.once c),
    )
  where
    fresh :
        (slot : ℕ) (rest slots : List ℕ)
        → count slot slots + count slot held ≡ (if ltb slot n then 1 else 0)
        → count slot slots ≡ count slot (slot ∷ rest)
        → (slot < n) × (count slot held ≡ 0)
    fresh slot rest slots once e =
        let one : ◌≡◌ {A = ℕ} (if slot == slot then 1 else 0) 1 =
          rw ((==_iff slot slot).1 refl) refl in
        ground (arith, once, e, one)

    nothing :
        (slots : List ℕ)
        → Chain s.link s.free_head slots
        → length slots + length held ≡ n
        → s.free_head ≡ none
        → length held ≡ n
    nothing [] chain all e = omega arith
    nothing (x ∷ slots) chain all e = absurd (cc)

    done :
        (slots : List ℕ)
        → Chain s.link s.free_head slots
        → length slots + length held ≡ n
        → length held ≡ n
        → s.free_head ≡ none
    done [] chain all e = chain
    done (x ∷ slots) chain all e = absurd (omega arith)
