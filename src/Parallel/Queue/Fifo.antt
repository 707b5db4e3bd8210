-- ===== src/Parallel/Queue/Fifo.antt =====
-- SPSCQueue of src/parallel/sync_queue.hpp is a first-in-first-out queue under every interleaving.
use native.Mathlib.Decide.{ℕ_discrete}
use orot.Base.{ℕ, ◌+◌, ◌%◌, ◌<◌, ◌≡◌, ◌↔◌, sym, ap, ◌∙◌, List, ◌++◌, arith, length, length-append}
use orot.Base.Wrap.{wrap_ne, wrap_round}
use orot.Parallel.Queue.{System, next, Reach}
use orot.Parallel.Queue.Invariant.{Inv, Reach-Inv, next_lem}

-- In every state that the two threads of a ring with a place can reach, what was popped is a beginning of what was pushed,
-- in order, and fewer items than `capacity` wait.
pub Reach-fifo :
    (capacity : ℕ) (buf : ℕ → ℕ) (s : System)
    → 0 < capacity
    → Reach capacity buf s
    → (waiting : List ℕ) × (s.pushed ≡ s.popped ++ waiting) × (length waiting < capacity)
Reach-fifo capacity buf s pos r = let v = Reach-Inv pos r in (v.waiting, v.order, v.room)

full_lem :
    (capacity : ℕ) (s : System) (v : Inv capacity s)
    → (next capacity s.ring.head ≡ s.ring.tail) ↔ (length v.waiting + 1 ≡ capacity)
full_lem capacity s v = (
  λ e. elim (ℕ_discrete (length v.waiting + 1) capacity) [
    | yes p ↦ p
    | no p ↦ absurd (
        wrap_ne (length s.popped) (length s.popped + length v.waiting + 1) capacity (omega arith)
          (omega (arith, v.room))
          (sym v.tail_at
            ∙ sym e
            ∙ next_lem capacity s.ring.head (length s.popped + length v.waiting) v.head_at))
  ],
  λ e.
      next_lem capacity s.ring.head (length s.popped + length v.waiting) v.head_at
      ∙ wrap_round (length s.popped) (length s.popped + length v.waiting + 1) capacity
          (omega (arith, e))
      ∙ sym v.tail_at,
)

empty_lem :
    (capacity : ℕ) (s : System) (v : Inv capacity s)
    → (s.ring.tail ≡ s.ring.head) ↔ (length v.waiting ≡ 0)
empty_lem capacity s v = (
  λ e. elim (ℕ_discrete (length v.waiting) 0) [
    | yes p ↦ p
    | no p ↦ absurd (
        wrap_ne (length s.popped) (length s.popped + length v.waiting) capacity (omega arith)
          (omega (arith, v.room)) (sym v.tail_at ∙ e ∙ v.head_at))
  ],
  λ e.
      v.tail_at
      ∙ ap (λ k. k % capacity)
          (let z : length s.popped ≡ length s.popped + length v.waiting = omega (arith, e) in z)
      ∙ sym v.head_at,
)

-- In every state that the two threads of a ring with a place can reach, push would find the ring full
-- just when capacity - 1 items wait, and pop would find it empty just when none does; an item waits
-- when it was pushed and not yet popped.
pub Reach-answers :
    (capacity : ℕ) (buf : ℕ → ℕ) (s : System)
    → 0 < capacity
    → Reach capacity buf s
    → ((next capacity s.ring.head ≡ s.ring.tail)
        ↔ (length s.pushed + 1 ≡ length s.popped + capacity))
      × ((s.ring.tail ≡ s.ring.head) ↔ (length s.pushed ≡ length s.popped))
Reach-answers capacity buf s pos r =
    let v = Reach-Inv pos r in
    let n : length s.pushed ≡ length s.popped + length v.waiting =
      ap length v.order ∙ length-append s.popped v.waiting in
    (
      (
        λ e. let w = (full_lem capacity s v).0 e in omega (arith, w, n),
        λ e. (full_lem capacity s v).1 (omega (arith, e, n)),
      ),
      (
        λ e. let w = (empty_lem capacity s v).0 e in omega (arith, w, n),
        λ e. (empty_lem capacity s v).1 (omega (arith, e, n)),
      ),
    )
