-- ===== src/Parallel/Queue/Invariant.antt =====
-- What holds of every state that the threads of SPSCQueue can reach, src/parallel/sync_queue.hpp.
use native.Mathlib.Nat.{mod-eq_of_lt, mod-add-mod}
use native.Mathlib.Decide.{ℕ_discrete}
use orot.Base.{
  ℕ, suc, ◌+◌, ◌%◌, ◌≤◌, ◌<◌, ◌≡◌, ◌≢◌, refl, sym, ap, ◌∙◌, List, [], ◌∷◌, ◌++◌, arith, length,
  update, subst, length-append, append_assoc,
}
use orot.Base.Wrap.{wrap_ne, wrap_round}
use orot.Parallel.Queue.{
  Ring, Producer, Consumer, writing, publishing, reading, releasing, System, Step, push_full,
  push_checks, push_writes, push_publishes, pop_empty, pop_checks, pop_reads, pop_releases, next,
  start, Reach, here, after,
}

-- The items stand in the places from the i-th on, of all the places that were ever used.
abbrev Slots : ℕ → (ℕ → ℕ) → ℕ → List ℕ → Type 0
Slots capacity buf i [] = Unit
Slots capacity buf i (x ∷ items) = (buf (i % capacity) ≡ x) × Slots capacity buf (i + 1) items

Slots-update :
    (capacity : ℕ) (buf : ℕ → ℕ) (i j v : ℕ) (items : List ℕ)
    → i + length items ≤ j
    → j < i + capacity
    → Slots capacity buf i items
    → Slots capacity (update buf (j % capacity) v) i items
Slots-update capacity buf i j v [] le near h = tt
Slots-update capacity buf i j v (x ∷ items) le near h = (
  ground (arith, wrap_ne i j capacity, h.0),
  Slots-update capacity buf (i + 1) j v items (omega arith) (omega arith) h.1,
)

Slots-snoc :
    (capacity : ℕ) (buf : ℕ → ℕ) (i v : ℕ) (items : List ℕ)
    → Slots capacity buf i items
    → buf ((i + length items) % capacity) ≡ v
    → Slots capacity buf i (items ++ (v ∷ []))
Slots-snoc capacity buf i v [] h e = let z : i + 0 ≡ i = omega arith in (rw z at e, tt)
Slots-snoc capacity buf i v (x ∷ items) h e =
    let z : i + suc (length items) ≡ i + 1 + length items = omega arith in
    (h.0, Slots-snoc capacity buf (i + 1) v items h.1 (rw z at e))

-- What holds while the producer is inside push, when n items wait in `capacity` places.
abbrev ProducerOk : ℕ → Ring → ℕ → Producer → Type 0
ProducerOk capacity ring n Producer.outside = Unit
ProducerOk capacity ring n (writing item) = n + 1 < capacity
ProducerOk capacity ring n (publishing item) = (n + 1 < capacity) × (ring.buf ring.head ≡ item)

abbrev ConsumerOk : List ℕ → Consumer → Type 0
ConsumerOk waiting Consumer.outside = Unit
ConsumerOk waiting reading = 0 < length waiting
ConsumerOk [] (releasing item) = ⊥
ConsumerOk (x ∷ waiting) (releasing item) = x ≡ item

pub record Inv (capacity : ℕ) (s : System) : Type 0 where
  pub waiting : List ℕ
  pub order : s.pushed ≡ s.popped ++ waiting
  pub room : length waiting < capacity
  pub head_at : s.ring.head ≡ (length s.popped + length waiting) % capacity
  pub tail_at : s.ring.tail ≡ length s.popped % capacity
  pub slots : Slots capacity s.ring.buf (length s.popped) waiting
  pub producing : ProducerOk capacity s.ring (length waiting) s.producer
  pub consuming : ConsumerOk waiting s.consumer

start-Inv : (capacity : ℕ) (buf : ℕ → ℕ) → 0 < capacity → Inv capacity (start buf)
start-Inv capacity buf pos = record {
  waiting = [];
  order = refl;
  room = pos;
  head_at = sym (mod-eq_of_lt pos);
  tail_at = sym (mod-eq_of_lt pos);
  slots = tt;
  producing = tt;
  consuming = tt;
}

-- The place behind the last.
pub next_lem : (capacity i j : ℕ) → i ≡ j % capacity → next capacity i ≡ (j + 1) % capacity
next_lem capacity i j e = rw e (mod-add-mod j capacity 1)

-- If the next place is not the tail's, an item more leaves a place free.
room_lem :
    (capacity : ℕ) (s : System)
    → (v : Inv capacity s) → next capacity s.ring.head ≢ s.ring.tail
    → length v.waiting + 1 < capacity
room_lem capacity s v ne = elim (ℕ_discrete (length v.waiting + 1) capacity) [
  | yes e ↦ absurd (
      ne (
        next_lem capacity s.ring.head (length s.popped + length v.waiting) v.head_at
        ∙ wrap_round (length s.popped) (length s.popped + length v.waiting + 1) capacity
            (omega arith)
        ∙ sym v.tail_at))
  | no p ↦ omega (arith, v.room)
]

-- The consumer finds an item, if the tail is not the head.
waiting_lem :
    (capacity : ℕ) (s : System) (v : Inv capacity s)
    → s.ring.tail ≢ s.ring.head
    → 0 < length v.waiting
waiting_lem capacity s v ne = elim (ℕ_discrete (length v.waiting) 0) [
  | yes e ↦
      let z : length s.popped + length v.waiting ≡ length s.popped = omega arith in
      absurd (ne (v.tail_at ∙ sym (v.head_at ∙ ap (λ k. k % capacity) z)))
  | no p ↦ omega arith
]

ConsumerOk-snoc :
    (waiting : List ℕ) (item : ℕ) (c : Consumer)
    → ConsumerOk waiting c
    → ConsumerOk (waiting ++ (item ∷ [])) c
ConsumerOk-snoc waiting item Consumer.outside h = tt
ConsumerOk-snoc waiting item reading h = omega (arith, length-append waiting (item ∷ []))
ConsumerOk-snoc [] item (releasing y) h = elim h [ ]
ConsumerOk-snoc (x ∷ waiting) item (releasing y) h = h

-- A write into a free place, and a pop, leave the producer's promise.
ProducerOk-pop :
    (capacity : ℕ) (ring ring' : Ring) (n : ℕ) (p : Producer)
    → ring'.buf ≡ ring.buf
    → ring'.head ≡ ring.head
    → ProducerOk capacity ring (suc n) p
    → ProducerOk capacity ring' n p
ProducerOk-pop capacity ring ring' n Producer.outside eb eh h = tt
ProducerOk-pop capacity ring ring' n (writing item) eb eh h = omega arith
ProducerOk-pop capacity ring ring' n (publishing item) eb eh h =
    (omega (arith, h.0), rw (eb, eh) h.1)

published-Inv :
    (capacity : ℕ) (s : System) (item : ℕ)
    → s.producer ≡ publishing item
    → Inv capacity s
    → Inv capacity (record s {
      ring = record { buf = s.ring.buf; head = next capacity s.ring.head; tail = s.ring.tail };
      producer = Producer.outside;
      pushed = s.pushed ++ (item ∷ []);
    })
published-Inv capacity s item e v =
    let ok : ProducerOk capacity s.ring (length v.waiting) (publishing item) =
      rw e at v.producing in
    let n = length-append v.waiting (item ∷ []) in
    record {
      waiting = v.waiting ++ (item ∷ []);
      order = ap (λ l. l ++ (item ∷ [])) v.order ∙ append_assoc s.popped v.waiting (item ∷ []);
      room = omega (arith, n, ok.0);
      head_at =
          next_lem capacity s.ring.head (length s.popped + length v.waiting) v.head_at
          ∙ ap (λ k. k % capacity) (omega (arith, n));
      tail_at = v.tail_at;
      slots =
          Slots-snoc capacity s.ring.buf (length s.popped) item v.waiting v.slots
            (rw (← v.head_at) ok.1);
      producing = tt;
      consuming = ConsumerOk-snoc v.waiting item s.consumer v.consuming;
    }

written-Inv :
    (capacity : ℕ) (s : System) (item : ℕ)
    → s.producer ≡ writing item
    → Inv capacity s
    → Inv capacity (record s {
      ring = record {
        buf = update s.ring.buf s.ring.head item;
        head = s.ring.head;
        tail = s.ring.tail;
      };
      producer = publishing item;
    })
written-Inv capacity s item e v =
    let ok : ProducerOk capacity s.ring (length v.waiting) (writing item) = rw e at v.producing in
    record {
      waiting = v.waiting;
      order = v.order;
      room = v.room;
      head_at = v.head_at;
      tail_at = v.tail_at;
      slots = rw v.head_at (
          Slots-update capacity s.ring.buf (length s.popped) (length s.popped + length v.waiting)
            item v.waiting (omega arith) (omega arith) v.slots);
      producing = (ok, ground arith);
      consuming = v.consuming;
    }

-- The consumer has read the first item.
read_ok :
    (capacity : ℕ) (ring : Ring) (i : ℕ) (waiting : List ℕ)
    → ring.tail ≡ i % capacity
    → Slots capacity ring.buf i waiting
    → 0 < length waiting
    → ConsumerOk waiting (releasing (ring.buf ring.tail))
read_ok capacity ring i [] e slots h = absurd (omega arith)
read_ok capacity ring i (x ∷ waiting) e slots h = sym (slots.0) ∙ ap ring.buf (sym e)

released-Inv :
    (capacity : ℕ) (s : System) (item : ℕ) (waiting : List ℕ)
    → (v : Inv capacity s) → v.waiting ≡ waiting
    → ConsumerOk waiting (releasing item)
    → Inv capacity (record s {
      ring = record { buf = s.ring.buf; head = s.ring.head; tail = next capacity s.ring.tail };
      consumer = Consumer.outside;
      popped = s.popped ++ (item ∷ []);
    })
released-Inv capacity s item [] v e ok = elim ok [ ]
released-Inv capacity s item (x ∷ waiting) v e ok =
    let slots : Slots capacity s.ring.buf (length s.popped) (x ∷ waiting) = rw e at v.slots in
    let one : length (s.popped ++ (item ∷ [])) ≡ length s.popped + 1 =
      length-append s.popped (item ∷ []) in
    let count : length v.waiting ≡ suc (length waiting) = ap length e in
    record {
      waiting = waiting;
      order =
          v.order
          ∙ ap (λ l. s.popped ++ l) e
          ∙ ap (λ y. s.popped ++ (y ∷ waiting)) ok
          ∙ sym (append_assoc s.popped (item ∷ []) waiting);
      room = omega (arith, v.room, count);
      head_at = v.head_at ∙ ap (λ k. k % capacity) (omega (arith, one, count));
      tail_at =
          next_lem capacity s.ring.tail (length s.popped) v.tail_at
          ∙ ap (λ k. k % capacity) (sym one);
      slots = rw one slots.1;
      producing =
          ProducerOk-pop capacity s.ring
            (record { buf = s.ring.buf; head = s.ring.head; tail = next capacity s.ring.tail })
            (length waiting) s.producer refl refl
            (subst (λ n. ProducerOk capacity s.ring n s.producer) count v.producing);
      consuming = tt;
    }

Step-Inv : {capacity : ℕ} {s t : System} → Inv capacity s → Step capacity s t → Inv capacity t
Step-Inv v (push_full e full) = v
Step-Inv {capacity} {s} v (push_checks item e ne) = record {
  waiting = v.waiting;
  order = v.order;
  room = v.room;
  head_at = v.head_at;
  tail_at = v.tail_at;
  slots = v.slots;
  producing = room_lem capacity s v ne;
  consuming = v.consuming;
}
Step-Inv {capacity} {s} v (push_writes item e) = written-Inv capacity s item e v
Step-Inv {capacity} {s} v (push_publishes item e) = published-Inv capacity s item e v
Step-Inv v (pop_empty e none_left) = v
Step-Inv {capacity} {s} v (pop_checks e ne) = record {
  waiting = v.waiting;
  order = v.order;
  room = v.room;
  head_at = v.head_at;
  tail_at = v.tail_at;
  slots = v.slots;
  producing = v.producing;
  consuming = waiting_lem capacity s v ne;
}
Step-Inv {capacity} {s} v (pop_reads e) = record {
  waiting = v.waiting;
  order = v.order;
  room = v.room;
  head_at = v.head_at;
  tail_at = v.tail_at;
  slots = v.slots;
  producing = v.producing;
  consuming =
      let ok : ConsumerOk v.waiting reading = rw e at v.consuming in
      read_ok capacity s.ring (length s.popped) v.waiting v.tail_at v.slots ok;
}
Step-Inv {capacity} {s} v (pop_releases item e) =
    released-Inv capacity s item v.waiting v refl (rw e at v.consuming)

pub Reach-Inv :
    {capacity : ℕ} {buf : ℕ → ℕ} {s : System} → 0 < capacity → Reach capacity buf s → Inv capacity s
Reach-Inv {capacity} {buf} pos here = start-Inv capacity buf pos
Reach-Inv pos (after r st) = Step-Inv (Reach-Inv pos r) st
