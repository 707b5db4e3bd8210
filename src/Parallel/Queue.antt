-- ===== src/Parallel/Queue.antt =====
-- src/parallel/sync_queue.hpp, SPSCQueue, of `capacity` places. Its atomic loads and stores are the
-- steps: what a releasing store follows is seen behind the acquiring load, so that the memory is
-- taken to be in order.
pub mod Invariant
pub mod Fifo
use orot.Base.{
  ℕ, zero, suc, ◌+◌, ◌-◌, ◌%◌, ◌^◌, ◌≡◌, ◌≢◌, Bool, true, false, List, [], ◌∷◌, ◌++◌, Option, none,
  some, ◌==◌, if◌then◌else◌, update,
}

pub record Ring : Type 0 where
  pub buf : ℕ → ℕ
  pub head : ℕ
  pub tail : ℕ

module _ (capacity : ℕ) where
  abbrev pub next : ℕ → ℕ
  next i = (i + 1) % capacity

  -- The calls, when nothing runs between their loads and stores; `false` and `none` are full and
  -- empty.
  unfoldable pub push : ℕ → Ring → Ring × Bool
  push item q =
      if next q.head == q.tail
      then (q, false)
      else (record q { buf = update q.buf q.head item; head = next q.head }, true)

  unfoldable pub pop : Ring → Ring × Option ℕ
  pop q =
      if q.tail == q.head then (q, none) else (record q { tail = next q.tail }, some (q.buf q.tail))

  unfoldable pub size : Ring → ℕ
  size q = (q.head + 2 ^ 64 - q.tail) % 2 ^ 64 % capacity

unfoldable pub empty : Ring → Bool
empty q = q.tail == q.head

-- Where the producer stands inside push: before its load of tail, before the write of the item, or
-- before the store of head.
pub data Producer : Type 0 where
  outside : Producer
  writing publishing : ℕ → Producer

-- And the consumer inside pop: before its load of head, before the read, before the store of tail.
pub data Consumer : Type 0 where
  outside reading : Consumer
  releasing : ℕ → Consumer

-- The ring and both threads, with the items of the calls that have returned true so far.
pub record System : Type 0 where
  pub ring : Ring
  pub producer : Producer
  pub consumer : Consumer
  pub pushed : List ℕ
  pub popped : List ℕ

-- The steps of both threads, in any order; `pop` and `push` may be called again and again.
pub data Step (capacity : ℕ) (s : System) : System → Type 0 where
  push_full :
      s.producer ≡ Producer.outside → next capacity s.ring.head ≡ s.ring.tail → Step capacity s s
  push_checks :
      (item : ℕ)
      → s.producer ≡ Producer.outside
      → next capacity s.ring.head ≢ s.ring.tail
      → Step capacity s (record s { producer = writing item })
  push_writes :
      (item : ℕ)
      → s.producer ≡ writing item
      → Step capacity s (record s {
        ring = record {
          buf = update s.ring.buf s.ring.head item;
          head = s.ring.head;
          tail = s.ring.tail;
        };
        producer = publishing item;
      })
  push_publishes :
      (item : ℕ)
      → s.producer ≡ publishing item
      → Step capacity s (record s {
        ring = record { buf = s.ring.buf; head = next capacity s.ring.head; tail = s.ring.tail };
        producer = Producer.outside;
        pushed = s.pushed ++ (item ∷ []);
      })
  pop_empty : s.consumer ≡ Consumer.outside → s.ring.tail ≡ s.ring.head → Step capacity s s
  pop_checks :
      s.consumer ≡ Consumer.outside
      → s.ring.tail ≢ s.ring.head
      → Step capacity s (record s { consumer = reading })
  pop_reads :
      s.consumer ≡ reading
      → Step capacity s (record s { consumer = releasing (s.ring.buf s.ring.tail) })
  pop_releases :
      (item : ℕ)
      → s.consumer ≡ releasing item
      → Step capacity s (record s {
        ring = record { buf = s.ring.buf; head = s.ring.head; tail = next capacity s.ring.tail };
        consumer = Consumer.outside;
        popped = s.popped ++ (item ∷ []);
      })

abbrev pub start : (ℕ → ℕ) → System
start buf = record {
  ring = record { buf = buf; head = 0; tail = 0 };
  producer = Producer.outside;
  consumer = Consumer.outside;
  pushed = [];
  popped = [];
}

pub data Reach (capacity : ℕ) (buf : ℕ → ℕ) : System → Type 0 where
  here : Reach capacity buf (start buf)
  after : {s t : System} → Reach capacity buf s → Step capacity s t → Reach capacity buf t
