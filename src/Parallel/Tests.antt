-- ===== src/Parallel/Tests.antt =====
-- Runs of src/parallel, and the theorems at concrete states.
use orot.Base.{
  ◌≤◌, ◌⊎◌, count, ℕ, ◌+◌, ◌<◌, ◌≡◌, ◌↔◌, refl, false, List, [], ◌∷◌, ◌++◌, some, arith, length,
  update,
}
use orot.Parallel.Queue.{
  Ring, push, pop, System, Producer, Consumer, next, Reach, here, after, push_checks, push_writes,
  push_publishes,
}
use orot.Parallel.Queue.Fifo.{Reach-fifo, Reach-answers}
use orot.Parallel.Pool
use orot.Parallel.Pool.Progress.{measure, Reach-quiet, Reach-finish}

abbrev blank : ℕ → ℕ
blank i = 0

abbrev ring : Ring
ring = record { buf = blank; head = 3; tail = 3 }

-- A push wraps around the end of 4 places, and its item is popped.
push_run : (push 4 7 ring).0.head ≡ 0
unfolding push
push_run = refl

pop_run : (pop 4 (push 4 7 ring).0).1 ≡ some 7
unfolding push pop
pop_run = refl

full_run : (push 2 9 (push 2 7 (record { buf = blank; head = 0; tail = 0 })).0).1 ≡ false
unfolding push
full_run = refl

abbrev one_item : System
one_item = record {
  ring = record { buf = update blank 0 7; head = 1; tail = 0 };
  producer = Producer.outside;
  consumer = Consumer.outside;
  pushed = 7 ∷ [];
  popped = [];
}

one_item_reached : Reach 4 blank one_item
one_item_reached =
    after (after (after here (push_checks 7 refl (λ e. absurd (omega arith)))) (push_writes 7 refl))
      (push_publishes 7 refl)

Reach-fifo_example : (waiting : List ℕ) × (7 ∷ [] ≡ [] ++ waiting) × (length waiting < 4)
Reach-fifo_example = Reach-fifo 4 blank one_item (omega arith) one_item_reached

Reach-answers_example :
    ((next 4 1 ≡ 0) ↔ (length one_item.pushed + 1 ≡ length one_item.popped + 4))
    × ((0 ≡ one_item.ring.head) ↔ (length one_item.pushed ≡ length one_item.popped))
Reach-answers_example = Reach-answers 4 blank one_item (omega arith) one_item_reached

-- A task is submitted while both workers are at the test of their wait, and the owner goes to sleep in
-- wait_all.
abbrev submitted : Pool.Pool
submitted = record Pool.start {
  caller = Pool.waiting;
  queue = 5 ∷ [];
  pending = 1;
  submitted = 5 ∷ [];
}

submitted_reached : Pool.Reach 2 submitted
submitted_reached =
    Pool.owner
      (Pool.owner
        (Pool.owner (Pool.owner Pool.here (Pool.submit 5 refl refl))
          (Pool.notifies_none refl (λ i lt e. cc)))
        (Pool.wait_all refl))
      (Pool.waits refl (λ e. absurd (omega (arith, e))))

abbrev served : Pool.Pool
served = record submitted {
  workers =
      update (update (update (λ i. Pool.idle) 1 (Pool.running 5)) 1 (Pool.reporting 5)) 1 Pool.idle;
  caller = Pool.checking;
  queue = [];
  pending = 0;
  executed = 5 ∷ [];
}

served-Works : Pool.Works 2 3 submitted served
served-Works = Pool.more (Pool.takes 1 5 [] (omega arith) refl refl) (
    Pool.more (Pool.runs 1 5 (omega arith) refl)
      (Pool.more (Pool.reports 1 5 (omega arith) refl) Pool.none_yet))

Reach-finish_example :
    (3 ≤ measure 2 submitted)
    × ((Pool.IsQuiet served × (◌≡◌ {A = Pool.Owner} Pool.checking Pool.checking))
        ⊎ ((u : Pool.Pool) × Pool.WorkerStep 2 served u))
Reach-finish_example =
    Reach-finish 2 3 submitted served (omega arith) submitted_reached refl served-Works

served_reached : Pool.Reach 2 served
served_reached =
    Pool.worker
      (Pool.worker (Pool.worker submitted_reached (Pool.takes 1 5 [] (omega arith) refl refl))
        (Pool.runs 1 5 (omega arith) refl))
      (Pool.reports 1 5 (omega arith) refl)

Reach-quiet_example :
    (length served.queue ≡ 0) × ((a : ℕ) → count a served.executed ≡ count a served.submitted)
Reach-quiet_example = Reach-quiet 2 served served_reached refl
