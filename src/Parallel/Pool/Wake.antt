-- ===== src/Parallel/Pool/Wake.antt =====
-- No notification of ThreadPool is missing, src/parallel/thread_pool.hpp: a task in the queue has a
-- worker that will look for it, and the owner sleeps only while something is pending.
use orot.Base.{
  ℕ, ◌-◌, ◌<◌, ◌≡◌, ◌≢◌, refl, ap, Bool, true, false, List, [], arith, length, ◌==◌, ==_iff, update,
  if-both,
}
use orot.Parallel.Family.{total, total-update, le-total}
use orot.Parallel.Pool.{
  Worker, idle, asleep, exited, running, reporting, Owner, outside, notifying, checking, waiting,
  stopping, joining, woken, called, Pool, OwnerStep, submit, notifies_one, notifies_none, wait_all,
  waits, returns, destroy, notifies_all, WorkerStep, sleeps, takes, runs, reports, exits, Spurious,
  wakes, returns_early, Reach, here, owner, worker, spurious,
}
use orot.Parallel.Pool.Invariant.{Inv, Reach-Inv}

-- A worker that will look at the queue again.
abbrev pub awake : Worker → ℕ
awake idle = 1
awake asleep = 0
awake exited = 0
awake (running task) = 1
awake (reporting task) = 1

-- The owner has still to notify.
abbrev pub about_to_notify : Owner → Bool
about_to_notify outside = false
about_to_notify notifying = true
about_to_notify checking = false
about_to_notify waiting = false
about_to_notify stopping = true
about_to_notify joining = false

pub record Lively (n : ℕ) (s : Pool) : Type 0 where
  pub staffed : 0 < length s.queue → about_to_notify s.caller ≡ false → 0 < total awake n s.workers
  pub waited : s.caller ≡ waiting → s.pending ≢ 0

present : (w : Worker) → w ≢ asleep → w ≢ exited → awake w ≡ 1
present idle ne ne' = refl
present asleep ne ne' = absurd (ne refl)
present exited ne ne' = absurd (ne' refl)
present (running task) ne ne' = refl
present (reporting task) ne ne' = refl

woken_present : (w : Worker) → w ≢ exited → awake (woken w) ≡ 1
woken_present idle ne = refl
woken_present asleep ne = refl
woken_present exited ne = absurd (ne refl)
woken_present (running task) ne = refl
woken_present (reporting task) ne = refl

called_awake : (c : Owner) → called c ≢ waiting
called_awake outside e = cc
called_awake notifying e = cc
called_awake checking e = cc
called_awake waiting e = cc
called_awake stopping e = cc
called_awake joining e = cc

-- One worker's change that leaves it awake.
awake_one :
    (n : ℕ) (s : Pool) (i : ℕ) (w : Worker)
    → i < n
    → awake w ≡ 1
    → 0 < total awake n (update s.workers i w)
awake_one n s i w lt e =
    omega (arith, e, total-update awake n i w s.workers lt, le-total awake n i s.workers lt)

-- While the queue holds a task no worker is gone.
stays : (n : ℕ) {s : Pool} → Inv n s → (i : ℕ) → 0 < length s.queue → s.workers i ≢ exited
stays n v i some_task e = omega (arith, some_task, ap length (v.gone i e).1)

module _ (n : ℕ) (pos : 0 < n) where
  OwnerStep-Lively : {s t : Pool} → Inv n s → Lively n s → OwnerStep n s t → Lively n t
  OwnerStep-Lively v l (submit task at going) = record {
    staffed = λ q e. absurd (cc);
    waited = λ e. absurd (cc);
  }
  OwnerStep-Lively {s} v l (notifies_one i lt at sleeping) = record {
    staffed = λ q e. awake_one n s i idle lt refl;
    waited = λ e. absurd (cc);
  }
  OwnerStep-Lively {s} v l (notifies_none at none) = record {
    staffed = λ q e. omega (
      arith,
      present (s.workers 0) (none 0 pos) (stays n v 0 q),
      le-total awake n 0 s.workers pos,
    );
    waited = λ e. absurd (cc);
  }
  OwnerStep-Lively v l (wait_all at) = record {
    staffed = λ q e. l.staffed q (ap about_to_notify at);
    waited = λ e. absurd (cc);
  }
  OwnerStep-Lively v l (waits at ne) = record {
    staffed = λ q e. l.staffed q (ap about_to_notify at);
    waited = λ e. ne;
  }
  OwnerStep-Lively v l (returns at none) = record {
    staffed = λ q e. l.staffed q (ap about_to_notify at);
    waited = λ e. absurd (cc);
  }
  OwnerStep-Lively v l (destroy at) = record {
    staffed = λ q e. absurd (cc);
    waited = λ e. absurd (cc);
  }
  OwnerStep-Lively {s} v l (notifies_all at) = record {
    staffed = λ q e. omega (
      arith,
      woken_present (s.workers 0) (stays n v 0 q),
      le-total awake n 0 (λ i. woken (s.workers i)) pos,
    );
    waited = λ e. absurd (cc);
  }

  no_task : (queue : List ℕ) → queue ≡ [] → 0 < length queue → ⊥
  no_task queue q h = omega (arith, h, ap length q)

  pub WorkerStep-Lively : {s t : Pool} → Lively n s → WorkerStep n s t → Lively n t
  WorkerStep-Lively {s} l (sleeps i lt at going q) = record {
    staffed = λ h e. absurd (no_task s.queue q h);
    waited = l.waited;
  }
  WorkerStep-Lively {s} l (takes i task rest lt at q) = record {
    staffed = λ h e. awake_one n s i (running task) lt refl;
    waited = l.waited;
  }
  WorkerStep-Lively {s} l (runs i task lt at) = record {
    staffed = λ h e. awake_one n s i (reporting task) lt refl;
    waited = l.waited;
  }
  WorkerStep-Lively {s} l (reports i task lt at) = record {
    staffed = λ h e. awake_one n s i idle lt refl;
    waited =
        if-both (λ c. c ≡ waiting → s.pending - 1 ≢ 0) (s.pending - 1 == 0) (called s.caller)
          s.caller (λ _ e. absurd (called_awake s.caller e))
          (λ more e z. let last = (==_iff (s.pending - 1) 0).1 z in absurd (cc));
  }
  WorkerStep-Lively {s} l (exits i lt at stopped q) = record {
    staffed = λ h e. absurd (no_task s.queue q h);
    waited = l.waited;
  }

  Spurious-Lively : {s t : Pool} → Lively n s → Spurious n s t → Lively n t
  Spurious-Lively {s} l (wakes i lt at) = record {
    staffed = λ h e. awake_one n s i idle lt refl;
    waited = l.waited;
  }
  Spurious-Lively l (returns_early at) = record {
    staffed = λ q e. l.staffed q (ap about_to_notify at);
    waited = λ e. absurd (cc);
  }

  pub Reach-Lively : {s : Pool} → Reach n s → Lively n s
  Reach-Lively here = record { staffed = λ q e. absurd (omega arith); waited = λ e. absurd (cc) }
  Reach-Lively (owner r st) = OwnerStep-Lively (Reach-Inv n r) (Reach-Lively r) st
  Reach-Lively (worker r st) = WorkerStep-Lively (Reach-Lively r) st
  Reach-Lively (spurious r st) = Spurious-Lively (Reach-Lively r) st
