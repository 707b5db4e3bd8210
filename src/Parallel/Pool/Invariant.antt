-- ===== src/Parallel/Pool/Invariant.antt =====
-- What holds of every state of ThreadPool, src/parallel/thread_pool.hpp.
use orot.Base.{
  count, count-append, ℕ, ◌+◌, ◌-◌, ◌≤◌, ◌<◌, ◌≡◌, ◌≢◌, refl, ap, sym, true, List, [], ◌∷◌, ◌++◌,
  arith, length, ◌==◌, if◌then◌else◌, update, length-append, if-both,
}
use orot.Parallel.Family.{total, total_zero, total-update, total_unchanged, le-total}
use orot.Parallel.Pool.{
  Worker, idle, asleep, exited, running, reporting, Owner, outside, woken, Pool, start, OwnerStep,
  submit, notifies_one, notifies_none, wait_all, waits, returns, destroy, notifies_all, WorkerStep,
  sleeps, takes, runs, reports, exits, Spurious, wakes, returns_early, Reach, here, owner, worker,
  spurious,
}

-- A worker that has taken a task and not reported it.
abbrev pub busy : Worker → ℕ
busy idle = 0
busy asleep = 0
busy exited = 0
busy (running task) = 1
busy (reporting task) = 1

-- A worker that has still to run the task `a`.
abbrev pub holds : ℕ → Worker → ℕ
holds a idle = 0
holds a asleep = 0
holds a exited = 0
holds a (running task) = if task == a then 1 else 0
holds a (reporting task) = 0

-- The steps that a worker has ahead until it sleeps or exits.
abbrev pub ahead : Worker → ℕ
ahead idle = 1
ahead asleep = 0
ahead exited = 0
ahead (running task) = 3
ahead (reporting task) = 2

pub record Inv (n : ℕ) (s : Pool) : Type 0 where
  pub counted : s.pending ≡ length s.queue + total busy n s.workers
  pub kept :
      (a : ℕ)
      → count a s.submitted ≡ count a s.queue + total (holds a) n s.workers + count a s.executed
  pub gone : (i : ℕ) → s.workers i ≡ exited → (s.stop ≡ true) × (s.queue ≡ [])

start-Inv : (n : ℕ) → Inv n start
start-Inv n = record {
  counted = omega (arith, total_zero busy n (λ i. idle) (λ i. refl));
  kept = λ a. omega (arith, total_zero (holds a) n (λ i. idle) (λ i. refl));
  gone = λ i e. absurd (cc);
}

-- What one worker's change does to the sums.
module _ (n : ℕ) (s : Pool) (i : ℕ) (w : Worker) (lt : i < n) where
  busy-update :
      total busy n (update s.workers i w) + busy (s.workers i) ≡ total busy n s.workers + busy w
  busy-update = total-update busy n i w s.workers lt

  holds-update :
      (a : ℕ)
      → total (holds a) n (update s.workers i w) + holds a (s.workers i)
        ≡ total (holds a) n s.workers + holds a w
  holds-update a = total-update (holds a) n i w s.workers lt

  busy-le : busy (s.workers i) ≤ total busy n s.workers
  busy-le = le-total busy n i s.workers lt

  gone_update :
      w ≢ exited
      → (stopped : Type 0) → ((j : ℕ) → s.workers j ≡ exited → stopped)
      → (j : ℕ) → update s.workers i w j ≡ exited
      → stopped
  gone_update ne stopped gone j =
      if-both (λ v. v ≡ exited → stopped) (j == i) w (s.workers j) (λ _ e. absurd (ne e))
        (λ _. gone j)

takes-Inv :
    (n : ℕ) (s : Pool) (i task : ℕ) (rest : List ℕ)
    → i < n
    → s.workers i ≡ idle
    → s.queue ≡ task ∷ rest
    → Inv n s
    → Inv n (record s { workers = update s.workers i (running task); queue = rest })
takes-Inv n s i task rest lt at q v = record {
  counted = omega (arith, v.counted, ap length q, ap busy at, busy-update n s i (running task) lt);
  kept = λ a.
      omega
        (arith, v.kept a, ap (count a) q, ap (holds a) at, holds-update n s i (running task) lt a);
  gone = λ j e.
      absurd (
        gone_update n s i (running task) lt (λ e'. cc) ⊥ (λ k g. let h = (v.gone k g).1 in cc) j e);
}

runs-Inv :
    (n : ℕ) (s : Pool) (i task : ℕ)
    → i < n
    → s.workers i ≡ running task
    → Inv n s
    → Inv n (record s {
      workers = update s.workers i (reporting task);
      executed = s.executed ++ (task ∷ []);
    })
runs-Inv n s i task lt at v = record {
  counted = omega (arith, v.counted, ap busy at, busy-update n s i (reporting task) lt);
  kept = λ a. omega (
    arith,
    v.kept a,
    count-append a s.executed (task ∷ []),
    ap (holds a) at,
    holds-update n s i (reporting task) lt a,
  );
  gone = gone_update n s i (reporting task) lt (λ e'. cc) _ v.gone;
}

reports-Inv :
    (n : ℕ) (s : Pool) (i task : ℕ) (caller : Owner)
    → i < n
    → s.workers i ≡ reporting task
    → Inv n s
    → Inv n
        (record s { workers = update s.workers i idle; pending = s.pending - 1; caller = caller })
reports-Inv n s i task caller lt at v = record {
  counted = omega (arith, v.counted, ap busy at, busy-update n s i idle lt, busy-le n s i idle lt);
  kept = λ a. omega (arith, v.kept a, ap (holds a) at, holds-update n s i idle lt a);
  gone = gone_update n s i idle lt (λ e'. cc) _ v.gone;
}

exits-Inv :
    (n : ℕ) (s : Pool) (i : ℕ)
    → i < n
    → s.workers i ≡ idle
    → s.stop ≡ true
    → s.queue ≡ []
    → Inv n s
    → Inv n (record s { workers = update s.workers i exited })
exits-Inv n s i lt at stopped q v = record {
  counted = omega (arith, v.counted, ap busy at, busy-update n s i exited lt);
  kept = λ a. omega (arith, v.kept a, ap (holds a) at, holds-update n s i exited lt a);
  gone = λ j e. (stopped, q);
}

-- A worker that is not at a task goes to sleep or wakes.
dozes-Inv :
    (n : ℕ) (s : Pool) (i : ℕ) (w : Worker) (caller : Owner)
    → i < n
    → busy w ≡ busy (s.workers i)
    → ((a : ℕ) → holds a w ≡ holds a (s.workers i))
    → w ≢ exited
    → Inv n s
    → Inv n (record s { workers = update s.workers i w; caller = caller })
dozes-Inv n s i w caller lt same same' ne v = record {
  counted = omega (arith, v.counted, same, busy-update n s i w lt);
  kept = λ a. omega (arith, v.kept a, same' a, holds-update n s i w lt a);
  gone = gone_update n s i w lt ne _ v.gone;
}

idles-Inv :
    (n : ℕ) (s : Pool) (i : ℕ) (caller : Owner)
    → i < n
    → s.workers i ≡ asleep
    → Inv n s
    → Inv n (record s { workers = update s.workers i idle; caller = caller })
idles-Inv n s i caller lt at =
    dozes-Inv n s i idle caller lt (ap busy (sym at)) (λ a. ap (holds a) (sym at)) (λ e. cc)

woken-exited : (w : Worker) → woken w ≡ exited → w ≡ exited
woken-exited idle e = absurd (cc)
woken-exited asleep e = absurd (cc)
woken-exited exited e = refl
woken-exited (running task) e = absurd (cc)
woken-exited (reporting task) e = absurd (cc)

busy-woken : (w : Worker) → busy (woken w) ≡ busy w
busy-woken idle = refl
busy-woken asleep = refl
busy-woken exited = refl
busy-woken (running task) = refl
busy-woken (reporting task) = refl

holds-woken : (a : ℕ) (w : Worker) → holds a (woken w) ≡ holds a w
holds-woken a idle = refl
holds-woken a asleep = refl
holds-woken a exited = refl
holds-woken a (running task) = refl
holds-woken a (reporting task) = refl

OwnerStep-Inv : (n : ℕ) {s t : Pool} → Inv n s → OwnerStep n s t → Inv n t
OwnerStep-Inv n {s} v (submit task at running_on) = record {
  counted = omega (arith, v.counted, length-append s.queue (task ∷ []));
  kept = λ a.
      omega (
        arith,
        v.kept a,
        count-append a s.queue (task ∷ []),
        count-append a s.submitted (task ∷ []),
      );
  gone = λ i e. let g = v.gone i e in absurd (ground (arith, g.0, running_on));
}
OwnerStep-Inv n {s} v (notifies_one i lt at sleeping) = idles-Inv n s i outside lt sleeping v
OwnerStep-Inv n v (notifies_none at none) = record {
  counted = v.counted;
  kept = v.kept;
  gone = v.gone;
}
OwnerStep-Inv n v (wait_all at) = record { counted = v.counted; kept = v.kept; gone = v.gone }
OwnerStep-Inv n v (waits at ne) = record { counted = v.counted; kept = v.kept; gone = v.gone }
OwnerStep-Inv n v (returns at e) = record { counted = v.counted; kept = v.kept; gone = v.gone }
OwnerStep-Inv n v (destroy at) = record {
  counted = v.counted;
  kept = v.kept;
  gone = λ i e. (refl, (v.gone i e).1);
}
OwnerStep-Inv n {s} v (notifies_all at) = record {
  counted = omega (arith, v.counted, total_unchanged busy woken n s.workers busy-woken);
  kept = λ a. omega (arith, v.kept a, total_unchanged (holds a) woken n s.workers (holds-woken a));
  gone = λ i e. v.gone i (woken-exited (s.workers i) e);
}

pub WorkerStep-Inv : (n : ℕ) {s t : Pool} → Inv n s → WorkerStep n s t → Inv n t
WorkerStep-Inv n {s} v (sleeps i lt at going q) =
    dozes-Inv n s i asleep s.caller lt (ap busy (sym at)) (λ a. ap (holds a) (sym at)) (λ e. cc) v
WorkerStep-Inv n {s} v (takes i task rest lt at q) = takes-Inv n s i task rest lt at q v
WorkerStep-Inv n {s} v (runs i task lt at) = runs-Inv n s i task lt at v
WorkerStep-Inv n {s} v (reports i task lt at) = reports-Inv n s i task _ lt at v
WorkerStep-Inv n {s} v (exits i lt at stopped q) = exits-Inv n s i lt at stopped q v

Spurious-Inv : (n : ℕ) {s t : Pool} → Inv n s → Spurious n s t → Inv n t
Spurious-Inv n {s} v (wakes i lt at) = idles-Inv n s i s.caller lt at v
Spurious-Inv n v (returns_early at) = record { counted = v.counted; kept = v.kept; gone = v.gone }

pub Reach-Inv : (n : ℕ) {s : Pool} → Reach n s → Inv n s
Reach-Inv n here = start-Inv n
Reach-Inv n (owner r st) = OwnerStep-Inv n (Reach-Inv n r) st
Reach-Inv n (worker r st) = WorkerStep-Inv n (Reach-Inv n r) st
Reach-Inv n (spurious r st) = Spurious-Inv n (Reach-Inv n r) st
