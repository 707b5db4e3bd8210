-- ===== src/Parallel/Pool/Progress.antt =====
-- What wait_all of ThreadPool promises, src/parallel/thread_pool.hpp.
use native.Mathlib.Decide.{ℕ_discrete}
use orot.Base.{
  count, ℕ, ◌+◌, ◌-◌, ◌*◌, ◌≤◌, ◌<◌, ◌≡◌, ◌≢◌, ◌⊎◌, inl, inr, refl, ap, true, false, List, [], ◌∷◌,
  arith, length, ◌==◌, if-both,
}
use orot.Parallel.Family.{total, total-update, total-le, total_member}
use orot.Parallel.Pool.{
  Worker, idle, asleep, exited, running, reporting, Owner, outside, notifying, checking, waiting,
  stopping, joining, called, Pool, WorkerStep, sleeps, takes, runs, reports, exits, Reach, worker,
  Works, none_yet, more, IsQuiet, in_wait_all,
}
use orot.Parallel.Pool.Invariant.{busy, holds, ahead, Inv, Reach-Inv}
use orot.Parallel.Pool.Wake.{awake, about_to_notify, Lively, Reach-Lively}

holds-le-busy : (a : ℕ) (w : Worker) → holds a w ≤ busy w
holds-le-busy a idle = omega arith
holds-le-busy a asleep = omega arith
holds-le-busy a exited = omega arith
holds-le-busy a (running task) = ground arith
holds-le-busy a (reporting task) = omega arith

-- When wait_all returns, the queue is empty and every task ran as often as it was submitted,
-- whatever the order of the steps of owner and workers was.
pub Reach-quiet :
    (n : ℕ) (s : Pool)
    → Reach n s
    → IsQuiet s
    → (length s.queue ≡ 0) × ((a : ℕ) → count a s.executed ≡ count a s.submitted)
Reach-quiet n s r quiet = (
  omega (arith, v.counted, quiet),
  λ a. omega (
    arith,
    v.kept a,
    v.counted,
    quiet,
    total-le (holds a) busy n s.workers (holds-le-busy a),
    empty s.queue (omega (arith, v.counted, quiet)) a,
  ),
)
  where
    v : Inv n s
    v = Reach-Inv n r

    empty : (queue : List ℕ) → length queue ≡ 0 → (a : ℕ) → count a queue ≡ 0
    empty [] h a = refl
    empty (x ∷ queue) h a = absurd (omega arith)

-- The steps that the workers have ahead of them at most, until each sleeps or has exited.
abbrev pub measure : ℕ → Pool → ℕ
measure n s = 3 * length s.queue + total ahead n s.workers

-- Each step of a worker is one less.
WorkerStep-measure : (n : ℕ) {s t : Pool} → WorkerStep n s t → measure n t < measure n s
WorkerStep-measure n {s} (sleeps i lt at going q) =
    omega (arith, ap ahead at, total-update ahead n i asleep s.workers lt)
WorkerStep-measure n {s} (takes i task rest lt at q) =
    omega (arith, ap length q, ap ahead at, total-update ahead n i (running task) s.workers lt)
WorkerStep-measure n {s} (runs i task lt at) =
    omega (arith, ap ahead at, total-update ahead n i (reporting task) s.workers lt)
WorkerStep-measure n {s} (reports i task lt at) =
    omega (arith, ap ahead at, total-update ahead n i idle s.workers lt)
WorkerStep-measure n {s} (exits i lt at stopped q) =
    omega (arith, ap ahead at, total-update ahead n i exited s.workers lt)

Works-measure : (n k : ℕ) {s t : Pool} → Works n k s t → k + measure n t ≤ measure n s
Works-measure n _ none_yet = omega arith
Works-measure n _ (more {k} st w) = omega (arith, WorkerStep-measure n st, Works-measure n k w)

Works-Reach : (n k : ℕ) {s t : Pool} → Reach n s → Works n k s t → Reach n t
Works-Reach n _ r none_yet = r
Works-Reach n _ r (more {k} st w) = Works-Reach n k (worker r st) w

called-in_wait_all : (c : Owner) → in_wait_all c ≡ true → in_wait_all (called c) ≡ true
called-in_wait_all outside e = e
called-in_wait_all notifying e = e
called-in_wait_all checking e = e
called-in_wait_all waiting e = refl
called-in_wait_all stopping e = e
called-in_wait_all joining e = e

-- The workers do not take the owner out of wait_all.
Works-in_wait_all :
    (n k : ℕ) {s t : Pool}
    → Works n k s t
    → in_wait_all s.caller ≡ true
    → in_wait_all t.caller ≡ true
Works-in_wait_all n _ none_yet e = e
Works-in_wait_all n _ (more {k} (sleeps i lt at going q) w) e = Works-in_wait_all n k w e
Works-in_wait_all n _ (more {k} (takes i task rest lt at q) w) e = Works-in_wait_all n k w e
Works-in_wait_all n _ (more {k} (runs i task lt at) w) e = Works-in_wait_all n k w e
Works-in_wait_all n _ (more {k} {s} (reports i task lt at) w) e = Works-in_wait_all n k w (
    if-both (λ c. in_wait_all c ≡ true) (s.pending - 1 == 0) (called s.caller) s.caller
      (λ _. called-in_wait_all s.caller e) (λ _. e))
Works-in_wait_all n _ (more {k} (exits i lt at stopped q) w) e = Works-in_wait_all n k w e

-- A worker at its task goes on.
step_busy :
    (n : ℕ) (s : Pool) (i : ℕ) (w : Worker)
    → i < n
    → s.workers i ≡ w
    → 0 < busy w
    → (t : Pool) × WorkerStep n s t
step_busy n s i idle lt at h = absurd (omega arith)
step_busy n s i asleep lt at h = absurd (omega arith)
step_busy n s i exited lt at h = absurd (omega arith)
step_busy n s i (running task) lt at h = (_, runs i task lt at)
step_busy n s i (reporting task) lt at h = (_, reports i task lt at)

-- One that is awake and at no task takes one.
step_awake :
    (n : ℕ) (s : Pool) (i : ℕ) (w : Worker) (queue : List ℕ)
    → i < n
    → s.workers i ≡ w
    → 0 < awake w
    → s.queue ≡ queue
    → 0 < length queue
    → (t : Pool) × WorkerStep n s t
step_awake n s i w [] lt at h q some_task = absurd (omega arith)
step_awake n s i idle (task ∷ rest) lt at h q some_task = (_, takes i task rest lt at q)
step_awake n s i asleep (task ∷ rest) lt at h q some_task = absurd (omega arith)
step_awake n s i exited (task ∷ rest) lt at h q some_task = absurd (omega arith)
step_awake n s i (running x) (task ∷ rest) lt at h q some_task = (_, runs i x lt at)
step_awake n s i (reporting x) (task ∷ rest) lt at h q some_task = (_, reports i x lt at)

quiet_caller : (c : Owner) → in_wait_all c ≡ true → about_to_notify c ≡ false
quiet_caller outside e = refl
quiet_caller notifying e = absurd (cc)
quiet_caller checking e = refl
quiet_caller waiting e = refl
quiet_caller stopping e = absurd (cc)
quiet_caller joining e = refl

-- While the owner is in wait_all and something is pending, a worker can take a step.
onward :
    (n : ℕ) (s : Pool)
    → Inv n s
    → Lively n s
    → in_wait_all s.caller ≡ true
    → s.pending ≢ 0
    → (t : Pool) × WorkerStep n s t
onward n s v l inside ne = elim (ℕ_discrete (total busy n s.workers) 0) [
  | no some_busy ↦
      let (i, lt, h) = total_member busy n s.workers (omega arith) in
      step_busy n s i (s.workers i) lt refl h
  | yes all_idle ↦
      let some_task : 0 < length s.queue = omega (arith, v.counted, all_idle) in
      let (i, lt, h) =
        total_member awake n s.workers (l.staffed some_task (quiet_caller s.caller inside)) in
      step_awake n s i (s.workers i) s.queue lt refl h refl some_task
]

awake_caller : (c : Owner) → in_wait_all c ≡ true → c ≢ waiting → c ≡ checking
awake_caller outside e ne = absurd (cc)
awake_caller notifying e ne = absurd (cc)
awake_caller checking e ne = refl
awake_caller waiting e ne = absurd (ne refl)
awake_caller stopping e ne = absurd (cc)
awake_caller joining e ne = absurd (cc)

-- No wake-up is lost: with a worker, and the owner in wait_all of a reachable state, every run of the
-- steps of the workers has at most measure of them, three for each task in the queue and those that
-- the workers have ahead; and where it has led, a worker can take another step, or nothing is pending
-- and the owner is awake, so that wait_all returns.
pub Reach-finish :
    (n k : ℕ) (s t : Pool)
    → 0 < n
    → Reach n s
    → in_wait_all s.caller ≡ true
    → Works n k s t
    → (k ≤ measure n s) × ((IsQuiet t × (t.caller ≡ checking)) ⊎ ((u : Pool) × WorkerStep n t u))
Reach-finish n k s t pos r inside w =
    let r' = Works-Reach n k r w in
    let l = Reach-Lively n pos r' in
    let inside' = Works-in_wait_all n k w inside in
    (
      omega (arith, Works-measure n k w),
      elim (ℕ_discrete t.pending 0) [
        | yes e ↦ inl (e, awake_caller t.caller inside' (λ asleep_there. l.waited asleep_there e))
        | no ne ↦ inr (onward n t (Reach-Inv n r') l inside' ne)
      ],
    )
