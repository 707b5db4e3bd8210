-- ===== src/Parallel/Pool.antt =====
-- src/parallel/thread_pool.hpp, ThreadPool, with `n` workers and one thread that owns it. What runs
-- under the mutex is one step, and so is each notification, which the owner gives behind it; a task is
-- its number, and what it does is one step too. A thread that waits on a condition variable is asleep
-- until it is notified, or wakes without cause.
pub mod Invariant
pub mod Wake
pub mod Progress
use orot.Base.{
  ℕ, zero, suc, ◌+◌, ◌-◌, ◌<◌, ◌≡◌, ◌≢◌, Bool, true, false, List, [], ◌∷◌, ◌++◌, update, ◌==◌,
  if◌then◌else◌,
}

-- Where a worker stands in worker_loop: at the test of the wait, in it, at its task, or before its
-- report.
pub data Worker : Type 0 where
  idle asleep exited : Worker
  running reporting : ℕ → Worker

-- Where the owner stands: outside the calls, in submit before its notification, at the test of
-- wait_all or asleep behind it, in the destructor before its notification or at the joins.
pub data Owner : Type 0 where
  outside notifying checking waiting stopping joining : Owner

-- `submitted` and `executed` are histories.
pub record Pool : Type 0 where
  pub workers : ℕ → Worker
  pub caller : Owner
  pub queue : List ℕ
  pub pending : ℕ
  pub stop : Bool
  pub submitted : List ℕ
  pub executed : List ℕ

-- The constructor starts the workers.
abbrev pub start : Pool
start = record {
  workers = λ i. idle;
  caller = outside;
  queue = [];
  pending = 0;
  stop = false;
  submitted = [];
  executed = [];
}

-- What a notification does to one who is asleep.
abbrev pub woken : Worker → Worker
woken idle = idle
woken asleep = idle
woken exited = exited
woken (running task) = running task
woken (reporting task) = reporting task

abbrev pub called : Owner → Owner
called outside = outside
called notifying = notifying
called checking = checking
called waiting = checking
called stopping = stopping
called joining = joining

-- The steps of the owner: submit with its notify_one, which wakes one worker that is asleep, if any
-- is; wait_all; the destructor with its notify_all, behind which nothing is submitted.
pub data OwnerStep (n : ℕ) (s : Pool) : Pool → Type 0 where
  submit :
      (task : ℕ)
      → s.caller ≡ outside
      → s.stop ≡ false
      → OwnerStep n s (record s {
        caller = notifying;
        queue = s.queue ++ (task ∷ []);
        pending = s.pending + 1;
        submitted = s.submitted ++ (task ∷ []);
      })
  notifies_one :
      (i : ℕ)
      → i < n
      → s.caller ≡ notifying
      → s.workers i ≡ asleep
      → OwnerStep n s (record s { workers = update s.workers i idle; caller = outside })
  notifies_none :
      s.caller ≡ notifying
      → ((i : ℕ) → i < n → s.workers i ≢ asleep)
      → OwnerStep n s (record s { caller = outside })
  wait_all : s.caller ≡ outside → OwnerStep n s (record s { caller = checking })
  waits : s.caller ≡ checking → s.pending ≢ 0 → OwnerStep n s (record s { caller = waiting })
  returns : s.caller ≡ checking → s.pending ≡ 0 → OwnerStep n s (record s { caller = outside })
  destroy : s.caller ≡ outside → OwnerStep n s (record s { stop = true; caller = stopping })
  notifies_all :
      s.caller ≡ stopping
      → OwnerStep n s (record s { workers = λ i. woken (s.workers i); caller = joining })

-- The steps of the workers. The report that leaves nothing pending notifies the owner.
pub data WorkerStep (n : ℕ) (s : Pool) : Pool → Type 0 where
  sleeps :
      (i : ℕ)
      → i < n
      → s.workers i ≡ idle
      → s.stop ≡ false
      → s.queue ≡ []
      → WorkerStep n s (record s { workers = update s.workers i asleep })
  takes :
      (i task : ℕ) (rest : List ℕ)
      → i < n
      → s.workers i ≡ idle
      → s.queue ≡ task ∷ rest
      → WorkerStep n s (record s { workers = update s.workers i (running task); queue = rest })
  runs :
      (i task : ℕ)
      → i < n
      → s.workers i ≡ running task
      → WorkerStep n s (record s {
        workers = update s.workers i (reporting task);
        executed = s.executed ++ (task ∷ []);
      })
  reports :
      (i task : ℕ)
      → i < n
      → s.workers i ≡ reporting task
      → WorkerStep n s (record s {
        workers = update s.workers i idle;
        pending = s.pending - 1;
        caller = if s.pending - 1 == 0 then called s.caller else s.caller;
      })
  exits :
      (i : ℕ)
      → i < n
      → s.workers i ≡ idle
      → s.stop ≡ true
      → s.queue ≡ []
      → WorkerStep n s (record s { workers = update s.workers i exited })

-- A thread wakes without cause.
pub data Spurious (n : ℕ) (s : Pool) : Pool → Type 0 where
  wakes :
      (i : ℕ)
      → i < n
      → s.workers i ≡ asleep
      → Spurious n s (record s { workers = update s.workers i idle })
  returns_early : s.caller ≡ waiting → Spurious n s (record s { caller = checking })

pub data Reach (n : ℕ) : Pool → Type 0 where
  here : Reach n start
  owner : {s t : Pool} → Reach n s → OwnerStep n s t → Reach n t
  worker : {s t : Pool} → Reach n s → WorkerStep n s t → Reach n t
  spurious : {s t : Pool} → Reach n s → Spurious n s t → Reach n t

-- So many steps of the workers alone, while the owner waits.
pub data Works (n : ℕ) : ℕ → Pool → Pool → Type 0 where
  none_yet : {s : Pool} → Works n 0 s s
  more : {k : ℕ} {s t u : Pool} → WorkerStep n s t → Works n k t u → Works n (suc k) s u

-- wait_all returns.
abbrev pub IsQuiet : Pool → Type 0
IsQuiet s = s.pending ≡ 0

-- The owner is in wait_all.
abbrev pub in_wait_all : Owner → Bool
in_wait_all checking = true
in_wait_all waiting = true
in_wait_all outside = false
in_wait_all notifying = false
in_wait_all stopping = false
in_wait_all joining = false
