-- ===== src/ThreadPool/Rounds.antt =====
-- `executeOnThreadPool` and `_threadPoolWorker` of src/pumathreadpool.c, in the build without OpenMP, as
-- steps of the workers and of the thread that calls the pool, their master, in any order. A wait at a
-- barrier of the C library is that of Barrier.
use puma.Base.{
  ℕ, ◌<◌, ◌≡◌, ◌==◌, Bool, true, false, Option, none, some, List, [], ◌∷◌, if◌then◌else◌,
}
use puma.Memory.{Ptr, update}
use puma.Barrier.{Barrier, barrier_wait}
use puma.ThreadPool.{ThreadPool}

-- `workFunction` and `arg`.
pub record Job : Type 0 where
  pub work_function : Ptr
  pub arg : Ptr

-- Where a worker is in its loop: about to wait at the first barrier; waiting there; behind it; with its
-- copies of `workFunction` and `arg`; back from the call; waiting at the second barrier.
pub data WorkerPc : Type 0 where
  at_work : WorkerPc
  asleep_work : WorkerPc
  reads : WorkerPc
  calls_function : Job → WorkerPc
  called : WorkerPc
  asleep_done : WorkerPc

-- Where the master is: not in a call; with the lock, its work stored; waiting at the first barrier;
-- behind it; without the lock; waiting at the second barrier.
pub data MasterPc : Type 0 where
  outside : MasterPc
  stored : MasterPc
  waits_work : MasterPc
  past_work : MasterPc
  unlocked : MasterPc
  waits_done : MasterPc

-- The pool that the threads share, and where they are. `asked` and `log` are for the theorems: the work
-- of all calls, and that which each worker has called, the latest first.
pub record System : Type 0 where
  pub work_wait_barrier : Barrier
  pub done_barrier : Barrier
  pub locked : Bool
  pub job : Job
  pub worker : ℕ → WorkerPc
  pub master : MasterPc
  pub asked : List Job
  pub log : ℕ → List Job

-- Those who wait at the first barrier go on.
abbrev pub wake_work : WorkerPc → WorkerPc
wake_work at_work = at_work
wake_work asleep_work = reads
wake_work reads = reads
wake_work (calls_function j) = calls_function j
wake_work called = called
wake_work asleep_done = asleep_done

abbrev pub wake_master_work : MasterPc → MasterPc
wake_master_work outside = outside
wake_master_work stored = stored
wake_master_work waits_work = past_work
wake_master_work past_work = past_work
wake_master_work unlocked = unlocked
wake_master_work waits_done = waits_done

-- Those who wait at the second barrier go on.
abbrev pub wake_done : WorkerPc → WorkerPc
wake_done at_work = at_work
wake_done asleep_work = asleep_work
wake_done reads = reads
wake_done (calls_function j) = calls_function j
wake_done called = called
wake_done asleep_done = at_work

abbrev pub wake_master_done : MasterPc → MasterPc
wake_master_done outside = outside
wake_master_done stored = stored
wake_master_done waits_work = waits_work
wake_master_done past_work = past_work
wake_master_done unlocked = unlocked
wake_master_done waits_done = outside

-- What a call of `pthread_barrier_wait` does to the threads; the Boolean is its early return, after the
-- broadcast.
unfoldable pub worker_waits_work : Bool × Barrier → ℕ → System → System
worker_waits_work (true, b) i s = record s {
  work_wait_barrier = b;
  worker = update (λ j. wake_work (s.worker j)) i reads;
  master = wake_master_work s.master;
}
worker_waits_work (false, b) i s = record s {
  work_wait_barrier = b;
  worker = update s.worker i asleep_work;
}

unfoldable pub worker_waits_done : Bool × Barrier → ℕ → System → System
worker_waits_done (true, b) i s = record s {
  done_barrier = b;
  worker = update (λ j. wake_done (s.worker j)) i at_work;
  master = wake_master_done s.master;
}
worker_waits_done (false, b) i s = record s {
  done_barrier = b;
  worker = update s.worker i asleep_done;
}

unfoldable pub master_waits_work : Bool × Barrier → System → System
master_waits_work (true, b) s = record s {
  work_wait_barrier = b;
  worker = λ j. wake_work (s.worker j);
  master = past_work;
}
master_waits_work (false, b) s = record s { work_wait_barrier = b; master = waits_work }

unfoldable pub master_waits_done : Bool × Barrier → System → System
master_waits_done (true, b) s = record s {
  done_barrier = b;
  worker = λ j. wake_done (s.worker j);
  master = outside;
}
master_waits_done (false, b) s = record s { done_barrier = b; master = waits_done }

-- The next step of `_threadPoolWorker` in worker `i`, which is at the given place; `none` where it has
-- to wait. The read lock, with the copies that are made under it, is one step.
unfoldable pub worker_step_at : WorkerPc → ℕ → System → Option System
unfolding worker_waits_work worker_waits_done barrier_wait
worker_step_at at_work i s = some (worker_waits_work (barrier_wait s.work_wait_barrier) i s)
worker_step_at asleep_work i s = none
worker_step_at reads i s =
    if s.locked then none else some (record s { worker = update s.worker i (calls_function s.job) })
worker_step_at (calls_function j) i s =
    some (record s { worker = update s.worker i called; log = update s.log i (j ∷ s.log i) })
worker_step_at called i s = some (worker_waits_done (barrier_wait s.done_barrier) i s)
worker_step_at asleep_done i s = none

-- The next step of `executeOnThreadPool`, or a call of it with `work`.
unfoldable pub master_step_at : MasterPc → (work : Job) → System → Option System
unfolding master_waits_work master_waits_done barrier_wait
master_step_at outside work s =
    if s.locked
    then none
    else some (record s { locked = true; job = work; master = stored; asked = work ∷ s.asked })
master_step_at stored work s = some (master_waits_work (barrier_wait s.work_wait_barrier) s)
master_step_at waits_work work s = none
master_step_at past_work work s = some (record s { locked = false; master = unlocked })
master_step_at unlocked work s = some (master_waits_done (barrier_wait s.done_barrier) s)
master_step_at waits_done work s = none

abbrev pub system_of : Option Barrier → Option System
system_of none = none
system_of (some b) = some (record {
  work_wait_barrier = b;
  done_barrier = b;
  locked = false;
  job = record { work_function = 0; arg = 0 };
  worker = λ i. at_work;
  master = outside;
  asked = [];
  log = λ i. [];
})

-- `pthread_barrier_init` as the C library has it: `EINVAL` for a count of 0. Its barrier counts with an
-- `unsigned int`.
unfoldable pub made_barrier : ℕ → Option Barrier
made_barrier count =
    if count == 0
    then none
    else some (record { count = 0; trip_count = count; sleeping = 0; awake = 0 })

-- The barriers of the pool, which are made alike; all workers are at the head of their loops.
unfoldable pub started_system : ThreadPool → Option System
started_system pool = system_of (made_barrier pool.barrier_count)

-- A step of one of `n` workers, or of the master.
pub data Step (n : ℕ) (s : System) : System → Type 0 where
  worker_steps :
      (i : ℕ) {t : System} → i < n → worker_step_at (s.worker i) i s ≡ some t → Step n s t
  master_steps : (work : Job) {t : System} → master_step_at s.master work s ≡ some t → Step n s t

pub data Reach (n : ℕ) (s : System) : System → Type 0 where
  here : Reach n s s
  later : {t u : System} → Reach n s t → Step n t u → Reach n s u
