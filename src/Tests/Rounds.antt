-- ===== src/Tests/Rounds.antt =====
-- The theorems on the rounds of a thread pool, for a pool of one worker and one of none.
use puma.Base.{ℕ, ◌<◌, ◌≡◌, refl, arith, false, Option, some, none, List, [], ◌∷◌, ◌⊎◌, dec_lt}
use puma.ThreadPool.{ThreadPool, pool_of}
use puma.ThreadPool.Rounds.{
  made_barrier, Job, WorkerPc, outside, System, worker_step_at, master_step_at, worker_steps,
  master_steps, Reach, here, later, started_system,
}
use puma.ThreadPool.Once.{execute_on_thread_pool-once}
use puma.ThreadPool.Progress.{execute_on_thread_pool-returns}
use puma.ThreadPool.Stuck.{execute_on_thread_pool-stuck}

-- Whose turn it is.
data Turn : Type 0 where
  of_worker : ℕ → Turn
  of_master : Job → Turn

record Run (n : ℕ) (s : System) : Type 0 where
  last : System
  reach : Reach n s last

worker_turn :
    {n : ℕ} {s : System} (r : Run n s) (i : ℕ) (o : Option System)
    → i < n
    → worker_step_at (r.last.worker i) i r.last ≡ o
    → Run n s
worker_turn r i none lt e = r
worker_turn r i (some t) lt e = record { last = t; reach = later r.reach (worker_steps i lt e) }

master_turn :
    {n : ℕ} {s : System} (r : Run n s) (work : Job) (o : Option System)
    → master_step_at r.last.master work r.last ≡ o
    → Run n s
master_turn r work none e = r
master_turn r work (some t) e = record { last = t; reach = later r.reach (master_steps work e) }

one_turn : {n : ℕ} {s : System} → Turn → Run n s → Run n s
unfolding worker_turn master_turn dec_lt worker_step_at master_step_at
one_turn {n} (of_worker i) r = elim (dec_lt i n) [
  | yes lt ↦ worker_turn r i (worker_step_at (r.last.worker i) i r.last) lt refl
  | no ge ↦ r
]
one_turn (of_master work) r = master_turn r work (master_step_at r.last.master work r.last) refl

turns : {n : ℕ} (s : System) → List Turn → Run n s
unfolding one_turn
turns s [] = record { last = s; reach = here }
turns s (x ∷ rest) = one_turn x (turns s rest)

abbrev work : Job
work = record { work_function = 40; arg = 50 }

abbrev one_worker : ThreadPool
one_worker = pool_of 1 (record { cpu = 0; thread_num = 0 } ∷ [])

abbrev resting : System
resting = record {
  work_wait_barrier = record { count = 0; trip_count = 2; sleeping = 0; awake = 0 };
  done_barrier = record { count = 0; trip_count = 2; sleeping = 0; awake = 0 };
  locked = false;
  job = record { work_function = 0; arg = 0 };
  worker = λ i. WorkerPc.at_work;
  master = outside;
  asked = [];
  log = λ i. [];
}

one_worker-starts : started_system one_worker ≡ some resting
unfolding started_system made_barrier
one_worker-starts = refl

-- A whole call, the latest turn first.
abbrev whole_call : List Turn
whole_call =
    of_master work
    ∷ of_worker 0
    ∷ of_worker 0
    ∷ of_worker 0
    ∷ of_master work
    ∷ of_worker 0
    ∷ of_master work
    ∷ of_master work
    ∷ []

after_call : System
after_call = (turns {n = 1} resting whole_call).last

after_call_ends : (after_call.master ≡ outside) × (after_call.log 0 ≡ work ∷ [])
unfolding after_call turns
after_call_ends = (refl, refl)

execute_on_thread_pool-once_example :
    (after_call.master ≡ outside → after_call.log 0 ≡ after_call.asked)
    × ((after_call.log 0 ≡ after_call.asked)
        ⊎ (after_call.asked ≡ after_call.job ∷ after_call.log 0))
unfolding after_call
execute_on_thread_pool-once_example =
    execute_on_thread_pool-once one_worker resting after_call 0 refl one_worker-starts
      (turns {n = 1} resting whole_call).reach (omega arith)

-- The master waits at the first barrier.
in_call : System
in_call = (turns {n = 1} resting (of_master work ∷ of_master work ∷ [])).last

execute_on_thread_pool-returns_example :
    (u : System) × Reach 1 in_call u × (u.asked ≡ in_call.asked) × (u.master ≡ outside)
unfolding in_call
execute_on_thread_pool-returns_example =
    execute_on_thread_pool-returns one_worker resting in_call refl one_worker-starts
      (turns {n = 1} resting (of_master work ∷ of_master work ∷ [])).reach

abbrev no_worker : ThreadPool
no_worker = pool_of 1 []

no_worker-starts : started_system no_worker ≡ some resting
unfolding started_system made_barrier
no_worker-starts = refl

alone : System
alone = (turns {n = 0} resting (of_master work ∷ of_master work ∷ [])).last

execute_on_thread_pool-stuck_example :
    (alone.master ≡ outside → alone.asked ≡ []) × ((i : ℕ) → alone.log i ≡ [])
unfolding alone
execute_on_thread_pool-stuck_example =
    execute_on_thread_pool-stuck no_worker resting alone (omega arith) no_worker-starts
      (turns {n = 0} resting (of_master work ∷ of_master work ∷ [])).reach
