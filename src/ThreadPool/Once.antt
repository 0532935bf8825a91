-- ===== src/ThreadPool/Once.antt =====
-- The workers of a pool call the work of each `executeOnThreadPool` once each, before it returns.
use mathlib.Core.Path.{subst}
use puma.Base.{ℕ, ◌+◌, ◌<◌, ◌≡◌, refl, arith, false, some, List, ◌∷◌, inl, inr, ◌⊎◌, ◌==◌, length}
use puma.ThreadPool.{ThreadPool}
use puma.ThreadPool.Family.{how_many-none}
use puma.ThreadPool.Rounds.{
  made_barrier, Job, WorkerPc, at_work, asleep_work, reads, calls_function, called, asleep_done,
  outside, System, Step, worker_steps, master_steps, Reach, here, later, started_system,
}
use puma.ThreadPool.Places.{sleeps_work, sleeps_done, Stage, stage_of, Fits, Inv}
use puma.ThreadPool.Safety.{some_path, worker_step_at-Inv, master_step_at-Inv}

pub made_barrier-some :
    (n : ℕ)
    → 0 < n
    → made_barrier n ≡ some (record { count = 0; trip_count = n; sleeping = 0; awake = 0 })
unfolding made_barrier
made_barrier-some n lt = let e : (n == 0) ≡ false = ground arith in rw e refl

started_system-Inv :
    (pool : ThreadPool) (s : System)
    → pool.barrier_count ≡ length pool.workers + 1
    → started_system pool ≡ some s
    → Inv (length pool.workers) s
unfolding started_system
started_system-Inv pool s whole start =
    let made = made_barrier-some pool.barrier_count (omega (arith, whole)) in
    let n = length pool.workers in
    let none_work = how_many-none sleeps_work n (λ i. at_work) (λ i lt. refl) in
    let none_done = how_many-none sleeps_done n (λ i. at_work) (λ i lt. refl) in
    subst (Inv n) (some_path (rw made at start)) (record {
      work_trip = whole;
      done_trip = whole;
      work_count = omega (arith, none_work);
      done_count = omega (arith, none_done);
      work_few = omega arith;
      done_few = omega arith;
      lock = refl;
      fits = λ i lt. refl;
    })

pub Step-Inv : {n : ℕ} {s t : System} → Step n s t → Inv n s → Inv n t
Step-Inv {n} {s} {t} (worker_steps i lt went) inv =
    worker_step_at-Inv n s inv (s.worker i) i t lt refl went
Step-Inv {n} {s} {t} (master_steps work went) inv =
    master_step_at-Inv n s inv s.master work t refl went

pub Reach-Inv :
    (pool : ThreadPool) {s t : System}
    → pool.barrier_count ≡ length pool.workers + 1
    → started_system pool ≡ some s
    → Reach (length pool.workers) s t
    → Inv (length pool.workers) t
Reach-Inv pool {s} whole start here = started_system-Inv pool s whole start
Reach-Inv pool whole start (later r step) = Step-Inv step (Reach-Inv pool whole start r)

resting_log :
    (p : WorkerPc) (job : Job) (asked log : List Job)
    → Fits Stage.resting p job asked log
    → log ≡ asked
resting_log at_work job asked log fit = fit
resting_log asleep_work job asked log fit = fit
resting_log reads job asked log fit = absurd fit
resting_log (calls_function j) job asked log fit = absurd fit
resting_log called job asked log fit = absurd fit
resting_log asleep_done job asked log fit = absurd fit

any_log :
    (stage : Stage) (p : WorkerPc) (job : Job) (asked log : List Job)
    → Fits stage p job asked log
    → (log ≡ asked) ⊎ (asked ≡ job ∷ log)
any_log Stage.resting p job asked log fit = inl (resting_log p job asked log fit)
any_log Stage.asking at_work job asked log fit = inr fit
any_log Stage.asking asleep_work job asked log fit = inr fit
any_log Stage.asking reads job asked log fit = absurd fit
any_log Stage.asking (calls_function j) job asked log fit = absurd fit
any_log Stage.asking called job asked log fit = absurd fit
any_log Stage.asking asleep_done job asked log fit = absurd fit
any_log Stage.working at_work job asked log fit = absurd fit
any_log Stage.working asleep_work job asked log fit = absurd fit
any_log Stage.working reads job asked log fit = inr fit
any_log Stage.working (calls_function j) job asked log fit = inr fit.1
any_log Stage.working called job asked log fit = inl fit
any_log Stage.working asleep_done job asked log fit = inl fit

-- In a pool that has started as many workers as its barriers count besides the master, in every order
-- of the steps of the workers and the master: whenever no call of `executeOnThreadPool` is under way,
-- each worker has called the function of each call so far, with its argument, once each and in the
-- order of the calls. While one is under way, each worker has called those of the calls before it, and
-- that of this one at most once.
pub execute_on_thread_pool-once :
    (pool : ThreadPool) (s t : System) (i : ℕ)
    → pool.barrier_count ≡ length pool.workers + 1
    → started_system pool ≡ some s
    → Reach (length pool.workers) s t
    → i < length pool.workers
    → (t.master ≡ outside → t.log i ≡ t.asked) × ((t.log i ≡ t.asked) ⊎ (t.asked ≡ t.job ∷ t.log i))
execute_on_thread_pool-once pool s t i whole start r lt =
    let inv = Reach-Inv pool whole start r in
    let fit = inv.fits i lt in
    (
      λ out. resting_log (t.worker i) t.job t.asked (t.log i) (rw out at fit),
      any_log (stage_of t.master) (t.worker i) t.job t.asked (t.log i) fit,
    )
