-- ===== src/ThreadPool/Stuck.antt =====
-- A pool with fewer workers than its barriers wait for.
use mathlib.Core.Path.{subst}
use puma.Base.{
  ℕ, ◌+◌, ◌≤◌, ◌<◌, ◌≡◌, refl, arith, true, false, leb, some, [], inl, inr, Bool-cases, length,
  ◌==◌, ℕ_discrete,
}
use puma.Memory.{update}
use puma.Barrier.{barrier_wait}
use puma.ThreadPool.{ThreadPool}
use puma.ThreadPool.Family.{how_many, how_many-update, how_many-none, how_many-le}
use puma.ThreadPool.Rounds.{
  Job, WorkerPc, at_work, asleep_work, reads, calls_function, called, asleep_done, MasterPc,
  outside, stored, waits_work, past_work, unlocked, waits_done, System, worker_waits_work,
  master_waits_work, worker_step_at, master_step_at, Step, worker_steps, master_steps, Reach, here,
  later, started_system,
}
use puma.ThreadPool.Places.{sleeps_work, master_sleeps_work, sleeps_work-IsTest}
use puma.ThreadPool.Safety.{some_path, no_step, open_step}
use puma.ThreadPool.Once.{made_barrier-some}

abbrev IsBefore : WorkerPc → Type 0
IsBefore at_work = Unit
IsBefore asleep_work = Unit
IsBefore reads = ⊥
IsBefore (calls_function j) = ⊥
IsBefore called = ⊥
IsBefore asleep_done = ⊥

abbrev IsWaiting : MasterPc → Type 0
IsWaiting outside = Unit
IsWaiting stored = Unit
IsWaiting waits_work = Unit
IsWaiting past_work = ⊥
IsWaiting unlocked = ⊥
IsWaiting waits_done = ⊥

-- Nobody has passed the first barrier; the work asked for is that of one call, which has not returned.
record IsStuck (n trip : ℕ) (s : System) : Type 0 where
  trips : s.work_wait_barrier.trip_count ≡ trip
  counts : s.work_wait_barrier.count ≡ how_many sleeps_work n s.worker + master_sleeps_work s.master
  workers : (i : ℕ) → i < n → IsBefore (s.worker i)
  master : IsWaiting s.master
  asked : (s.master ≡ outside) → s.asked ≡ []
  logs : (i : ℕ) → s.log i ≡ []

module _ (n trip : ℕ) (short : n + 1 < trip) (s : System) (stuck : IsStuck n trip s) where
  -- The next to wait is not the last.
  not_last :
      s.work_wait_barrier.count ≤ n
      → leb s.work_wait_barrier.trip_count (s.work_wait_barrier.count + 1) ≡ false
  not_last few = ground (arith, stuck.trips)

  worker_waits :
      (i : ℕ)
      → i < n
      → s.worker i ≡ at_work
      → IsStuck n trip (worker_waits_work (barrier_wait s.work_wait_barrier) i s)
  unfolding worker_waits_work barrier_wait
  worker_waits i lt at_i =
      let more = how_many-update sleeps_work n i s.worker asleep_work lt in
      let most = how_many-le sleeps_work sleeps_work-IsTest n (update s.worker i asleep_work) in
      let awake : sleeps_work (s.worker i) ≡ 0 = rw at_i refl in
      let one = small s.master in
      rw (not_last (omega (arith, stuck.counts, more, most, awake, one))) (record {
        trips = stuck.trips;
        counts = omega (arith, stuck.counts, more, awake);
        workers = λ j below. elim (ℕ_discrete i j) [
          | yes same ↦ let e : (i == j) ≡ true = ground (arith, same) in rw e tt
          | no ne ↦ let e : (i == j) ≡ false = ground (arith, ne) in rw e (stuck.workers j below)
        ];
        master = stuck.master;
        asked = stuck.asked;
        logs = stuck.logs;
      })
    where
      small : (m : MasterPc) → master_sleeps_work m ≤ 1
      small m = ground arith

  worker_step_at-IsStuck :
      (p : WorkerPc) (i : ℕ) (t : System)
      → i < n
      → s.worker i ≡ p
      → worker_step_at p i s ≡ some t
      → IsStuck n trip t
  unfolding worker_step_at
  worker_step_at-IsStuck at_work i t lt at_i went =
      subst (IsStuck n trip) (some_path went) (worker_waits i lt at_i)
  worker_step_at-IsStuck asleep_work i t lt at_i went = absurd (no_step went)
  worker_step_at-IsStuck reads i t lt at_i went = absurd (rw at_i at (stuck.workers i lt))
  worker_step_at-IsStuck (calls_function j) i t lt at_i went =
      absurd (rw at_i at (stuck.workers i lt))
  worker_step_at-IsStuck called i t lt at_i went = absurd (rw at_i at (stuck.workers i lt))
  worker_step_at-IsStuck asleep_done i t lt at_i went = absurd (rw at_i at (stuck.workers i lt))

  master_waits :
      s.master ≡ stored → IsStuck n trip (master_waits_work (barrier_wait s.work_wait_barrier) s)
  unfolding master_waits_work barrier_wait
  master_waits at_m =
      let most = how_many-le sleeps_work sleeps_work-IsTest n s.worker in
      let awake : master_sleeps_work s.master ≡ 0 = rw at_m refl in
      rw (not_last (omega (arith, stuck.counts, most, awake))) (record {
        trips = stuck.trips;
        counts = omega (arith, stuck.counts, awake);
        workers = stuck.workers;
        master = tt;
        asked = λ e. absurd (not_out e);
        logs = stuck.logs;
      })
    where
      not_out : waits_work ≡ outside → ⊥
      not_out e = ground (arith, e)

  master_step_at-IsStuck :
      (m : MasterPc) (work : Job) (t : System)
      → s.master ≡ m
      → master_step_at m work s ≡ some t
      → IsStuck n trip t
  unfolding master_step_at
  master_step_at-IsStuck outside work t at_m went = elim (Bool-cases s.locked) [
    | inl on ↦ absurd (no_step (rw on at went))
    | inr off ↦ subst (IsStuck n trip) (open_step s.locked _ t off went) (record {
      trips = stuck.trips;
      counts = rw at_m at stuck.counts;
      workers = stuck.workers;
      master = tt;
      asked = λ e. absurd (not_out e);
      logs = stuck.logs;
    })
  ]
    where
      not_out : stored ≡ outside → ⊥
      not_out e = ground (arith, e)
  master_step_at-IsStuck stored work t at_m went =
      subst (IsStuck n trip) (some_path went) (master_waits at_m)
  master_step_at-IsStuck waits_work work t at_m went = absurd (no_step went)
  master_step_at-IsStuck past_work work t at_m went = absurd (rw at_m at stuck.master)
  master_step_at-IsStuck unlocked work t at_m went = absurd (rw at_m at stuck.master)
  master_step_at-IsStuck waits_done work t at_m went = absurd (rw at_m at stuck.master)

Step-IsStuck :
    (n trip : ℕ) → n + 1 < trip → {s t : System} → Step n s t → IsStuck n trip s → IsStuck n trip t
Step-IsStuck n trip short {s} {t} (worker_steps i lt went) stuck =
    worker_step_at-IsStuck n trip short s stuck (s.worker i) i t lt refl went
Step-IsStuck n trip short {s} {t} (master_steps work went) stuck =
    master_step_at-IsStuck n trip short s stuck s.master work t refl went

started-IsStuck :
    (pool : ThreadPool) (s : System)
    → length pool.workers + 1 < pool.barrier_count
    → started_system pool ≡ some s
    → IsStuck (length pool.workers) pool.barrier_count s
unfolding started_system
started-IsStuck pool s short start =
    let made = made_barrier-some pool.barrier_count (omega arith) in
    let n = length pool.workers in
    let none_work = how_many-none sleeps_work n (λ i. at_work) (λ i lt. refl) in
    subst (IsStuck n pool.barrier_count) (some_path (rw made at start)) (record {
      trips = refl;
      counts = omega (arith, none_work);
      workers = λ i lt. tt;
      master = tt;
      asked = λ e. refl;
      logs = λ i. refl;
    })

Reach-IsStuck :
    (pool : ThreadPool) {s t : System}
    → length pool.workers + 1 < pool.barrier_count
    → started_system pool ≡ some s
    → Reach (length pool.workers) s t
    → IsStuck (length pool.workers) pool.barrier_count t
Reach-IsStuck pool {s} short start here = started-IsStuck pool s short start
Reach-IsStuck pool short start (later r step) =
    Step-IsStuck (length pool.workers) pool.barrier_count short step
      (Reach-IsStuck pool short start r)

-- In a pool that has started fewer workers than its barriers count besides the master, as with an
-- affinity that names fewer CPUs than there are threads, the first call of `executeOnThreadPool` never
-- returns: in no order of steps is there a state with a call made and none under way, and no worker
-- ever calls a function.
pub execute_on_thread_pool-stuck :
    (pool : ThreadPool) (s t : System)
    → length pool.workers + 1 < pool.barrier_count
    → started_system pool ≡ some s
    → Reach (length pool.workers) s t
    → (t.master ≡ outside → t.asked ≡ []) × ((i : ℕ) → t.log i ≡ [])
execute_on_thread_pool-stuck pool s t short start r =
    let stuck = Reach-IsStuck pool short start r in (stuck.asked, stuck.logs)
