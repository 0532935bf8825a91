-- ===== src/ThreadPool/Progress.antt =====
-- A call of `executeOnThreadPool` can always go on to its end.
use puma.Base.{
  ℕ, zero, suc, ◌+◌, ◌<◌, ◌≡◌, refl, ap, ◌∙◌, arith, Bool, false, leb, some, none, List, ◌∷◌, inl,
  inr, ◌⊎◌, Bool-cases, if◌then◌else◌, length,
}
use puma.Memory.{update}
use puma.Barrier.{barrier_wait}
use puma.ThreadPool.{ThreadPool}
use puma.ThreadPool.Family.{how_many, how_many-update, some_other}
use puma.ThreadPool.Rounds.{
  Job, WorkerPc, at_work, asleep_work, reads, calls_function, called, asleep_done, MasterPc,
  outside, stored, waits_work, past_work, unlocked, waits_done, System, worker_waits_work,
  worker_waits_done, master_waits_work, master_waits_done, worker_step_at, master_step_at, Step,
  worker_steps, master_steps, Reach, here, later, started_system,
}
use puma.ThreadPool.Places.{
  sleeps_work, sleeps_done, master_sleeps_work, master_sleeps_done, Stage, stage_of, Fits, Inv,
  sleeps_work-IsTest, sleeps_done-IsTest,
}
use puma.ThreadPool.Once.{Step-Inv, Reach-Inv}

Reach-trans : {n : ℕ} {s t u : System} → Reach n s t → Reach n t u → Reach n s u
Reach-trans r here = r
Reach-trans r (later r' step) = later (Reach-trans r r') step

-- How many steps a worker has to the next barrier where it sleeps.
abbrev worker_steps_left : WorkerPc → ℕ
worker_steps_left at_work = 1
worker_steps_left asleep_work = 0
worker_steps_left reads = 3
worker_steps_left (calls_function j) = 2
worker_steps_left called = 1
worker_steps_left asleep_done = 0

abbrev master_steps_left : MasterPc → ℕ
master_steps_left outside = 0
master_steps_left stored = 1
master_steps_left waits_work = 0
master_steps_left past_work = 2
master_steps_left unlocked = 1
master_steps_left waits_done = 0

abbrev steps_left : ℕ → System → ℕ
steps_left n s = how_many worker_steps_left n s.worker + master_steps_left s.master

-- A step to another stage, or one nearer to it.
abbrev GoesOn : ℕ → System → (next : Stage) → Type 0
GoesOn n s next =
    (t : System) × Step n s t
    × (t.asked ≡ s.asked)
    × ((stage_of t.master ≡ next)
        ⊎ ((stage_of t.master ≡ stage_of s.master) × (steps_left n t < steps_left n s)))

open_step : (b : Bool) (t : System) → b ≡ false → (if b then none else some t) ≡ some t
open_step b t off = rw off refl

module _ (n : ℕ) (s : System) (inv : Inv n s) where
  worker_at_work-GoesOn :
      (i : ℕ) → i < n → s.worker i ≡ at_work → s.master ≡ waits_work → GoesOn n s Stage.working
  unfolding worker_step_at worker_waits_work barrier_wait
  worker_at_work-GoesOn i lt at_i at_m =
      let runs : worker_step_at (s.worker i) i s
          ≡ some (worker_waits_work (barrier_wait s.work_wait_barrier) i s) =
        ap (λ p. worker_step_at p i s) at_i in
      elim (Bool-cases (leb s.work_wait_barrier.trip_count (s.work_wait_barrier.count + 1))) [
        | inl full ↦ (_, worker_steps i lt runs, rw full refl, inl (rw (full, at_m) refl))
        | inr waits ↦
            let fewer = how_many-update worker_steps_left n i s.worker asleep_work lt in
            let one : worker_steps_left (s.worker i) ≡ 1 = rw at_i refl in
            (
              _,
              worker_steps i lt runs,
              rw waits refl,
              inr (rw waits refl, rw waits (omega (arith, fewer, one))),
            )
      ]

  worker_called-GoesOn :
      (i : ℕ) → i < n → s.worker i ≡ called → s.master ≡ waits_done → GoesOn n s Stage.resting
  unfolding worker_step_at worker_waits_done barrier_wait
  worker_called-GoesOn i lt at_i at_m =
      let runs : worker_step_at (s.worker i) i s
          ≡ some (worker_waits_done (barrier_wait s.done_barrier) i s) =
        ap (λ p. worker_step_at p i s) at_i in
      elim (Bool-cases (leb s.done_barrier.trip_count (s.done_barrier.count + 1))) [
        | inl full ↦ (_, worker_steps i lt runs, rw full refl, inl (rw (full, at_m) refl))
        | inr waits ↦
            let fewer = how_many-update worker_steps_left n i s.worker asleep_done lt in
            let one : worker_steps_left (s.worker i) ≡ 1 = rw at_i refl in
            (
              _,
              worker_steps i lt runs,
              rw waits refl,
              inr (rw waits refl, rw waits (omega (arith, fewer, one))),
            )
      ]

  worker_moves-GoesOn :
      (i : ℕ) (p q : WorkerPc) (log : ℕ → List Job) (next : Stage)
      → i < n
      → s.worker i ≡ p
      → worker_step_at p i s ≡ some (record s { worker = update s.worker i q; log = log })
      → worker_steps_left q < worker_steps_left p
      → GoesOn n s next
  worker_moves-GoesOn i p q log next lt at_i runs nearer =
      let fewer = how_many-update worker_steps_left n i s.worker q lt in
      let left : worker_steps_left (s.worker i) ≡ worker_steps_left p = ap worker_steps_left at_i in
      (
        record s { worker = update s.worker i q; log = log },
        worker_steps i lt (ap (λ x. worker_step_at x i s) at_i ∙ runs),
        refl,
        inr (refl, omega (arith, fewer, left)),
      )

  worker-GoesOn :
      (i : ℕ) (p : WorkerPc)
      → i < n
      → s.worker i ≡ p
      → sleeps_done p ≡ 0
      → s.master ≡ waits_done
      → Fits Stage.working p s.job s.asked (s.log i)
      → GoesOn n s Stage.resting
  unfolding worker_step_at
  worker-GoesOn i at_work lt at_i awake at_m fit = absurd fit
  worker-GoesOn i asleep_work lt at_i awake at_m fit = absurd fit
  worker-GoesOn i reads lt at_i awake at_m fit =
      let free : s.locked ≡ false = inv.lock ∙ rw at_m refl in
      worker_moves-GoesOn i reads (calls_function s.job) s.log Stage.resting lt at_i
        (open_step s.locked _ free) (omega arith)
  worker-GoesOn i (calls_function j) lt at_i awake at_m fit =
      worker_moves-GoesOn i (calls_function j) called (update s.log i (j ∷ s.log i)) Stage.resting
        lt at_i refl (omega arith)
  worker-GoesOn i called lt at_i awake at_m fit = worker_called-GoesOn i lt at_i at_m
  worker-GoesOn i asleep_done lt at_i awake at_m fit = absurd (omega (arith, awake))

  asking_at_work :
      (p : WorkerPc) (log : List Job)
      → sleeps_work p ≡ 0
      → Fits Stage.asking p s.job s.asked log
      → p ≡ at_work
  asking_at_work at_work log awake fit = refl
  asking_at_work asleep_work log awake fit = absurd (omega (arith, awake))
  asking_at_work reads log awake fit = absurd fit
  asking_at_work (calls_function j) log awake fit = absurd fit
  asking_at_work called log awake fit = absurd fit
  asking_at_work asleep_done log awake fit = absurd fit

  -- The master, or a worker that it waits for.
  pub asking-GoesOn :
      (m : MasterPc) → s.master ≡ m → stage_of m ≡ Stage.asking → GoesOn n s Stage.working
  unfolding master_step_at master_waits_work barrier_wait
  asking-GoesOn outside at_m asking = cc
  asking-GoesOn stored at_m asking =
      let runs : master_step_at s.master s.job s
          ≡ some (master_waits_work (barrier_wait s.work_wait_barrier) s) =
        ap (λ m. master_step_at m s.job s) at_m in
      elim (Bool-cases (leb s.work_wait_barrier.trip_count (s.work_wait_barrier.count + 1))) [
        | inl full ↦ (_, master_steps s.job runs, rw full refl, inl (rw full refl))
        | inr waits ↦
            let one : master_steps_left s.master ≡ 1 = rw at_m refl in
            (
              _,
              master_steps s.job runs,
              rw waits refl,
              inr (rw (waits, at_m) refl, rw waits (omega (arith, one))),
            )
      ]
  asking-GoesOn waits_work at_m asking =
      let one : master_sleeps_work s.master ≡ 1 = rw at_m refl in
      let (i, lt, awake) =
        some_other sleeps_work sleeps_work-IsTest n s.worker
          (omega (arith, inv.work_count, inv.work_few, one)) in
      let at_i = asking_at_work (s.worker i) (s.log i) awake (rw at_m at (inv.fits i lt)) in
      worker_at_work-GoesOn i lt at_i at_m
  asking-GoesOn past_work at_m asking = cc
  asking-GoesOn unlocked at_m asking = cc
  asking-GoesOn waits_done at_m asking = cc

  pub working-GoesOn :
      (m : MasterPc) → s.master ≡ m → stage_of m ≡ Stage.working → GoesOn n s Stage.resting
  unfolding master_step_at master_waits_done barrier_wait
  working-GoesOn outside at_m working = cc
  working-GoesOn stored at_m working = cc
  working-GoesOn waits_work at_m working = cc
  working-GoesOn past_work at_m working =
      let two : master_steps_left s.master ≡ 2 = rw at_m refl in
      (
        record s { locked = false; master = unlocked },
        master_steps s.job (ap (λ m. master_step_at m s.job s) at_m),
        refl,
        inr (rw at_m refl, omega (arith, two)),
      )
  working-GoesOn unlocked at_m working =
      let runs : master_step_at s.master s.job s
          ≡ some (master_waits_done (barrier_wait s.done_barrier) s) =
        ap (λ m. master_step_at m s.job s) at_m in
      elim (Bool-cases (leb s.done_barrier.trip_count (s.done_barrier.count + 1))) [
        | inl full ↦ (_, master_steps s.job runs, rw full refl, inl (rw full refl))
        | inr waits ↦
            let one : master_steps_left s.master ≡ 1 = rw at_m refl in
            (
              _,
              master_steps s.job runs,
              rw waits refl,
              inr (rw (waits, at_m) refl, rw waits (omega (arith, one))),
            )
      ]
  working-GoesOn waits_done at_m working =
      let one : master_sleeps_done s.master ≡ 1 = rw at_m refl in
      let (i, lt, awake) =
        some_other sleeps_done sleeps_done-IsTest n s.worker
          (omega (arith, inv.done_count, inv.done_few, one)) in
      worker-GoesOn i (s.worker i) lt refl awake at_m (rw at_m at (inv.fits i lt))

-- From stage to stage.
reaches_stage :
    (n : ℕ) (stage next : Stage)
    → ((s : System) → Inv n s → stage_of s.master ≡ stage → GoesOn n s next)
    → (fuel : ℕ) (s : System) → Inv n s
    → stage_of s.master ≡ stage
    → steps_left n s < fuel
    → (t : System) × Reach n s t × Inv n t × (t.asked ≡ s.asked) × (stage_of t.master ≡ next)
reaches_stage n stage next goes zero s inv now enough = absurd (omega arith)
reaches_stage n stage next goes (suc fuel) s inv now enough =
    let (t, step, same, where_to) = goes s inv now in
    elim where_to [
      | inl there ↦ (t, later here step, Step-Inv step inv, same, there)
      | inr (still, nearer) ↦
          let (u, r, inv', same', there) =
            reaches_stage n stage next goes fuel t (Step-Inv step inv) (still ∙ now)
              (omega arith) in
          (u, Reach-trans (later here step) r, inv', same' ∙ same, there)
    ]

is_outside : (m : MasterPc) → stage_of m ≡ Stage.resting → m ≡ outside
is_outside m e = ground arith

ends_work :
    (n : ℕ) (s : System)
    → Inv n s
    → stage_of s.master ≡ Stage.working
    → (t : System) × Reach n s t × (t.asked ≡ s.asked) × (t.master ≡ outside)
ends_work n s inv now =
    let (t, r, _, same, there) =
      reaches_stage n Stage.working Stage.resting
        (λ u inv' at. working-GoesOn n u inv' u.master refl at) (suc (steps_left n s)) s inv now
        (omega arith) in
    (t, r, same, is_outside t.master there)

ends_call :
    (n : ℕ) (s : System) (stage : Stage)
    → Inv n s
    → stage_of s.master ≡ stage
    → (t : System) × Reach n s t × (t.asked ≡ s.asked) × (t.master ≡ outside)
ends_call n s Stage.resting inv now = (s, here, refl, is_outside s.master now)
ends_call n s Stage.working inv now = ends_work n s inv now
ends_call n s Stage.asking inv now =
    let (t, r, inv', same, there) =
      reaches_stage n Stage.asking Stage.working
        (λ u inv'' at. asking-GoesOn n u inv'' u.master refl at) (suc (steps_left n s)) s inv now
        (omega arith) in
    let (u, r', same', out) = ends_work n t inv' there in (u, Reach-trans r r', same' ∙ same, out)

-- In a pool that has started as many workers as its barriers count besides the master, no order of
-- steps ends in a deadlock: from every state that the workers and the master can reach, they can reach
-- one where the call of `executeOnThreadPool` that is under way, if one is, has returned, with no other
-- call made.
pub execute_on_thread_pool-returns :
    (pool : ThreadPool) (s t : System)
    → pool.barrier_count ≡ length pool.workers + 1
    → started_system pool ≡ some s
    → Reach (length pool.workers) s t
    → (u : System) × Reach (length pool.workers) t u × (u.asked ≡ t.asked) × (u.master ≡ outside)
execute_on_thread_pool-returns pool s t whole start r =
    ends_call (length pool.workers) t (stage_of t.master) (Reach-Inv pool whole start r) refl
