-- ===== src/ThreadPool/Safety.antt =====
-- A step of a worker keeps the invariant of Places, and so does one of the master.
use puma.Base.{
  ℕ, ◌+◌, ◌<◌, ◌≡◌, ◌≢◌, refl, sym, ap, ◌∙◌, arith, Bool, false, leb, some, none, List, ◌∷◌, inl,
  inr, ◌⊎◌, Bool-cases, ℕ_discrete, if◌then◌else◌,
}
use mathlib.Core.Path.{subst}
use puma.Memory.{update}
use puma.Barrier.{barrier_wait}
use puma.ThreadPool.Family.{how_many-update, how_many-all}
use puma.ThreadPool.Rounds.{
  Job, WorkerPc, at_work, asleep_work, reads, calls_function, called, asleep_done, MasterPc,
  outside, stored, waits_work, past_work, unlocked, waits_done, System, wake_work, wake_done,
  wake_master_work, wake_master_done, worker_waits_work, worker_waits_done, master_waits_work,
  master_waits_done, worker_step_at, master_step_at,
}
use puma.ThreadPool.Places.{
  sleeps_work, sleeps_done, master_sleeps_work, master_sleeps_done, Stage, stage_of, Fits, Inv,
  sleeps_work-IsTest, sleeps_done-IsTest, asleep_at_work, asleep_at_done,
}
use puma.ThreadPool.Turns.{
  last_at_work, last_at_done, Fits-update, Fits-moves, update-each, all_read-Inv, all_rest-Inv,
}

pub some_path : {s t : System} → some s ≡ some t → s ≡ t
some_path e = cc

pub no_step : {t : System} → none ≡ some t → ⊥
no_step e = ground (arith, e)

pub open_step :
    (b : Bool) (x t : System) → b ≡ false → (if b then none else some x) ≡ some t → x ≡ t
open_step b x t off went = some_path (rw off at went)

module _ (n : ℕ) (s : System) (inv : Inv n s) where
  -- A worker that neither sleeps before nor after its move.
  pub moved-Inv :
      (i : ℕ) (p : WorkerPc) (log : ℕ → List Job)
      → i < n
      → sleeps_work (s.worker i) ≡ 0
      → sleeps_done (s.worker i) ≡ 0
      → sleeps_work p ≡ 0
      → sleeps_done p ≡ 0
      → ((j : ℕ) → j < n → Fits (stage_of s.master) (update s.worker i p j) s.job s.asked (log j))
      → Inv n (record s { worker = update s.worker i p; log = log })
  moved-Inv i p log lt w d w' d' fits =
      let works = how_many-update sleeps_work n i s.worker p lt in
      let dones = how_many-update sleeps_done n i s.worker p lt in
      record {
        work_trip = inv.work_trip;
        done_trip = inv.done_trip;
        work_count = omega (arith, works, inv.work_count);
        done_count = omega (arith, dones, inv.done_count);
        work_few = inv.work_few;
        done_few = inv.done_few;
        lock = inv.lock;
        fits = fits;
      }

  one_or_others :
      (i : ℕ) (p q : WorkerPc)
      → s.worker i ≡ p
      → ((j : ℕ) → j < n → i ≢ j → s.worker j ≡ q)
      → (j : ℕ) → j < n
      → (s.worker j ≡ p) ⊎ (s.worker j ≡ q)
  one_or_others i p q here others j below = elim (ℕ_discrete i j) [
    | yes same ↦ inl (ap s.worker (sym same) ∙ here)
    | no ne ↦ inr (others j below ne)
  ]

  pub worker_waits_work-Inv :
      (i : ℕ)
      → i < n
      → s.worker i ≡ at_work
      → Inv n (worker_waits_work (barrier_wait s.work_wait_barrier) i s)
  unfolding worker_waits_work barrier_wait
  worker_waits_work-Inv i lt here =
      elim (Bool-cases (leb s.work_wait_barrier.trip_count (s.work_wait_barrier.count + 1))) [
        | inl full ↦
            let (master, others) = last_at_work n s inv i lt here full in
            rw full (
              all_read-Inv n s inv _ (update (λ j. wake_work (s.worker j)) i reads)
                (wake_master_work s.master) refl inv.work_trip (rw master refl) (rw master refl)
                (inv.lock ∙ rw master refl)
                (update-each n s inv i (λ j. wake_work (s.worker j)) reads
                  (λ j below ne. ap wake_work (others j below ne)))
                (one_or_others i at_work asleep_work here others))
        | inr waits ↦
            let works = how_many-update sleeps_work n i s.worker asleep_work lt in
            let dones = how_many-update sleeps_done n i s.worker asleep_work lt in
            let awake : sleeps_work (s.worker i) ≡ 0 = rw here refl in
            let awake' : sleeps_done (s.worker i) ≡ 0 = rw here refl in
            rw waits (record {
              work_trip = inv.work_trip;
              done_trip = inv.done_trip;
              work_count = omega (arith, works, awake, inv.work_count);
              done_count = omega (arith, dones, awake', inv.done_count);
              work_few = ground (arith, inv.work_trip);
              done_few = inv.done_few;
              lock = inv.lock;
              fits =
                  Fits-moves n s inv (stage_of s.master) i asleep_work inv.fits (
                    sleeps (stage_of s.master) s.job s.asked (s.log i)
                      (rw here at (inv.fits i lt)));
            })
      ]
    where
      sleeps :
          (stage : Stage) (job : Job) (asked log : List Job)
          → Fits stage at_work job asked log
          → Fits stage asleep_work job asked log
      sleeps Stage.resting job asked log fit = fit
      sleeps Stage.asking job asked log fit = fit
      sleeps Stage.working job asked log fit = fit

  pub worker_waits_done-Inv :
      (i : ℕ)
      → i < n
      → s.worker i ≡ called
      → Inv n (worker_waits_done (barrier_wait s.done_barrier) i s)
  unfolding worker_waits_done barrier_wait
  worker_waits_done-Inv i lt here =
      elim (Bool-cases (leb s.done_barrier.trip_count (s.done_barrier.count + 1))) [
        | inl full ↦
            let (master, others) = last_at_done n s inv i lt here full in
            rw full (
              all_rest-Inv n s inv _ (update (λ j. wake_done (s.worker j)) i at_work)
                (wake_master_done s.master) refl inv.done_trip (rw master refl) (rw master refl)
                (inv.lock ∙ rw master refl)
                (update-each n s inv i (λ j. wake_done (s.worker j)) at_work
                  (λ j below ne. ap wake_done (others j below ne)))
                (one_or_others i called asleep_done here others))
        | inr waits ↦
            let works = how_many-update sleeps_work n i s.worker asleep_done lt in
            let dones = how_many-update sleeps_done n i s.worker asleep_done lt in
            let awake : sleeps_work (s.worker i) ≡ 0 = rw here refl in
            let awake' : sleeps_done (s.worker i) ≡ 0 = rw here refl in
            rw waits (record {
              work_trip = inv.work_trip;
              done_trip = inv.done_trip;
              work_count = omega (arith, works, awake, inv.work_count);
              done_count = omega (arith, dones, awake', inv.done_count);
              work_few = inv.work_few;
              done_few = ground (arith, inv.done_trip);
              lock = inv.lock;
              fits =
                  Fits-moves n s inv (stage_of s.master) i asleep_done inv.fits (
                    sleeps (stage_of s.master) s.job s.asked (s.log i)
                      (rw here at (inv.fits i lt)));
            })
      ]
    where
      sleeps :
          (stage : Stage) (job : Job) (asked log : List Job)
          → Fits stage called job asked log
          → Fits stage asleep_done job asked log
      sleeps Stage.resting job asked log fit = fit
      sleeps Stage.asking job asked log fit = fit
      sleeps Stage.working job asked log fit = fit

  master_waits_work-Inv :
      s.master ≡ stored → Inv n (master_waits_work (barrier_wait s.work_wait_barrier) s)
  unfolding master_waits_work barrier_wait
  master_waits_work-Inv here =
      let awake : master_sleeps_work s.master ≡ 0 = rw here refl in
      let awake' : master_sleeps_done s.master ≡ 0 = rw here refl in
      elim (Bool-cases (leb s.work_wait_barrier.trip_count (s.work_wait_barrier.count + 1))) [
        | inl full ↦
            let all : s.work_wait_barrier.count ≡ n = ground (arith, inv.work_trip, inv.work_few) in
            let each =
              how_many-all sleeps_work sleeps_work-IsTest n s.worker
                (omega (arith, inv.work_count, awake, all)) in
            let asleep : (j : ℕ) → j < n → s.worker j ≡ asleep_work =
              λ j below. asleep_at_work (s.worker j) (each j below) in
            rw full (
              all_read-Inv n s inv _ (λ j. wake_work (s.worker j)) past_work refl inv.work_trip refl
                (rw here refl) (inv.lock ∙ rw here refl) (λ j below. ap wake_work (asleep j below))
                (λ j below. inr (asleep j below)))
        | inr waits ↦ rw waits (record {
          work_trip = inv.work_trip;
          done_trip = inv.done_trip;
          work_count = omega (arith, awake, inv.work_count);
          done_count = omega (arith, awake', inv.done_count);
          work_few = ground (arith, inv.work_trip);
          done_few = inv.done_few;
          lock = inv.lock ∙ rw here refl;
          fits = λ j below. rw here at (inv.fits j below);
        })
      ]

  master_waits_done-Inv :
      s.master ≡ unlocked → Inv n (master_waits_done (barrier_wait s.done_barrier) s)
  unfolding master_waits_done barrier_wait
  master_waits_done-Inv here =
      let awake : master_sleeps_work s.master ≡ 0 = rw here refl in
      let awake' : master_sleeps_done s.master ≡ 0 = rw here refl in
      elim (Bool-cases (leb s.done_barrier.trip_count (s.done_barrier.count + 1))) [
        | inl full ↦
            let all : s.done_barrier.count ≡ n = ground (arith, inv.done_trip, inv.done_few) in
            let each =
              how_many-all sleeps_done sleeps_done-IsTest n s.worker
                (omega (arith, inv.done_count, awake', all)) in
            let asleep : (j : ℕ) → j < n → s.worker j ≡ asleep_done =
              λ j below. asleep_at_done (s.worker j) (each j below) in
            rw full (
              all_rest-Inv n s inv _ (λ j. wake_done (s.worker j)) outside refl inv.done_trip refl
                (rw here refl) (inv.lock ∙ rw here refl) (λ j below. ap wake_done (asleep j below))
                (λ j below. inr (asleep j below)))
        | inr waits ↦ rw waits (record {
          work_trip = inv.work_trip;
          done_trip = inv.done_trip;
          work_count = omega (arith, awake, inv.work_count);
          done_count = omega (arith, awake', inv.done_count);
          work_few = inv.work_few;
          done_few = ground (arith, inv.done_trip);
          lock = inv.lock ∙ rw here refl;
          fits = λ j below. rw here at (inv.fits j below);
        })
      ]

  asked_anew :
      (p : WorkerPc) (job work : Job) (asked log : List Job)
      → Fits Stage.resting p job asked log
      → Fits Stage.asking p work (work ∷ asked) log
  asked_anew at_work job work asked log fit = ap (λ l. work ∷ l) (sym fit)
  asked_anew asleep_work job work asked log fit = ap (λ l. work ∷ l) (sym fit)
  asked_anew reads job work asked log fit = fit
  asked_anew (calls_function j) job work asked log fit = fit
  asked_anew called job work asked log fit = fit
  asked_anew asleep_done job work asked log fit = fit

  -- Of the pool in any place of the master.
  pub master_step_at-Inv :
      (m : MasterPc) (work : Job) (t : System)
      → s.master ≡ m
      → master_step_at m work s ≡ some t
      → Inv n t
  unfolding master_step_at
  master_step_at-Inv outside work t here went =
      let free : s.locked ≡ false = inv.lock ∙ rw here refl in
      subst (Inv n) (some_path (rw free at went)) (record {
        work_trip = inv.work_trip;
        done_trip = inv.done_trip;
        work_count = rw here at inv.work_count;
        done_count = rw here at inv.done_count;
        work_few = inv.work_few;
        done_few = inv.done_few;
        lock = refl;
        fits = λ j below.
            asked_anew (s.worker j) s.job work s.asked (s.log j) (rw here at (inv.fits j below));
      })
  master_step_at-Inv stored work t here went =
      subst (Inv n) (some_path went) (master_waits_work-Inv here)
  master_step_at-Inv waits_work work t here went = absurd (no_step went)
  master_step_at-Inv past_work work t here went = subst (Inv n) (some_path went) (record {
    work_trip = inv.work_trip;
    done_trip = inv.done_trip;
    work_count = rw here at inv.work_count;
    done_count = rw here at inv.done_count;
    work_few = inv.work_few;
    done_few = inv.done_few;
    lock = refl;
    fits = λ j below. rw here at (inv.fits j below);
  })
  master_step_at-Inv unlocked work t here went =
      subst (Inv n) (some_path went) (master_waits_done-Inv here)
  master_step_at-Inv waits_done work t here went = absurd (no_step went)

  reading :
      (stage : Stage) (job : Job) (asked log : List Job)
      → Fits stage reads job asked log
      → Fits stage (calls_function job) job asked log
  reading Stage.resting job asked log fit = fit
  reading Stage.asking job asked log fit = fit
  reading Stage.working job asked log fit = (refl, fit)

  calling :
      (stage : Stage) (j job : Job) (asked log : List Job)
      → Fits stage (calls_function j) job asked log
      → Fits stage called job asked (j ∷ log)
  calling Stage.resting j job asked log fit = fit
  calling Stage.asking j job asked log fit = fit
  calling Stage.working j job asked log (same, behind) = ap (λ k. k ∷ log) same ∙ sym behind

  pub worker_step_at-Inv :
      (p : WorkerPc) (i : ℕ) (t : System)
      → i < n
      → s.worker i ≡ p
      → worker_step_at p i s ≡ some t
      → Inv n t
  unfolding worker_step_at
  worker_step_at-Inv at_work i t lt here went =
      subst (Inv n) (some_path went) (worker_waits_work-Inv i lt here)
  worker_step_at-Inv asleep_work i t lt here went = absurd (no_step went)
  worker_step_at-Inv reads i t lt here went = elim (Bool-cases s.locked) [
    | inl on ↦ absurd (no_step (rw on at went))
    | inr off ↦ subst (Inv n) (open_step s.locked _ t off went) (
        moved-Inv i (calls_function s.job) s.log lt (rw here refl) (rw here refl) refl refl (
          Fits-moves n s inv (stage_of s.master) i (calls_function s.job) inv.fits
            (reading (stage_of s.master) s.job s.asked (s.log i) (rw here at (inv.fits i lt)))))
  ]
  worker_step_at-Inv (calls_function j) i t lt here went = subst (Inv n) (some_path went) (
      moved-Inv i called (update s.log i (j ∷ s.log i)) lt (rw here refl) (rw here refl) refl refl (
        Fits-update n s inv (stage_of s.master) i called (j ∷ s.log i) inv.fits
          (calling (stage_of s.master) j s.job s.asked (s.log i) (rw here at (inv.fits i lt)))))
  worker_step_at-Inv called i t lt here went =
      subst (Inv n) (some_path went) (worker_waits_done-Inv i lt here)
  worker_step_at-Inv asleep_done i t lt here went = absurd (no_step went)
