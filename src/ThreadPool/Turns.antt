-- ===== src/ThreadPool/Turns.antt =====
-- What the last thread at a barrier finds, and the pool after all have left a barrier.
use puma.Base.{
  ℕ, ◌+◌, ◌<◌, ◌≡◌, ◌≢◌, refl, ap, ◌∙◌, arith, true, false, leb, List, ◌∷◌, inl, inr, ◌⊎◌,
  ℕ_discrete, ◌==◌,
}
use mathlib.Core.Path.{subst}
use puma.Memory.{update}
use puma.Barrier.{Barrier}
use puma.ThreadPool.Family.{how_many, how_many-none, how_many-le, how_many-all, how_many-others}
use puma.ThreadPool.Rounds.{
  Job, WorkerPc, at_work, asleep_work, reads, called, asleep_done, MasterPc, outside, waits_work,
  past_work, waits_done, System,
}
use puma.ThreadPool.Places.{
  sleeps_work, sleeps_done, master_sleeps_work, master_sleeps_done, Stage, stage_of, Fits, Inv,
  sleeps_work-IsTest, sleeps_done-IsTest, asleep_at_work, asleep_at_done, master_at_work,
  master_at_done,
}

module _ (n : ℕ) (s : System) (inv : Inv n s) where
  -- The last worker at the first barrier finds all others and the master there.
  pub last_at_work :
      (i : ℕ)
      → i < n
      → s.worker i ≡ at_work
      → leb s.work_wait_barrier.trip_count (s.work_wait_barrier.count + 1) ≡ true
      → (s.master ≡ waits_work) × ((j : ℕ) → j < n → i ≢ j → s.worker j ≡ asleep_work)
  last_at_work i lt here full =
      let test = sleeps_work-IsTest in
      let awake : sleeps_work (s.worker i) ≡ 0 = rw here refl in
      let most = how_many-le sleeps_work test n s.worker in
      let not_all : how_many sleeps_work n s.worker ≢ n = λ e.
        let one = how_many-all sleeps_work test n s.worker e i lt in omega (arith, one, awake) in
      let all : s.work_wait_barrier.count ≡ n = ground (arith, inv.work_trip, inv.work_few) in
      let master = master_at_work s.master (omega (arith, inv.work_count, not_all, most, all)) in
      let counts : s.work_wait_barrier.count ≡ how_many sleeps_work n s.worker + 1 =
        inv.work_count ∙ ap (λ m. how_many sleeps_work n s.worker + master_sleeps_work m) master in
      (
        master,
        λ j below ne. asleep_at_work (s.worker j) (
            how_many-others sleeps_work test n i s.worker lt awake (omega (arith, all, counts)) j
              below ne),
      )

  pub last_at_done :
      (i : ℕ)
      → i < n
      → s.worker i ≡ called
      → leb s.done_barrier.trip_count (s.done_barrier.count + 1) ≡ true
      → (s.master ≡ waits_done) × ((j : ℕ) → j < n → i ≢ j → s.worker j ≡ asleep_done)
  last_at_done i lt here full =
      let test = sleeps_done-IsTest in
      let awake : sleeps_done (s.worker i) ≡ 0 = rw here refl in
      let most = how_many-le sleeps_done test n s.worker in
      let not_all : how_many sleeps_done n s.worker ≢ n = λ e.
        let one = how_many-all sleeps_done test n s.worker e i lt in omega (arith, one, awake) in
      let all : s.done_barrier.count ≡ n = ground (arith, inv.done_trip, inv.done_few) in
      let master = master_at_done s.master (omega (arith, inv.done_count, not_all, most, all)) in
      let counts : s.done_barrier.count ≡ how_many sleeps_done n s.worker + 1 =
        inv.done_count ∙ ap (λ m. how_many sleeps_done n s.worker + master_sleeps_done m) master in
      (
        master,
        λ j below ne. asleep_at_done (s.worker j) (
            how_many-others sleeps_done test n i s.worker lt awake (omega (arith, all, counts)) j
              below ne),
      )

  -- One worker moves.
  pub Fits-update :
      (stage : Stage) (i : ℕ) (p : WorkerPc) (log : List Job)
      → ((j : ℕ) → j < n → Fits stage (s.worker j) s.job s.asked (s.log j))
      → Fits stage p s.job s.asked log
      → (j : ℕ) → j < n
      → Fits stage (update s.worker i p j) s.job s.asked (update s.log i log j)
  Fits-update stage i p log fits fit j below = elim (ℕ_discrete i j) [
    | yes same ↦ let e : (i == j) ≡ true = ground (arith, same) in rw e fit
    | no ne ↦ let e : (i == j) ≡ false = ground (arith, ne) in rw e (fits j below)
  ]

  pub Fits-moves :
      (stage : Stage) (i : ℕ) (p : WorkerPc)
      → ((j : ℕ) → j < n → Fits stage (s.worker j) s.job s.asked (s.log j))
      → Fits stage p s.job s.asked (s.log i)
      → (j : ℕ) → j < n
      → Fits stage (update s.worker i p j) s.job s.asked (s.log j)
  Fits-moves stage i p fits fit j below = elim (ℕ_discrete i j) [
    | yes same ↦
        let e : (i == j) ≡ true = ground (arith, same) in
        rw e (subst (λ k. Fits stage p s.job s.asked (s.log k)) same fit)
    | no ne ↦ let e : (i == j) ≡ false = ground (arith, ne) in rw e (fits j below)
  ]

  pub update-each :
      (i : ℕ) (f : ℕ → WorkerPc) (p : WorkerPc)
      → ((j : ℕ) → j < n → i ≢ j → f j ≡ p)
      → (j : ℕ) → j < n
      → update f i p j ≡ p
  update-each i f p others j below = elim (ℕ_discrete i j) [
    | yes same ↦ ground (arith, same)
    | no ne ↦ ground (arith, ne, others j below ne)
  ]

  -- All have left the first barrier.
  pub all_read-Inv :
      (b : Barrier) (w : ℕ → WorkerPc) (m : MasterPc)
      → b.count ≡ 0
      → b.trip_count ≡ n + 1
      → m ≡ past_work
      → stage_of s.master ≡ Stage.asking
      → s.locked ≡ true
      → ((j : ℕ) → j < n → w j ≡ reads)
      → ((j : ℕ) → j < n → (s.worker j ≡ at_work) ⊎ (s.worker j ≡ asleep_work))
      → Inv n (record s { work_wait_barrier = b; worker = w; master = m })
  all_read-Inv b w m count trip now asking locked each before = record {
    work_trip = trip;
    done_trip = inv.done_trip;
    work_count =
        let none = how_many-none sleeps_work n w (λ j below. rw (each j below) refl) in
        rw now (omega (arith, none, count));
    done_count =
        let none = how_many-none sleeps_done n w (λ j below. rw (each j below) refl) in
        let none_before =
          how_many-none sleeps_done n s.worker (λ j below. awake (s.worker j) (before j below)) in
        let resting = asking_done s.master asking in
        rw now (omega (arith, none, none_before, inv.done_count, resting));
    work_few = omega (arith, count);
    done_few = inv.done_few;
    lock = rw now locked;
    fits = λ j below.
        rw (now, each j below) (behind j (before j below) (rw asking at (inv.fits j below)));
  }
    where
      asking_done : (p : MasterPc) → stage_of p ≡ Stage.asking → master_sleeps_done p ≡ 0
      asking_done p e = ground arith

      awake : (p : WorkerPc) → (p ≡ at_work) ⊎ (p ≡ asleep_work) → sleeps_done p ≡ 0
      awake p e = ground arith

      behind :
          (j : ℕ)
          → (s.worker j ≡ at_work) ⊎ (s.worker j ≡ asleep_work)
          → Fits Stage.asking (s.worker j) s.job s.asked (s.log j)
          → s.asked ≡ s.job ∷ s.log j
      behind j (inl e) fit = rw e at fit
      behind j (inr e) fit = rw e at fit

  -- All have left the second barrier.
  pub all_rest-Inv :
      (b : Barrier) (w : ℕ → WorkerPc) (m : MasterPc)
      → b.count ≡ 0
      → b.trip_count ≡ n + 1
      → m ≡ outside
      → stage_of s.master ≡ Stage.working
      → s.locked ≡ false
      → ((j : ℕ) → j < n → w j ≡ at_work)
      → ((j : ℕ) → j < n → (s.worker j ≡ called) ⊎ (s.worker j ≡ asleep_done))
      → Inv n (record s { done_barrier = b; worker = w; master = m })
  all_rest-Inv b w m count trip now working locked each before = record {
    work_trip = inv.work_trip;
    done_trip = trip;
    work_count =
        let none = how_many-none sleeps_work n w (λ j below. rw (each j below) refl) in
        let none_before =
          how_many-none sleeps_work n s.worker (λ j below. awake (s.worker j) (before j below)) in
        let busy = working_work s.master working in
        rw now (omega (arith, none, none_before, inv.work_count, busy));
    done_count =
        let none = how_many-none sleeps_done n w (λ j below. rw (each j below) refl) in
        rw now (omega (arith, none, count));
    work_few = inv.work_few;
    done_few = omega (arith, count);
    lock = rw now locked;
    fits = λ j below.
        rw (now, each j below) (up_to_date j (before j below) (rw working at (inv.fits j below)));
  }
    where
      working_work : (p : MasterPc) → stage_of p ≡ Stage.working → master_sleeps_work p ≡ 0
      working_work p e = ground arith

      awake : (p : WorkerPc) → (p ≡ called) ⊎ (p ≡ asleep_done) → sleeps_work p ≡ 0
      awake p e = ground arith

      up_to_date :
          (j : ℕ)
          → (s.worker j ≡ called) ⊎ (s.worker j ≡ asleep_done)
          → Fits Stage.working (s.worker j) s.job s.asked (s.log j)
          → s.log j ≡ s.asked
      up_to_date j (inl e) fit = rw e at fit
      up_to_date j (inr e) fit = rw e at fit
