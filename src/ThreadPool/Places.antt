-- ===== src/ThreadPool/Places.antt =====
-- Where the workers of a pool and their master are, and what that says of the work each worker has done.
use puma.Base.{ℕ, ◌+◌, ◌≤◌, ◌<◌, ◌≡◌, arith, Bool, true, false, List, ◌∷◌}
use puma.ThreadPool.Family.{IsTest, how_many}
use puma.ThreadPool.Rounds.{
  Job, WorkerPc, at_work, asleep_work, reads, calls_function, called, asleep_done, MasterPc,
  outside, stored, waits_work, past_work, unlocked, waits_done, System, wake_work, wake_done,
}

abbrev pub sleeps_work : WorkerPc → ℕ
sleeps_work at_work = 0
sleeps_work asleep_work = 1
sleeps_work reads = 0
sleeps_work (calls_function j) = 0
sleeps_work called = 0
sleeps_work asleep_done = 0

abbrev pub sleeps_done : WorkerPc → ℕ
sleeps_done at_work = 0
sleeps_done asleep_work = 0
sleeps_done reads = 0
sleeps_done (calls_function j) = 0
sleeps_done called = 0
sleeps_done asleep_done = 1

abbrev pub master_sleeps_work : MasterPc → ℕ
master_sleeps_work outside = 0
master_sleeps_work stored = 0
master_sleeps_work waits_work = 1
master_sleeps_work past_work = 0
master_sleeps_work unlocked = 0
master_sleeps_work waits_done = 0

abbrev pub master_sleeps_done : MasterPc → ℕ
master_sleeps_done outside = 0
master_sleeps_done stored = 0
master_sleeps_done waits_work = 0
master_sleeps_done past_work = 0
master_sleeps_done unlocked = 0
master_sleeps_done waits_done = 1

abbrev pub has_lock : MasterPc → Bool
has_lock outside = false
has_lock stored = true
has_lock waits_work = true
has_lock past_work = true
has_lock unlocked = false
has_lock waits_done = false

-- A call of the pool is not made, is made but the work not begun, or is being worked on.
pub data Stage : Type 0 where
  resting : Stage
  asking : Stage
  working : Stage

abbrev pub stage_of : MasterPc → Stage
stage_of outside = resting
stage_of stored = asking
stage_of waits_work = asking
stage_of past_work = working
stage_of unlocked = working
stage_of waits_done = working

-- The worker has called what was asked, the latest included.
abbrev pub IsUpToDate : List Job → List Job → Type 0
IsUpToDate asked log = log ≡ asked

-- It has called all but the latest.
abbrev pub IsBehind : Job → List Job → List Job → Type 0
IsBehind job asked log = asked ≡ job ∷ log

abbrev pub Fits : Stage → WorkerPc → Job → (asked log : List Job) → Type 0
Fits resting at_work job asked log = IsUpToDate asked log
Fits resting asleep_work job asked log = IsUpToDate asked log
Fits resting reads job asked log = ⊥
Fits resting (calls_function j) job asked log = ⊥
Fits resting called job asked log = ⊥
Fits resting asleep_done job asked log = ⊥
Fits asking at_work job asked log = IsBehind job asked log
Fits asking asleep_work job asked log = IsBehind job asked log
Fits asking reads job asked log = ⊥
Fits asking (calls_function j) job asked log = ⊥
Fits asking called job asked log = ⊥
Fits asking asleep_done job asked log = ⊥
Fits working at_work job asked log = ⊥
Fits working asleep_work job asked log = ⊥
Fits working reads job asked log = IsBehind job asked log
Fits working (calls_function j) job asked log = (j ≡ job) × IsBehind job asked log
Fits working called job asked log = IsUpToDate asked log
Fits working asleep_done job asked log = IsUpToDate asked log

pub record Inv (n : ℕ) (s : System) : Type 0 where
  pub work_trip : s.work_wait_barrier.trip_count ≡ n + 1
  pub done_trip : s.done_barrier.trip_count ≡ n + 1
  pub work_count :
      s.work_wait_barrier.count ≡ how_many sleeps_work n s.worker + master_sleeps_work s.master
  pub done_count :
      s.done_barrier.count ≡ how_many sleeps_done n s.worker + master_sleeps_done s.master
  pub work_few : s.work_wait_barrier.count ≤ n
  pub done_few : s.done_barrier.count ≤ n
  pub lock : s.locked ≡ has_lock s.master
  pub fits : (i : ℕ) → i < n → Fits (stage_of s.master) (s.worker i) s.job s.asked (s.log i)

pub sleeps_work-IsTest : IsTest sleeps_work
sleeps_work-IsTest = record { small = small }
  where
    small : (p : WorkerPc) → sleeps_work p ≤ 1
    small p = ground arith

pub sleeps_done-IsTest : IsTest sleeps_done
sleeps_done-IsTest = record { small = small }
  where
    small : (p : WorkerPc) → sleeps_done p ≤ 1
    small p = ground arith

pub asleep_at_work : (p : WorkerPc) → sleeps_work p ≡ 1 → p ≡ asleep_work
asleep_at_work p e = ground arith

pub asleep_at_done : (p : WorkerPc) → sleeps_done p ≡ 1 → p ≡ asleep_done
asleep_at_done p e = ground arith

pub master_at_work : (m : MasterPc) → 0 < master_sleeps_work m → m ≡ waits_work
master_at_work m lt = ground arith

pub master_at_done : (m : MasterPc) → 0 < master_sleeps_done m → m ≡ waits_done
master_at_done m lt = ground arith

pub sleeps_done-wake_work : (p : WorkerPc) → sleeps_done (wake_work p) ≡ sleeps_done p
sleeps_done-wake_work p = ground arith

pub sleeps_work-wake_done : (p : WorkerPc) → sleeps_work (wake_done p) ≡ sleeps_work p
sleeps_work-wake_done p = ground arith
