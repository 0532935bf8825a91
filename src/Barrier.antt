-- ===== src/Barrier.antt =====
-- include/internal/pthreadbarrier.h: the barrier for a system that has none, and the threads that go
-- through it. The mutex makes a call one step up to its return or its wait on the condition
-- variable, of which `sleeping` threads wait and `awake` threads have been woken and not returned.
pub mod Groups
use puma.Base.{
  ℕ, zero, suc, ◌+◌, ◌-◌, ◌^◌, ◌<◌, ◌≡◌, Bool, true, false, Option, none, some, leb, ltb, ◌==◌,
  ◌&&◌, if◌then◌else◌,
}

-- `pthread_barrier_t`, with the state of its condition variable.
pub record Barrier : Type 0 where
  pub count : ℕ
  pub trip_count : ℕ
  pub sleeping : ℕ
  pub awake : ℕ

-- `tripCount = count`, where `count` is an `unsigned int` and `tripCount` an `int`. From 2 ^ 31 on it
-- is negative, which is kept as 0: every count of calls is greater than either.
unfoldable pub trip_of : ℕ → ℕ
trip_of count = if ltb count (2 ^ 31) then count else 0

-- `pthread_barrier_init`; `mutex_ok` and `cond_ok` say whether the mutex and the condition variable
-- could be made. `none` is -1.
unfoldable pub barrier_init : ℕ → (mutex_ok cond_ok : Bool) → Option Barrier
unfolding trip_of
barrier_init count mutex_ok cond_ok =
    if count == 0
    then none
    else if mutex_ok && cond_ok
    then some (record { count = 0; trip_count = trip_of count; sleeping = 0; awake = 0 })
    else none

-- `pthread_barrier_wait` up to `return 1`, with `true`, or into `pthread_cond_wait`, with `false`.
-- `pthread_cond_broadcast` wakes all who wait.
unfoldable pub barrier_wait : Barrier → Bool × Barrier
barrier_wait b =
    let count = b.count + 1 in
    if leb b.trip_count count
    then (true, record b { count = 0; sleeping = 0; awake = b.awake + b.sleeping })
    else (false, record b { count = count; sleeping = b.sleeping + 1 })

-- The barrier, and how many calls of `pthread_barrier_wait` have been made and have returned.
pub record System : Type 0 where
  pub barrier : Barrier
  pub arrived : ℕ
  pub passed : ℕ

unfoldable pub arrive : System → System
unfolding barrier_wait
arrive s =
    let (first, b) = barrier_wait s.barrier in
    record { barrier = b; arrived = s.arrived + 1; passed = s.passed + (if first then 1 else 0) }

-- The end of the call of a thread that was woken, which does not look at the barrier again.
unfoldable pub leave : System → System
leave s = record s {
  barrier = record s.barrier { awake = s.barrier.awake - 1 };
  passed = s.passed + 1;
}

pub wake : System → System
wake s = record s {
  barrier = record s.barrier { sleeping = s.barrier.sleeping - 1; awake = s.barrier.awake + 1 };
}

-- What the threads do, and, if `spurious`, what the system may do: wake one without a broadcast.
pub data Step (spurious : Bool) : System → System → Type 0 where
  arrives : (s : System) → Step spurious s (arrive s)
  leaves : (s : System) → 0 < s.barrier.awake → Step spurious s (leave s)
  wakes : (s : System) → spurious ≡ true → 0 < s.barrier.sleeping → Step spurious s (wake s)

abbrev pub init : Barrier → System
init b = record { barrier = b; arrived = 0; passed = 0 }

pub data Reach (spurious : Bool) (b : Barrier) : System → Type 0 where
  start : Reach spurious b (init b)
  next : {s t : System} → Reach spurious b s → Step spurious s t → Reach spurious b t
