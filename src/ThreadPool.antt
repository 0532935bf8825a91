-- ===== src/ThreadPool.antt =====
-- src/pumathreadpool.c, in the build without OpenMP: which workers a pool starts, and on which CPUs.
pub mod Workers
pub mod Family
pub mod Rounds
pub mod Places
pub mod Turns
pub mod Safety
pub mod Once
pub mod Progress
pub mod Stuck
use puma.Base.{
  ℕ, zero, suc, ◌+◌, ◌-◌, ◌%◌, ◌^◌, Bool, true, false, Option, none, some, List, [], ◌∷◌, ltb, leb,
  ◌==◌, ◌||◌, if◌then◌else◌,
}

-- `cpu_set_t`: a CPU from `CPU_SETSIZE` on is never in it.
abbrev pub CpuSet : Type 0
CpuSet = ℕ → Bool

abbrev pub cpu_setsize : ℕ
cpu_setsize = 1024

abbrev pub cpu_zero : CpuSet
cpu_zero = λ i. false

unfoldable pub cpu_set : ℕ → CpuSet → CpuSet
cpu_set cpu set i = if ltb cpu cpu_setsize then (i == cpu || set i) else set i

-- `CPU_COUNT`, over the CPUs below `n`.
unfoldable pub cpu_count_below : ℕ → CpuSet → ℕ
cpu_count_below zero set = 0
cpu_count_below (suc n) set = cpu_count_below n set + (if set n then 1 else 0)

unfoldable pub cpu_count : CpuSet → ℕ
unfolding cpu_count_below
cpu_count = cpu_count_below cpu_setsize

-- What `sscanf(token, "%u-%u", …)` makes of a token that `strtok_r` gives: one `unsigned int`, two, or
-- none.
pub data Token : Type 0 where
  one : (start : ℕ) → Token
  range : (start end_ : ℕ) → Token
  bad : Token

-- `UINT_MAX`.
abbrev pub uint_max : ℕ
uint_max = 2 ^ 32 - 1

-- `for(unsigned int i = start; i <= end; ++i)`, with `left` rounds to go, where it ends.
unfoldable pub set_range : (left i : ℕ) → CpuSet → CpuSet
set_range zero i set = set
set_range (suc left) i set = set_range left (i + 1) (cpu_set i set)

-- `_parseAffinityStr` over the tokens of the string. `none` is `exit(-1)`, or a loop that does not end:
-- no `unsigned int` is above the end of a range up to `UINT_MAX`.
unfoldable pub parse_affinity : List Token → CpuSet → Option CpuSet
unfolding set_range cpu_set
parse_affinity [] set = some set
parse_affinity (one start ∷ rest) set = parse_affinity rest (cpu_set start set)
parse_affinity (range start end_ ∷ rest) set =
    let parsed = parse_affinity rest (set_range (end_ + 1 - start) start set) in
    if ltb end_ uint_max then parsed else none
parse_affinity (bad ∷ rest) set = none

-- `struct _threadPoolWorkerInfo`, less the pool and the time.
pub record Worker : Type 0 where
  pub cpu : ℕ
  pub thread_num : ℕ

-- `for(i = 0; i < nCPUs && currThread < numThreads; ++i)`, with `left` of `nCPUs` rounds to go.
pub affinity_workers : CpuSet → (num_threads left i curr_thread : ℕ) → List Worker
affinity_workers set num_threads zero i curr_thread = []
affinity_workers set num_threads (suc left) i curr_thread =
    let with_one = affinity_workers set num_threads left (i + 1) (curr_thread + 1) in
    let without = affinity_workers set num_threads left (i + 1) curr_thread in
    if ltb curr_thread num_threads
    then (if set i then record { cpu = i; thread_num = curr_thread } ∷ with_one else without)
    else []

-- `for(i = 0; currThread < numThreads; ++i)`: `left` threads to go.
pub plain_workers : (left i curr_thread : ℕ) → List Worker
plain_workers zero i curr_thread = []
plain_workers (suc left) i curr_thread =
    record { cpu = i; thread_num = curr_thread } ∷ plain_workers left (i + 1) (curr_thread + 1)

-- `struct pumaThreadPool`: what it is told, and the workers that it starts. The count of the barriers is
-- passed on as an `unsigned int`.
pub record ThreadPool : Type 0 where
  pub num_threads : ℕ
  pub workers : List Worker
  pub barrier_count : ℕ

abbrev pub pool_of : ℕ → List Worker → ThreadPool
pool_of num_threads workers = record {
  num_threads = num_threads;
  workers = workers;
  barrier_count = (num_threads + 1) % 2 ^ 32;
}

abbrev pub started : ℕ → Option CpuSet → Option ThreadPool
started num_threads none = none
started num_threads (some cpus) =
    some (pool_of num_threads (affinity_workers cpus num_threads (cpu_count cpus) 0 0))

-- `createThreadPool`. `online` is the number of processors; no affinity string is `none`.
pub create_thread_pool : (online num_threads : ℕ) → Option (List Token) → Option ThreadPool
unfolding parse_affinity affinity_workers plain_workers
create_thread_pool online num_threads none =
    let n = if num_threads == 0 then online else num_threads in
    some (pool_of n (plain_workers n 0 0))
create_thread_pool online num_threads (some tokens) =
    let n = if num_threads == 0 then online else num_threads in
    started n (parse_affinity tokens cpu_zero)
