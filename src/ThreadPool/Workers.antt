-- ===== src/ThreadPool/Workers.antt =====
-- The workers of a pool.
use puma.Base.{
  ℕ, zero, suc, ◌+◌, ◌-◌, ◌%◌, ◌^◌, Bool-cases, inl, inr, ◌≤◌, ◌<◌, ◌≡◌, refl, ap, sym, ◌∙◌, arith,
  Bool, true, false, none, some, List, [], ◌∷◌, ltb, ◌==◌, if◌then◌else◌, length, get_elem?, min,
  ◌||◌, ◌&&◌, leb,
}
use mathlib.Core.Option.{some-injective}
use native.Mathlib.Nat.{sub-zero}
use puma.ThreadPool.{
  uint_max, CpuSet, cpu_setsize, cpu_zero, cpu_set, cpu_count, Token, one, range, bad, set_range,
  parse_affinity, Worker, affinity_workers, plain_workers, ThreadPool, pool_of, create_thread_pool,
}

plain_workers_lem :
    (left i curr k : ℕ)
    → k < left
    → get_elem? (plain_workers left i curr) k ≡ some (record { cpu = i + k; thread_num = curr + k })
unfolding plain_workers
plain_workers_lem zero i curr k lt = absurd (omega arith)
plain_workers_lem (suc left) i curr zero lt = ground arith
plain_workers_lem (suc left) i curr (suc k) lt =
    ground (arith, plain_workers_lem left (i + 1) (curr + 1) k)

length-plain_workers : (left i curr : ℕ) → length (plain_workers left i curr) ≡ left
unfolding plain_workers
length-plain_workers zero i curr = refl
length-plain_workers (suc left) i curr = ap suc (length-plain_workers left (i + 1) (curr + 1))

-- Without an affinity string a pool starts as many workers as it is asked for, or one for each
-- processor if it is asked for 0, worker `k` being thread `k` on CPU `k`.
pub create_thread_pool-plain :
    (online num_threads : ℕ)
    → (n : ℕ) × (pool : ThreadPool) × (n ≡ (if num_threads == 0 then online else num_threads))
      × (create_thread_pool online num_threads none ≡ some pool)
      × (pool.num_threads ≡ n)
      × (pool.barrier_count ≡ (n + 1) % 2 ^ 32)
      × (length pool.workers ≡ n)
      × ((k : ℕ) → k < n → get_elem? pool.workers k ≡ some (record { cpu = k; thread_num = k }))
unfolding create_thread_pool
create_thread_pool-plain online num_threads =
    let n = if num_threads == 0 then online else num_threads in
    (
      n,
      _,
      refl,
      refl,
      refl,
      refl,
      length-plain_workers n 0 0,
      λ k lt. ground (arith, plain_workers_lem n 0 0 k),
    )

-- CPUs of the set from `i` on, `left` of them looked at.
unfoldable pub members : CpuSet → ℕ → ℕ → ℕ
members set zero i = 0
members set (suc left) i = (if set i then 1 else 0) + members set left (i + 1)

-- The code's loop with affinity makes a worker of each CPU of the set that it looks at, in order,
-- up to the number of threads.
length-affinity_workers :
    (set : CpuSet) (n left i curr : ℕ)
    → curr ≤ n
    → length (affinity_workers set n left i curr) ≡ min (n - curr) (members set left i)
unfolding affinity_workers members
length-affinity_workers set n zero i curr le = omega arith
length-affinity_workers set n (suc left) i curr le = ground (
  arith,
  length-affinity_workers set n left (i + 1) (curr + 1),
  length-affinity_workers set n left (i + 1) curr,
)

affinity_workers_lem :
    (set : CpuSet) (n left i curr k : ℕ) (w : Worker)
    → get_elem? (affinity_workers set n left i curr) k ≡ some w
    → (set w.cpu ≡ true) × (w.cpu < i + left) × (w.thread_num ≡ curr + k) × (curr + k < n)
unfolding affinity_workers
affinity_workers_lem set n zero i curr k w e = cc
affinity_workers_lem set n (suc left) i curr zero w e = ground (
  arith,
  affinity_workers_lem set n left (i + 1) (curr + 1) zero w,
  affinity_workers_lem set n left (i + 1) curr zero w,
)
affinity_workers_lem set n (suc left) i curr (suc k) w e = ground (
  arith,
  affinity_workers_lem set n left (i + 1) (curr + 1) k w,
  affinity_workers_lem set n left (i + 1) curr (suc k) w,
)

-- Some token names the CPU.
unfoldable pub covered : List Token → ℕ → Bool
covered [] j = false
covered (one start ∷ rest) j = j == start || covered rest j
covered (range start end_ ∷ rest) j = (leb start j && leb j end_) || covered rest j
covered (bad ∷ rest) j = covered rest j

set_range_lem :
    (left i j : ℕ) (set : CpuSet)
    → set_range left i set j ≡ (set j || (ltb j cpu_setsize && (leb i j && ltb j (i + left))))
unfolding set_range cpu_set
set_range_lem zero i j set = ground arith
set_range_lem (suc left) i j set = ground (arith, set_range_lem left (i + 1) j (cpu_set i set))

parse_affinity-covered :
    (tokens : List Token) (set r : CpuSet) (j : ℕ)
    → parse_affinity tokens set ≡ some r
    → r j ≡ (set j || (ltb j cpu_setsize && covered tokens j))
unfolding parse_affinity covered cpu_set
parse_affinity-covered [] set r j e =
    ground (arith, ap (λ (f : CpuSet). f j) (some-injective set r e))
parse_affinity-covered (one start ∷ rest) set r j e =
    ground (arith, parse_affinity-covered rest (cpu_set start set) r j e)
parse_affinity-covered (range start end_ ∷ rest) set r j e =
    let after = set_range (end_ + 1 - start) start set in
    let e' : (if ltb end_ uint_max then parse_affinity rest after else none) ≡ some r = e in
    elim (Bool-cases (ltb end_ uint_max)) [
      | inl ends ↦ ground (
        arith,
        parse_affinity-covered rest after r j (rw ends at e'),
        set_range_lem (end_ + 1 - start) start j set,
      )
      | inr endless ↦ let stuck : none ≡ some r = rw endless at e' in cc
    ]
parse_affinity-covered (bad ∷ rest) set r j e = cc

right_of_and : (a b : Bool) → (false || (a && b)) ≡ true → b ≡ true
right_of_and true b h = h
right_of_and false b h = cc

-- With an affinity string whose tokens are all numbers, or ranges that end below `UINT_MAX`: CPU `j` is in the set exactly if it
-- is below 1024 and some token names it. The pool has as many workers as its threads or as the CPUs
-- of the set below the number of CPUs in it, whichever is less, worker `k` being thread `k`, below
-- the number of threads, on a CPU that is below the number of CPUs in the set and that some token
-- names; and its barriers wait for one thread more than the pool has, as an `unsigned int`.
pub create_thread_pool-affinity :
    (online num_threads : ℕ) (tokens : List Token) (cpus : CpuSet)
    → parse_affinity tokens cpu_zero ≡ some cpus
    → (n : ℕ) × (pool : ThreadPool) × (n ≡ (if num_threads == 0 then online else num_threads))
      × (create_thread_pool online num_threads (some tokens) ≡ some pool)
      × (pool.num_threads ≡ n)
      × (pool.barrier_count ≡ (n + 1) % 2 ^ 32)
      × ((j : ℕ) → cpus j ≡ (ltb j cpu_setsize && covered tokens j))
      × (length pool.workers ≡ min n (members cpus (cpu_count cpus) 0))
      × ((k : ℕ) (w : Worker)
          → get_elem? pool.workers k ≡ some w
          → (covered tokens w.cpu ≡ true) × (w.cpu < cpu_count cpus) × (w.thread_num ≡ k) × (k < n))
unfolding create_thread_pool
create_thread_pool-affinity online num_threads tokens cpus parsed =
    let n = if num_threads == 0 then online else num_threads in
    (
      n,
      pool_of n (affinity_workers cpus n (cpu_count cpus) 0 0),
      refl,
      rw parsed,
      refl,
      refl,
      λ j. parse_affinity-covered tokens cpu_zero cpus j parsed,
      length-affinity_workers cpus n (cpu_count cpus) 0 0 (omega arith)
          ∙ ap (λ x. min x (members cpus (cpu_count cpus) 0)) (sub-zero n),
      λ k w e.
          let (member, low, num, fits) = affinity_workers_lem cpus n (cpu_count cpus) 0 0 k w e in
          (
            right_of_and (ltb w.cpu cpu_setsize) (covered tokens w.cpu)
                (sym (parse_affinity-covered tokens cpu_zero cpus w.cpu parsed) ∙ member),
            omega arith,
            omega arith,
            omega arith,
          ),
    )

-- If every CPU that the string names is at or above the number of CPUs in the set, as in "4-7", the
-- pool starts no worker, whatever number of threads it is asked for, while its barriers still wait
-- for that many threads and one more, as an `unsigned int`.
pub create_thread_pool-no_workers :
    (online num_threads : ℕ) (tokens : List Token) (cpus : CpuSet)
    → parse_affinity tokens cpu_zero ≡ some cpus
    → ((j : ℕ) → covered tokens j ≡ true → cpu_count cpus ≤ j)
    → (pool : ThreadPool) × (create_thread_pool online num_threads (some tokens) ≡ some pool)
      × (pool.workers ≡ [])
      × (pool.barrier_count ≡ ((if num_threads == 0 then online else num_threads) + 1) % 2 ^ 32)
create_thread_pool-no_workers online num_threads tokens cpus parsed high =
    none_of (create_thread_pool-affinity online num_threads tokens cpus parsed)
  where
    empty : (ws : List Worker) → ((k : ℕ) (w : Worker) → get_elem? ws k ≡ some w → ⊥) → ws ≡ []
    empty [] none_at = refl
    empty (w ∷ ws) none_at = absurd (none_at 0 w refl)

    none_of :
        (n : ℕ) × (pool : ThreadPool) × (n ≡ (if num_threads == 0 then online else num_threads))
          × (create_thread_pool online num_threads (some tokens) ≡ some pool)
          × (pool.num_threads ≡ n)
          × (pool.barrier_count ≡ (n + 1) % 2 ^ 32)
          × ((j : ℕ) → cpus j ≡ (ltb j cpu_setsize && covered tokens j))
          × (length pool.workers ≡ min n (members cpus (cpu_count cpus) 0))
          × ((k : ℕ) (w : Worker)
              → get_elem? pool.workers k ≡ some w
              → (covered tokens w.cpu ≡ true)
                × (w.cpu < cpu_count cpus)
                × (w.thread_num ≡ k)
                × (k < n))
        → (pool : ThreadPool) × (create_thread_pool online num_threads (some tokens) ≡ some pool)
          × (pool.workers ≡ [])
          × (pool.barrier_count ≡ ((if num_threads == 0 then online else num_threads) + 1) % 2 ^ 32)
    none_of (n, pool, at_n, made, _, barrier, _, _, each) = (
      pool,
      made,
      empty pool.workers
          λ k w e. let (named, low, _, _) = each k w e in omega (arith, high w.cpu named),
      rw (← at_n) barrier,
    )
