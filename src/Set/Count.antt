-- ===== src/Set/Count.antt =====
-- `getNumElements`, whatever the order in which the threads run.
use puma.Base.{
  ℕ, zero, suc, ◌+◌, ◌*◌, ◌<◌, ◌≡◌, refl, ap, arith, some, List, [], ◌∷◌, ◌==◌, if◌then◌else◌,
  length, get_or, set, replicate, length-set, get_elem?-get_or, get_or-set, length-replicate,
  get_or-replicate, ℕ_discrete,
}
use mathlib.Core.Path.{ap₂}
use puma.Memory.{Ptr, Memory, ThreadList, load_list}
use puma.Set.{
  PumaSet, get_list_for_thread, execute_on_thread_pool, get_num_elements_worker, sum_list,
  get_num_elements,
}

-- How often `t` stands in a list.
unfoldable pub occurs : ℕ → List ℕ → ℕ
occurs t [] = 0
occurs t (x ∷ xs) = (if x == t then 1 else 0) + occurs t xs

-- The list of each thread of the pool exists, thread `t`'s with `count t` elements.
abbrev pub Counts : PumaSet → Memory → (ℕ → ℕ) → Type 0
Counts s h count =
    (t : ℕ)
    → t < s.pool_threads
    → (p : Ptr) × (l : ThreadList) × (get_list_for_thread s t h ≡ some (p, h))
      × (h.list p ≡ some l)
      × (l.num_elements ≡ count t)

-- count 0 + … + count (n - 1).
unfoldable pub total : (ℕ → ℕ) → ℕ → ℕ
total count zero = 0
total count (suc n) = count 0 + total (λ t. count (suc t)) n

-- Every order of threads, all below the pool's number.
abbrev pub AllBelow : ℕ → List ℕ → Type 0
AllBelow n [] = Unit
AllBelow n (t ∷ ts) = (t < n) × AllBelow n ts

module _ (s : PumaSet) (h : Memory) (count : ℕ → ℕ) (counts : Counts s h count) where
  workers_add :
      (order sums : List ℕ)
      → AllBelow s.pool_threads order
      → length sums ≡ s.pool_threads
      → (sums' : List ℕ) × (execute_on_thread_pool (get_num_elements_worker s) order sums h
          ≡ some (sums', h))
        × (length sums' ≡ s.pool_threads)
        × ((t : ℕ) → get_or sums' t 0 ≡ get_or sums t 0 + occurs t order * count t)
  unfolding execute_on_thread_pool get_num_elements_worker load_list occurs
  workers_add [] sums below size = (sums, refl, size, λ t. omega arith)
  workers_add (x ∷ rest) sums below size =
      let (p, l, found, there, has) = counts x below.0 in
      let added = set sums x (get_or sums x 0 + l.num_elements) in
      let (sums', ran, size', each) =
        workers_add rest added below.1
          (rw (length-set sums x (get_or sums x 0 + l.num_elements)) size) in
      (
        sums',
        rw (found, there, get_elem?-get_or sums x 0 (omega arith), ran),
        size',
        λ t.
            let put = get_or-set sums x t (get_or sums x 0 + l.num_elements) 0 (omega arith) in
            elim (ℕ_discrete x t) [
              | yes e ↦ ground (arith, each t, put, ap count e, ap (λ i. get_or sums i 0) e)
              | no ne ↦ ground (arith, each t, put)
            ],
      )

sum_list-total :
    (xs : List ℕ) (count : ℕ → ℕ)
    → ((t : ℕ) → t < length xs → get_or xs t 0 ≡ count t)
    → sum_list xs ≡ total count (length xs)
unfolding sum_list total
sum_list-total [] count each = refl
sum_list-total (x ∷ xs) count each =
    ap₂ ◌+◌ (each 0 (omega arith))
      (sum_list-total xs (λ t. count (suc t)) λ t lt. each (suc t) (omega arith))

-- When each thread of the pool runs once, in any order, `getNumElements` gives the sum of the numbers
-- of elements of the threads' lists, and changes nothing.
pub get_num_elements-total :
    (s : PumaSet) (h : Memory) (count : ℕ → ℕ) (order : List ℕ)
    → Counts s h count
    → AllBelow s.pool_threads order
    → ((t : ℕ) → t < s.pool_threads → occurs t order ≡ 1)
    → get_num_elements s order h ≡ some (total count s.pool_threads, h)
unfolding get_num_elements
get_num_elements-total s h count order counts below once = summed (
    workers_add s h count counts order (replicate s.pool_threads 0) below
      (length-replicate s.pool_threads 0))
  where
    summed :
        (sums : List ℕ) × (execute_on_thread_pool
              (get_num_elements_worker s)
              order
              (replicate s.pool_threads 0)
              h
            ≡ some (sums, h))
          × (length sums ≡ s.pool_threads)
          × ((t : ℕ)
              → get_or sums t 0
                ≡ get_or (replicate s.pool_threads 0) t 0 + occurs t order * count t)
        → get_num_elements s order h ≡ some (total count s.pool_threads, h)
    summed (sums, ran, size, each) =
        let adds : sum_list sums ≡ total count (length sums) = sum_list-total sums count λ t lt.
          ground (
            arith,
            each t,
            once t (omega arith),
            get_or-replicate {A = ℕ} s.pool_threads t 0 0 (omega arith),
          ) in
        rw (ran, adds, size)
