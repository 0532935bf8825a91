-- ===== src/Set.antt =====
-- include/pumaset.h, src/pumaset.c and the parts of src/pumalloc.c that choose a thread list, in the
-- build without NUMA: one domain, and the list of a thread is that of its number.
pub mod Count
pub mod Choose
pub mod Create
pub mod Destroy
use puma.Base.{
  ℕ, zero, suc, ◌+◌, ◌-◌, Bool, true, false, Option, none, some, List, [], ◌∷◌, ltb, leb, ◌==◌,
  ◌&&◌, not, if◌then◌else◌, get_elem?, set, replicate, get_or,
}
use puma.Memory.{Ptr, null, Node, ThreadList, Memory, M, pure, ◌>>=◌, ◌>>◌, lift, when, load_list}
use puma.Util.{Config}
use puma.Alloc.{pumalloc_on_thread_list}

-- `struct pumaDomain`: the addresses of its thread lists.
pub record Domain : Type 0 where
  pub lists_in_domain : List Ptr

-- `struct pumaSet`. `splitter` is the user's function with its extra data.
pub record PumaSet : Type 0 where
  pub pool_threads : ℕ
  pub element_size : ℕ
  pub domains : List Domain
  pub num_threads : ℕ
  pub tid_to_thread_list : List Ptr
  pub auto_balance : Bool
  pub splitter : (bal_data num_threads : ℕ) → ℕ

-- `_getListForCurrentThread`, on thread `thread`: `_getCurrentNumaDomain` is 0 and
-- `_getCurrentCPUIndexInDomain` is the thread's number. An index out of range is a fault.
unfoldable pub get_list_for_thread : PumaSet → ℕ → M Ptr
get_list_for_thread s thread = do
  d ← lift (get_elem? s.domains 0)
  lift (get_elem? d.lists_in_domain thread)

-- `executeOnThreadPool`: each thread runs the worker once, in some order. `A` is what the workers
-- write to beside memory.
unfoldable pub execute_on_thread_pool : {A : Type 0} → (ℕ → A → M A) → List ℕ → A → M A
execute_on_thread_pool worker [] a = pure a
execute_on_thread_pool worker (thread ∷ rest) a = do
  a' ← worker thread a
  execute_on_thread_pool worker rest a'

-- `_getNumElementsWorker`.
pub get_num_elements_worker : PumaSet → ℕ → List ℕ → M (List ℕ)
unfolding get_list_for_thread load_list
get_num_elements_worker s thread sums = do
  p ← get_list_for_thread s thread
  l ← load_list p
  x ← lift (get_elem? sums thread)
  pure (set sums thread (x + l.num_elements))

pub sum_list : List ℕ → ℕ
sum_list [] = 0
sum_list (x ∷ xs) = x + sum_list xs

-- `getNumElements`; `order` is that in which the threads of the pool run.
pub get_num_elements : PumaSet → List ℕ → M ℕ
unfolding get_num_elements_worker execute_on_thread_pool sum_list
get_num_elements s order = do
  sums ← execute_on_thread_pool (get_num_elements_worker s) order (replicate s.pool_threads 0)
  pure (sum_list sums)

-- `pumaSetBalancer`.
pub puma_set_balancer : PumaSet → Bool → ((bal_data num_threads : ℕ) → ℕ) → PumaSet
puma_set_balancer s auto_balance splitter = record s {
  auto_balance = auto_balance;
  splitter = splitter;
}

-- The loops of `pumallocAutoBalancing` over the lists of a domain and over the domains. The list of
-- the least number of elements so far is read only if there is one.
pub min_in_domain : List Ptr → (min_list : Ptr) → M Ptr
min_in_domain [] min_list = pure min_list
min_in_domain (p ∷ rest) min_list = do
  l ← load_list p
  if not (l.active && not (min_list == null)) then min_in_domain rest min_list else do
    m ← load_list min_list
    min_in_domain rest (if ltb l.num_elements m.num_elements then p else min_list)

pub min_in_domains : List Domain → (min_list : Ptr) → M Ptr
unfolding min_in_domain
min_in_domains [] min_list = pure min_list
min_in_domains (d ∷ rest) min_list = do
  m ← min_in_domain d.lists_in_domain min_list
  min_in_domains rest m

module _ (c : Config) where
  -- `pumallocAutoBalancing`.
  pub pumalloc_auto_balancing : PumaSet → M Ptr
  unfolding min_in_domains pumalloc_on_thread_list
  pumalloc_auto_balancing s = do
    min_list ← min_in_domains s.domains null
    pumalloc_on_thread_list c min_list

  -- `pumallocManualBalancing`.
  pub pumalloc_manual_balancing : PumaSet → (bal_data : ℕ) → M Ptr
  unfolding pumalloc_on_thread_list
  pumalloc_manual_balancing s bal_data = do
    list ← lift (get_elem? s.tid_to_thread_list (s.splitter bal_data s.num_threads))
    pumalloc_on_thread_list c list

  -- `pumalloc`, on thread `thread`.
  pub pumalloc : PumaSet → (thread : ℕ) → M Ptr
  unfolding get_list_for_thread pumalloc_on_thread_list
  pumalloc s thread = do list ← get_list_for_thread s thread; pumalloc_on_thread_list c list
