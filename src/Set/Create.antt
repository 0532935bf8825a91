-- ===== src/Set/Create.antt =====
-- `createPumaSet` of src/pumaset.c with `initDomain` of src/internal/pumadomain.c, in the build without
-- NUMA: there is one domain, with a thread list for each processor.
pub mod Lists
pub mod Overrun
use puma.Base.{
  ℕ, zero, suc, ◌+◌, ◌*◌, Bool, true, false, none, some, List, [], ◌∷◌, ◌==◌, if◌then◌else◌,
  get_elem?, set, replicate,
}
use puma.Memory.{Ptr, null, ThreadList, Memory, M, pure, ◌>>=◌, ◌>>◌, lift, load_list, store_list}
use puma.Util.{Config, get_node_for_element}
use puma.Set.{PumaSet, Domain, execute_on_thread_pool}

-- A thread list of zero bytes.
abbrev pub zero_list : ThreadList
zero_list = record {
  head = null;
  tail = null;
  num_elements = 0;
  num_nodes = 0;
  active = false;
  numa_domain = 0;
  element_size = 0;
  tid = 0;
}

-- The lists of a domain from the one at `p` on, `size` bytes each.
unfoldable pub list_addresses : (left : ℕ) → (p size : ℕ) → List Ptr
list_addresses zero p size = []
list_addresses (suc left) p size = p ∷ list_addresses left (p + size) size

-- `memset(…, 0, …)` of them.
unfoldable pub clear_lists : List Ptr → M (Unit {0})
clear_lists [] = pure tt
clear_lists (p ∷ rest) = do store_list p zero_list; clear_lists rest

-- `numalloc_on_node`, with its `assert`.
unfoldable pub numalloc_on_node : Config → M Ptr
numalloc_on_node c h = elim h.fresh [
  | [] ↦ none
  | p ∷ rest ↦ if p == get_node_for_element c p then some (p, record h { fresh = rest }) else none
]

-- `initDomain`. `list_size` is `sizeof(struct pumaThreadList)`, and `online` the number of processors.
unfoldable pub init_domain : Config → (list_size online : ℕ) → M Domain
unfolding numalloc_on_node clear_lists list_addresses
init_domain c list_size online = do
  p ← numalloc_on_node c
  clear_lists (list_addresses online p list_size)
  pure (record { lists_in_domain = list_addresses online p list_size })

abbrev pub ready_list : (thread element_size : ℕ) → ThreadList → ThreadList
ready_list thread element_size l = record l {
  active = true;
  numa_domain = 0;
  tid = thread;
  element_size = element_size;
}

-- `_setupThreadListsWorker` on thread `thread`; the workers write to `tidToThreadList`. An index out of
-- range is a fault.
unfoldable pub setup_thread_lists_worker :
    Domain → (element_size : ℕ) → (thread : ℕ) → List Ptr → M (List Ptr)
unfolding load_list store_list
setup_thread_lists_worker d element_size thread tid_to_thread_list = do
  p ← lift (get_elem? d.lists_in_domain thread)
  l ← load_list p
  store_list p (ready_list thread element_size l)
  _ ← lift (get_elem? tid_to_thread_list thread)
  pure (set tid_to_thread_list thread p)

-- `createPumaSet`: `order` is that in which the threads of the pool run the worker, and `splitter` what
-- the memory from `malloc` holds in that field.
unfoldable pub create_puma_set :
    Config
    → (list_size online element_size num_threads : ℕ) → (order : List ℕ)
    → (splitter : (bal_data num_threads : ℕ) → ℕ) → M PumaSet
unfolding init_domain setup_thread_lists_worker execute_on_thread_pool
create_puma_set c list_size online element_size num_threads order splitter = do
  d ← init_domain c list_size online
  lists ←
      execute_on_thread_pool (setup_thread_lists_worker d element_size) order
        (replicate num_threads null)
  pure (record {
    pool_threads = if num_threads == 0 then online else num_threads;
    element_size = element_size;
    domains = d ∷ [];
    num_threads = num_threads;
    tid_to_thread_list = lists;
    auto_balance = true;
    splitter = splitter;
  })
