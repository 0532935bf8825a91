-- ===== src/Tests/Threads.antt =====
-- The theorems on thread-local data, on thread pools and on sets at small states.
use puma.Base.{
  ℕ, zero, suc, ◌+◌, ◌*◌, ◌%◌, ◌^◌, ◌≤◌, ◌<◌, ◌≡◌, ◌≢◌, ◌↔◌, refl, arith, true, none, some, ◌==◌,
  ltb, ◌&&◌, if◌then◌else◌, List, [], ◌∷◌, length, get_elem?, min, ◌⊎◌,
}
use puma.Memory.{Ptr, null, Memory, update}
use puma.Util.{get_node_for_element}
use puma.StaticVar.{StaticNode, Statics, static_header, pumalloc_static_local}
use puma.StaticVar.Space.{
  IsTail, taken, pumalloc_static_local_lem, pumalloc_static_local-append,
  pumalloc_static_local-node_pages,
}
use puma.ThreadPool.{
  CpuSet, Token, range, cpu_set, set_range, cpu_zero, cpu_setsize, cpu_count, parse_affinity,
  Worker, ThreadPool, create_thread_pool,
}
use puma.ThreadPool.Workers.{covered, members, create_thread_pool-affinity}
use puma.Set.{PumaSet, pumalloc_auto_balancing, get_num_elements, get_list_for_thread}
use puma.Set.Choose.{pumalloc_auto_balancing-none}
use puma.Set.Count.{total, Counts, occurs, get_num_elements-total}
use puma.Tests.Nodes.{config, a_list, a_memory}

-- A page of 4096 bytes and its header, of which 4000 are given out.
abbrev static_node : StaticNode
static_node = record { next_free = 12328; used = 4000; block_size = 4136; next = null; prev = null }

abbrev statics : Statics
statics = record {
  node = update (λ p. none) 8288 (some static_node);
  head = 8288;
  tail = 8288;
  fresh = 16384 ∷ [];
}

statics-IsTail : IsTail statics 8288 static_node
statics-IsTail = record {
  started = refl;
  key = refl;
  live = refl;
  holds = refl;
  next_free = refl;
  used_small = omega arith;
  small = omega arith;
}

-- 120 bytes more pass the code's test, and end 24 bytes behind the block.
pumalloc_static_local_lem_example :
    (s' : Statics) × (r : Ptr) × (pumalloc_static_local config 120 statics ≡ some (r, s'))
    × (r ≡ 8288 + static_header + 4000)
    × IsTail s' 8288 (taken static_node 120)
    × ((q : Ptr) → q ≢ 8288 → s'.node q ≡ statics.node q)
    × ((r + 120 ≤ 8288 + 4136) ↔ (4000 + 120 + static_header ≤ 4136))
pumalloc_static_local_lem_example =
    pumalloc_static_local_lem config 120 statics 8288 static_node statics-IsTail (omega arith)

aligned : get_node_for_element config 16384 ≡ 16384
unfolding get_node_for_element puma.Word.inv
aligned = refl

pumalloc_static_local-append_example :
    (s' : Statics) × (new : StaticNode) × (pumalloc_static_local config 200 statics
      ≡ some (16384 + static_header, s'))
    × (s'.tail ≡ 8288)
    × (s'.node 8288 ≡ some (record static_node { next = 16384 }))
    × (s'.node 16384 ≡ some new)
    × (new.next ≡ null)
    × (new.prev ≡ 8288)
    × (new.used ≡ 200)
    × ((o : Ptr) → o ≢ 8288 → o ≢ 16384 → s'.node o ≡ statics.node o)
pumalloc_static_local-append_example =
    pumalloc_static_local-append config 200 16384 statics 8288 static_node [] statics-IsTail
      (omega arith) (omega arith) refl aligned (omega arith)

-- The next block is page 1, of 4096 bytes.
abbrev no_statics : Statics
no_statics = record { node = λ p. none; head = null; tail = null; fresh = 4096 ∷ [] }

pumalloc_static_local-node_pages_example :
    (((1 % 2) ≢ 0) × (pumalloc_static_local config 200 no_statics ≡ none))
    ⊎ (((1 % 2) ≡ 0)
        × ((s' : Statics) × (pumalloc_static_local config 200 no_statics
              ≡ some (1 * 2 ^ 12 + static_header, s'))
            × (s'.head ≡ 1 * 2 ^ 12)
            × (s'.tail ≡ 1 * 2 ^ 12)))
pumalloc_static_local-node_pages_example =
    pumalloc_static_local-node_pages config 12 13 1 200 no_statics [] refl refl (omega arith)
      (omega arith) (omega arith) (omega arith) (omega arith) refl refl (omega arith)

-- "4-7": the set of the CPUs 4 to 7.
abbrev four_to_seven : List Token
four_to_seven = range 4 7 ∷ []

abbrev high_cpus : CpuSet
high_cpus = cpu_set 7 (cpu_set 6 (cpu_set 5 (cpu_set 4 cpu_zero)))

high_cpus_parsed : parse_affinity four_to_seven cpu_zero ≡ some high_cpus
unfolding parse_affinity set_range
high_cpus_parsed = refl

create_thread_pool-affinity_example :
    (n : ℕ) × (pool : ThreadPool) × (n ≡ (if 2 == 0 then 8 else 2))
    × (create_thread_pool 8 2 (some four_to_seven) ≡ some pool)
    × (pool.num_threads ≡ n)
    × (pool.barrier_count ≡ (n + 1) % 2 ^ 32)
    × ((j : ℕ) → high_cpus j ≡ (ltb j cpu_setsize && covered four_to_seven j))
    × (length pool.workers ≡ min n (members high_cpus (cpu_count high_cpus) 0))
    × ((k : ℕ) (w : Worker)
        → get_elem? pool.workers k ≡ some w
        → (covered four_to_seven w.cpu ≡ true)
          × (w.cpu < cpu_count high_cpus)
          × (w.thread_num ≡ k)
          × (k < n))
create_thread_pool-affinity_example =
    create_thread_pool-affinity 8 2 four_to_seven high_cpus high_cpus_parsed

-- A set of two threads: the lists at 7 and 9 with one and with three elements.
abbrev a_set : PumaSet
a_set = record {
  pool_threads = 2;
  element_size = 100;
  domains = record { lists_in_domain = 7 ∷ 9 ∷ [] } ∷ [];
  num_threads = 2;
  tid_to_thread_list = 7 ∷ 9 ∷ [];
  auto_balance = true;
  splitter = λ d n. 0;
}

abbrev two_lists : Memory
two_lists = record a_memory {
  list = update a_memory.list 9 (some (record a_list { num_elements = 3; tid = 1 }));
}

pumalloc_auto_balancing-none_example : pumalloc_auto_balancing config a_set two_lists ≡ none
pumalloc_auto_balancing-none_example = pumalloc_auto_balancing-none config a_set two_lists refl

abbrev sizes : ℕ → ℕ
sizes zero = 1
sizes (suc t) = 3

a_set-Counts : Counts a_set two_lists sizes
unfolding get_list_for_thread
a_set-Counts zero lt = (7, a_list, refl, refl, refl)
a_set-Counts (suc zero) lt = (9, record a_list { num_elements = 3; tid = 1 }, refl, refl, refl)
a_set-Counts (suc (suc t)) lt = absurd (omega arith)

each_once : (t : ℕ) → t < 2 → occurs t (1 ∷ 0 ∷ []) ≡ 1
unfolding occurs
each_once zero lt = refl
each_once (suc zero) lt = refl
each_once (suc (suc t)) lt = absurd (omega arith)

get_num_elements-total_example :
    get_num_elements a_set (1 ∷ 0 ∷ []) two_lists ≡ some (total sizes 2, two_lists)
get_num_elements-total_example =
    get_num_elements-total a_set two_lists sizes (1 ∷ 0 ∷ []) a_set-Counts
      (omega arith, (omega arith, tt)) each_once
