-- ===== src/Tests/Sets.antt =====
-- The theorems on the creation of a set of two threads, and on the destruction of that of Tests/Runs.
use puma.Base.{
  ℕ, ◌<◌, ◌≤◌, ◌≡◌, ◌≢◌, refl, arith, none, some, List, [], ◌∷◌, get_elem?, inl, if◌then◌else◌,
}
use puma.Memory.{Ptr, Memory}
use puma.Util.{get_node_for_element}
use puma.Set.{PumaSet, get_list_for_thread}
use puma.Set.Count.{occurs}
use puma.Set.Create.{zero_list, ready_list, create_puma_set}
use puma.Set.Create.Lists.{list_at, create_puma_set-lists}
use puma.Set.Create.Overrun.{create_puma_set-none}
use puma.Set.Destroy.{destroy_puma_set}
use puma.Node.Chain.{has}
use puma.Set.Destroy.Freed.{in_domains, HasChain, destroy_puma_set-freed}
use puma.Tests.Nodes.{config, a_list, a_memory}
use puma.Tests.Runs.{one_thread, one_node}

-- The allocator will give memory at 16384.
abbrev no_lists : Memory
no_lists = record { node = λ p. none; list = λ p. none; elem = λ p. 0; fresh = 16384 ∷ [] }

aligned : get_node_for_element config 16384 ≡ 16384
unfolding get_node_for_element puma.Word.inv
aligned = refl

-- The workers run in the order 1, 0.
abbrev order : List ℕ
order = 1 ∷ 0 ∷ []

each_runs : (t : ℕ) → t < 2 → occurs t order ≢ 0
unfolding occurs
each_runs t lt = ground arith

create_puma_set-lists_example :
    (s : PumaSet) × (h' : Memory) × (create_puma_set config 136 4 100 2 order (λ d n. 0) no_lists
      ≡ some (s, h'))
    × (s.pool_threads ≡ 2)
    × (s.num_threads ≡ 2)
    × ((t : ℕ)
        → t < 2
        → (get_elem? s.tid_to_thread_list t ≡ some (list_at 16384 136 t))
          × (get_list_for_thread s t h' ≡ some (list_at 16384 136 t, h'))
          × (h'.list (list_at 16384 136 t) ≡ some (ready_list t 100 zero_list)))
    × ((t : ℕ) → 2 ≤ t → t < 4 → h'.list (list_at 16384 136 t) ≡ some zero_list)
create_puma_set-lists_example =
    create_puma_set-lists config 136 4 100 2 16384 order (λ d n. 0) [] no_lists refl aligned
      (omega arith) (omega arith) (omega arith) (omega arith, (omega arith, tt)) each_runs

-- A set of 0 threads, whose pool has a thread for each of two processors.
zero_runs : occurs 0 order ≢ 0
unfolding occurs
zero_runs = ground arith

create_puma_set-none_example : create_puma_set config 136 2 100 0 order (λ d n. 0) no_lists ≡ none
create_puma_set-none_example =
    create_puma_set-none config 136 2 100 0 16384 0 order (λ d n. 0) [] no_lists refl aligned
      (omega arith) zero_runs (inl (omega arith))

one_thread-HasChain : HasChain one_thread 2 a_memory 0 one_node
unfolding get_list_for_thread
one_thread-HasChain = record {
  list = 7;
  l = a_list;
  at_list = λ g. refl;
  in_list = refl;
  linked = (refl, refl, refl, refl, tt);
  head = refl;
  few = omega arith;
}

destroy_puma_set-freed_example :
    (h' : Memory) × (destroy_puma_set one_thread 2 (0 ∷ []) a_memory ≡ some (tt, h'))
    × ((q : Ptr) → h'.node q ≡ (if has q one_node then none else a_memory.node q))
    × ((q : Ptr) → h'.list q ≡ (if in_domains q one_thread.domains then none else a_memory.list q))
destroy_puma_set-freed_example =
    destroy_puma_set-freed one_thread 2 (λ t. one_node) (0 ∷ []) a_memory (one_thread-HasChain, tt)
      (refl, tt)
