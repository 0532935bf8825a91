-- ===== src/Tests/Runs.antt =====
-- The theorems on kernel runs for a set of one thread, whose list is the node of Tests/Nodes.
use puma.Base.{
  ℕ, zero, suc, ◌<◌, ◌≡◌, refl, arith, false, none, some, List, [], ◌∷◌, get_elem?, inl,
}
use puma.Memory.{Ptr, null, Memory, update}
use puma.Node.Chain.{Cells}
use puma.Kernel.{run_kernel_thread}
use puma.Kernel.Thread.{IsReady, visit_all, run_kernel_thread-visit_all}
use puma.Set.{PumaSet, get_list_for_thread}
use puma.ExtraData.{empty_kernel_data}
use puma.Run.{PumaKernel, run_kernel_list}
use puma.Run.Visit.{Same, UserKeeps, ThreadReady, visit_set}
use puma.Run.Whole.{run_kernel_list-visit_set}
use puma.Balance.Auto.{balance_thread_load}
use puma.Tests.Nodes.{config, a_node, a_list, a_memory, a_node-IsNode, a_node-IsCompact}

abbrev pub one_node : Cells
one_node = (8192, a_node) ∷ []

a_node-IsReady : IsReady config 8192 a_node
a_node-IsReady = record {
  node = a_node-IsNode;
  compact = a_node-IsCompact;
  active = refl;
  clean = refl;
  small = omega arith;
}

-- A kernel that writes the extra data to its element.
abbrev write_extra : PumaKernel
write_extra e x h = some (tt, record h { elem = update h.elem e x })

run_kernel_thread-visit_all_example :
    (h' : Memory) × (visit_all (λ e. write_extra e 5) one_node a_memory ≡ some (tt, h'))
    × (run_kernel_thread config (λ e. write_extra e 5) 7 a_memory ≡ some (1, h'))
run_kernel_thread-visit_all_example =
    run_kernel_thread-visit_all config (λ e. write_extra e 5) 7 null a_list one_node a_memory
      (λ e h. (record h { elem = update h.elem e 5 }, refl, refl)) refl (refl, refl, refl, refl, tt)
      refl (a_node-IsReady, tt) (inl refl) (omega arith) refl

abbrev pub one_thread : PumaSet
one_thread = record {
  pool_threads = 1;
  element_size = 100;
  domains = record { lists_in_domain = 7 ∷ [] } ∷ [];
  num_threads = 1;
  tid_to_thread_list = 7 ∷ [];
  auto_balance = false;
  splitter = λ d n. 0;
}

abbrev kernels : List PumaKernel
kernels = write_extra ∷ write_extra ∷ []

kernels-UserKeeps : UserKeeps kernels empty_kernel_data
kernels-UserKeeps = record {
  kernel = each;
  make = λ x h. (null, h, refl, record { nodes = refl; lists = refl });
  thread_reduce = λ x h. (tt, h, refl, record { nodes = refl; lists = refl });
  reduce = λ r xs h. (tt, h, refl, record { nodes = refl; lists = refl });
  destroy = λ x h. (tt, h, refl, record { nodes = refl; lists = refl });
}
  where
    each :
        (k : ℕ) (f : PumaKernel)
        → get_elem? kernels k ≡ some f
        → (e x : Ptr) (h : Memory)
        → (a : Unit {0}) × (h' : Memory) × (f e x h ≡ some (a, h')) × Same h h'
    each zero f at e x h =
        let same : write_extra ≡ f = cc in
        (
          tt,
          record h { elem = update h.elem e x },
          rw (← same) refl,
          record { nodes = refl; lists = refl },
        )
    each (suc zero) f at e x h =
        let same : write_extra ≡ f = cc in
        (
          tt,
          record h { elem = update h.elem e x },
          rw (← same) refl,
          record { nodes = refl; lists = refl },
        )
    each (suc (suc k)) f at e x h = cc

thread-ThreadReady : (t : ℕ) → t < 1 → ThreadReady config one_thread a_memory t one_node
unfolding get_list_for_thread
thread-ThreadReady zero lt = record {
  list = 7;
  l = a_list;
  after = null;
  at_list = λ g. refl;
  in_list = refl;
  domain = refl;
  linked = (refl, refl, refl, refl, tt);
  head = refl;
  ready = (a_node-IsReady, tt);
  stops = inl refl;
  few = omega arith;
  all = refl;
}
thread-ThreadReady (suc t) lt = absurd (omega arith)

not_balanced : balance_thread_load (λ p n. n) one_thread a_memory ≡ some (tt, a_memory)
unfolding balance_thread_load
not_balanced = refl

run_kernel_list-visit_set_example :
    (h' : Memory) × (visit_set kernels empty_kernel_data
        (λ t. one_node)
        1
        (0 ∷ [])
        (0 ∷ [])
        a_memory
      ≡ some (tt, h'))
    × (run_kernel_list config (λ p n. n) one_thread kernels none (0 ∷ []) (0 ∷ []) a_memory
        ≡ some (tt, h'))
    × Same a_memory h'
run_kernel_list-visit_set_example =
    run_kernel_list-visit_set config (λ p n. n) one_thread a_memory a_memory kernels none
      (λ t. one_node) (0 ∷ []) (0 ∷ []) not_balanced kernels-UserKeeps thread-ThreadReady
      (omega arith, tt) (omega arith, tt)
