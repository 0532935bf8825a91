-- ===== src/Set/Destroy.antt =====
-- `destroyPumaSet` of src/pumaset.c, where the nodes of each thread's list are freed, `destroyDomain` of
-- src/internal/pumadomain.c and `_emptyThreadList` of src/internal/pumathreadlist.c.
pub mod Freed
use puma.Base.{ℕ, zero, suc, List, [], ◌∷◌, none, some, if◌then◌else◌, ◌==◌}
use puma.Memory.{Ptr, null, M, pure, ◌>>=◌, ◌>>◌, update, load, load_list, release}
use puma.Util.{Config}
use puma.Node.{free_puma_node}
use puma.Set.{PumaSet, Domain, get_list_for_thread, execute_on_thread_pool}

-- The loop of `_destroyThreadListWorker`, on fuel. The buckets of a node's mask are in its block.
unfoldable pub destroy_nodes : ℕ → (current_node : Ptr) → M (Unit {0})
unfolding load release
destroy_nodes zero current_node = λ _. none
destroy_nodes (suc fuel) current_node =
    if current_node == null
    then pure tt
    else do n ← load current_node; release current_node; destroy_nodes fuel n.next

-- `_destroyThreadListWorker` on thread `thread`; it gives nothing back.
unfoldable pub destroy_thread_list_worker :
    PumaSet → (fuel : ℕ) → (thread : ℕ) → Unit {0} → M (Unit {0})
unfolding get_list_for_thread load_list destroy_nodes
destroy_thread_list_worker s fuel thread u = do
  p ← get_list_for_thread s thread
  l ← load_list p
  destroy_nodes fuel l.head

-- The loop of `_emptyThreadList`, on fuel.
unfoldable pub empty_nodes : Config → ℕ → (node : Ptr) → M (Unit {0})
unfolding load free_puma_node
empty_nodes c zero node = λ _. none
empty_nodes c (suc fuel) node =
    if node == null
    then pure tt
    else do n ← load node; free_puma_node c node; empty_nodes c fuel n.next

-- `_emptyThreadList`.
unfoldable pub empty_thread_list : Config → (fuel : ℕ) → (list : Ptr) → M (Unit {0})
unfolding load_list empty_nodes
empty_thread_list c fuel list = do l ← load_list list; empty_nodes c fuel l.head

-- What `nufree` does to the thread lists of a domain.
unfoldable pub free_lists : List Ptr → M (Unit {0})
free_lists [] h = pure tt h
free_lists (p ∷ rest) h = free_lists rest (record h { list = update h.list p none })

-- `destroyDomain`.
unfoldable pub destroy_domain : Domain → M (Unit {0})
unfolding free_lists
destroy_domain d = free_lists d.lists_in_domain

-- `for(i = 0; i < set->numDomains; ++i)`.
unfoldable pub destroy_domains : List Domain → M (Unit {0})
unfolding destroy_domain
destroy_domains [] = pure tt
destroy_domains (d ∷ rest) = do destroy_domain d; destroy_domains rest

-- `destroyPumaSet`, less the memory of the set itself and of its tables.
unfoldable pub destroy_puma_set : PumaSet → (fuel : ℕ) → (order : List ℕ) → M (Unit {0})
unfolding execute_on_thread_pool destroy_thread_list_worker destroy_domains
destroy_puma_set s fuel order = do
  execute_on_thread_pool (destroy_thread_list_worker s fuel) order tt
  destroy_domains s.domains
