-- ===== src/Tests/RoundTrip.antt =====
-- The theorems on the last element of a list, and on an element that is given out and taken back.
use puma.Base.{ℕ, ◌<◌, ◌≡◌, ◌≢◌, refl, arith, some}
use puma.Bitmask.{bitmask_get, mask_not_free}
use puma.Memory.{Node, Memory, ◌>>=◌}
use puma.Util.{get_element, get_last_element}
use puma.Util.Last.{get_last_element-tail}
use puma.Node.{trim}
use puma.Node.Invariant.{IsNode}
use puma.Alloc.{pumalloc_on_thread_list, pufree}
use puma.Alloc.RoundTrip.{pufree-pumalloc_on_thread_list}
use puma.Tests.Nodes.{
  config, first_used, first_used-IsBitmask, element_used, a_node, a_list, a_memory, a_node-IsFilled,
}

get_last_element-tail_example :
    (i : ℕ) × (get_last_element 7 a_memory ≡ some (get_element a_node i, a_memory))
    × (i < 70)
    × (bitmask_get first_used i ≡ some mask_not_free)
    × ((j : ℕ) → i < j → j < 70 → bitmask_get first_used j ≢ some mask_not_free)
get_last_element-tail_example =
    get_last_element-tail 7 a_list a_node 0 a_memory refl refl refl refl first_used-IsBitmask
      (omega arith) element_used

pufree-pumalloc_on_thread_list_example :
    (n' : Node) × (h' : Memory) × ((pumalloc_on_thread_list config 7 >>= pufree config) a_memory
      ≡ trim config 8192 h')
    × (h'.node 8192 ≡ some n')
    × (h'.list 7 ≡ some a_list)
    × IsNode config 8192 n'
    × (n'.num_elements ≡ 1)
    × ((j : ℕ) → j < 70 → bitmask_get n'.free_mask j ≡ bitmask_get first_used j)
pufree-pumalloc_on_thread_list_example =
    pufree-pumalloc_on_thread_list config 7 a_list a_node a_memory refl refl refl refl refl
      a_node-IsFilled (omega arith) (omega arith)
