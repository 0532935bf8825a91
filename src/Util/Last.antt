-- ===== src/Util/Last.antt =====
-- `_getLastElement` on a list whose tail has an element.
use puma.Base.{ℕ, suc, ◌+◌, ◌<◌, ◌≡◌, ◌≢◌, arith, true, false, some, inl, inr, ◌==◌}
use puma.Bitmask.{Search, bitmask_get, mask_not_free, last_index_of_value}
use puma.Bitmask.Access.{IsBitmask}
use puma.Bitmask.Find.{IsLast, last_index_of_value-IsLast}
use puma.Memory.{Ptr, null, Node, ThreadList, Memory}
use puma.Util.{get_element, get_last_element, get_last_element_loop}

-- If the tail of a list is an active node with a well-formed mask and some place in use:
-- `_getLastElement` gives the address of the last such place of the node, and changes nothing.
pub get_last_element-tail :
    (list : Ptr) (l : ThreadList) (n : Node) (k : ℕ) (h : Memory)
    → h.list list ≡ some l
    → (l.tail == null) ≡ false
    → h.node l.tail ≡ some n
    → n.active ≡ true
    → IsBitmask n.free_mask
    → k < n.free_mask.num_elements
    → bitmask_get n.free_mask k ≡ some mask_not_free
    → (i : ℕ) × (get_last_element list h ≡ some (get_element n i, h))
      × (i < n.free_mask.num_elements)
      × (bitmask_get n.free_mask i ≡ some mask_not_free)
      × ((j : ℕ)
          → i < j
          → j < n.free_mask.num_elements
          → bitmask_get n.free_mask j ≢ some mask_not_free)
unfolding get_last_element get_last_element_loop
get_last_element-tail list l n k h in_list live at_p active ok lt taken =
    found (last_index_of_value-IsLast n.free_mask mask_not_free (omega arith) ok)
  where
    found :
        (r : Search) × (last_index_of_value n.free_mask mask_not_free ≡ some r)
          × IsLast n.free_mask mask_not_free r
        → (i : ℕ) × (get_last_element list h ≡ some (get_element n i, h))
          × (i < n.free_mask.num_elements)
          × (bitmask_get n.free_mask i ≡ some mask_not_free)
          × ((j : ℕ)
              → i < j
              → j < n.free_mask.num_elements
              → bitmask_get n.free_mask j ≢ some mask_not_free)
    found (r, searched, inl (hit, low, is_used, later)) =
        let more : l.num_nodes + 2 ≡ suc (l.num_nodes + 1) = omega arith in
        (r.index, rw (in_list, more, live, at_p, active, searched, hit), low, is_used, later)
    found (r, searched, inr (_, _, nowhere)) = absurd (nowhere k lt taken)
