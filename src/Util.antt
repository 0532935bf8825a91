-- ===== src/Util.antt =====
-- src/internal/pumautil.c and include/internal/pumautil.h: where an element lies in its node.
pub mod Address
pub mod Last
use Prim.Native.Nat.{bit_and}
use puma.Base.{
  ℕ, zero, suc, ◌+◌, ◌-◌, ◌*◌, ◌/◌, ◌%◌, Bool, true, false, none, if◌then◌else◌, ltb, ◌==◌, ◌&&◌,
  not,
}
use puma.Word.{u64, sub64, inv}
use puma.Memory.{
  Ptr, null, Node, ThreadList, Memory, M, pure, ◌>>=◌, ◌>>◌, lift, when, load, store, load_list,
  store_list,
}
use puma.Bitmask.{Search, last_index_of_value, mask_not_free}

-- `pumaPageSize`, `PUMA_NODEPAGES` and `sizeof(struct pumaNode)`.
pub record Config : Type 0 where
  pub page_size : ℕ
  pub node_pages : ℕ
  pub header_size : ℕ

abbrev pub node_size : Config → ℕ
node_size c = c.page_size * c.node_pages

-- `_getSmallestContainingPages`.
pub get_smallest_containing_pages : (page_size size : ℕ) → ℕ
get_smallest_containing_pages page_size size =
    let page_aligned = bit_and size (inv (page_size - 1)) in
    u64 (page_aligned + (if page_aligned == size then 0 else 1) * page_size)

-- `_getElement`, `_getIndexOfElementOnNode` and `_getNodeForElement`.
unfoldable pub get_element : Node → ℕ → Ptr
get_element node i = i * node.element_size + node.element_array

unfoldable pub get_index_of_element_on_node : Ptr → Node → ℕ
get_index_of_element_on_node element node = sub64 element node.element_array / node.element_size

unfoldable pub get_node_for_element : Config → Ptr → Ptr
get_node_for_element c element = bit_and element (inv (node_size c - 1))

-- `_getIndexOfElement`.
unfoldable pub get_index_of_element : Config → Ptr → M ℕ
unfolding load get_node_for_element get_index_of_element_on_node
get_index_of_element c element = do
  node ← load (get_node_for_element c element)
  pure (get_index_of_element_on_node element node)

-- The loop of `_getLastElement` at `tail`: a node with no element is made inactive, and the list's
-- tail goes back. It runs on fuel; a node is made inactive in each round but the last.
unfoldable pub get_last_element_loop : Ptr → ℕ → Ptr → M Ptr
get_last_element_loop list zero tail = λ _. none
get_last_element_loop list (suc fuel) tail = if tail == null then pure null else do
  node ← load tail
  if not node.active then pure null else do
    last ← lift (last_index_of_value node.free_mask mask_not_free)
    if last.found then pure (get_element node last.index) else do
      l ← load_list list
      store_list list (record l { num_nodes = if ltb 0 l.num_nodes then l.num_nodes - 1 else 0 })
      store tail (record node { active = false })
      let prev = node.prev
      l' ← load_list list
      when (not (prev == null)) (store_list list (record l' { tail = prev }))
      get_last_element_loop list fuel prev

-- `_getLastElement`: at most `numNodes` nodes are active, so that two rounds more are enough.
unfoldable pub get_last_element : Ptr → M Ptr
unfolding load load_list store store_list get_last_element_loop
get_last_element list = do l ← load_list list; get_last_element_loop list (l.num_nodes + 2) l.tail
