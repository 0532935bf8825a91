-- ===== src/Alloc.antt =====
-- src/pumalloc.c: elements of a thread list are given out and taken back.
pub mod Filled
pub mod RoundTrip
use puma.Base.{ℕ, ◌+◌, true, not, if◌then◌else◌, leb, ◌==◌}
use puma.Memory.{Ptr, null, M, pure, ◌>>=◌, ◌>>◌, load, store, load_list, store_list}
use puma.Util.{Config, get_element, get_node_for_element}
use puma.Node.{alloc_element_on_node, free_element_on_node, cleanup_node, append_puma_node}

module _ (c : Config) where
  -- The tail to allocate on: a new one where there is none or it is full.
  pub tail_with_room : Ptr → M Ptr
  unfolding load load_list
  tail_with_room list = do
    l ← load_list list
    if l.tail == null then append_puma_node c list l.element_size else do
      t ← load l.tail
      if t.num_elements == t.capacity then append_puma_node c list l.element_size else pure l.tail

  -- The index that the new element gets: the first place not known to be used, and after the last
  -- place of the node the first behind the elements that a clean-up leaves.
  pub next_free_index : (list tail : Ptr) → M ℕ
  unfolding load store
  next_free_index list tail = do
    t ← load tail
    let free_index = t.first_known_free
    store tail (record t { first_known_free = free_index + 1 })
    if not (leb t.capacity free_index) then pure free_index else do
      cleanup_node c tail list
      t' ← load tail
      store tail (record t' { first_known_free = t'.num_elements + 1 })
      pure t'.num_elements

  -- `_pumallocOnThreadList`.
  unfoldable pub pumalloc_on_thread_list : Ptr → M Ptr
  unfolding load store load_list store_list get_element tail_with_room next_free_index
      alloc_element_on_node
  pumalloc_on_thread_list list = do
    tail ← tail_with_room list
    free_index ← next_free_index list tail
    t ← load tail
    l ← load_list list
    store_list list
        (record l { num_nodes = l.num_nodes + (if t.active then 0 else 1); tail = tail })
    store tail (record t { active = true })
    let new_element = get_element t free_index
    alloc_element_on_node c tail new_element
    pure new_element

  -- `pufree`.
  unfoldable pub pufree : Ptr → M (Unit {0})
  unfolding get_node_for_element free_element_on_node
  pufree element = free_element_on_node c element (get_node_for_element c element)
