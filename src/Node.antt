-- ===== src/Node.antt =====
-- src/internal/pumanode.c, alloc.c and free.c of the same folder: the elements of one node, and the
-- nodes of a thread list. The build is that without NUMA (`NNUMA`), with assertions.
pub mod Invariant
pub mod Filled
pub mod Elements
pub mod Chain
pub mod Create
pub mod Append
pub mod Trim
use puma.Base.{
  ℕ, zero, suc, ◌+◌, ◌-◌, ◌*◌, ◌/◌, ◌%◌, ◌^◌, Bool, true, false, ◌&&◌, ◌||◌, not, none, some, List,
  [], ◌∷◌, if◌then◌else◌, ltb, leb, ◌==◌, assert,
}
use puma.Word.{u64, sub64}
use puma.Bitmask.{
  Search, bitmask_get, bitmask_set, first_index_of_value, create_bitmask_for_elem_array, mask_free,
  mask_not_free,
}
use puma.Memory.{
  Ptr, null, Node, ThreadList, Memory, M, pure, ◌>>=◌, ◌>>◌, lift, when, load, store, load_list,
  store_list, release, copy_element,
}
use puma.Util.{
  Config, node_size, get_element, get_index_of_element_on_node, get_index_of_element,
  get_node_for_element, get_last_element,
}

-- A `size_t` that is stored in an `int`, and back in a `size_t`: its lowest 32 bits, with their sign.
unfoldable pub int_index : ℕ → ℕ
int_index x = let low = x % 2 ^ 32 in if ltb low (2 ^ 31) then low else low + (2 ^ 64 - 2 ^ 32)

module _ (c : Config) where
  -- `_allocElementOnNode`.
  unfoldable pub alloc_element_on_node : (node element : Ptr) → M (Unit {0})
  unfolding load store load_list store_list get_node_for_element get_index_of_element_on_node
  alloc_element_on_node node element = do
    n ← load node
    lift (assert (node == get_node_for_element c element))
    lift (assert n.active)
    let index = get_index_of_element_on_node element n
    before ← lift (bitmask_get n.free_mask index)
    lift (assert (before == mask_free))
    mask ← lift (bitmask_set n.free_mask index mask_not_free)
    after ← lift (bitmask_get mask index)
    lift (assert (after == mask_not_free))
    store node (record n { free_mask = mask; num_elements = n.num_elements + 1 })
    l ← load_list n.thread_list
    store_list n.thread_list (record l { num_elements = l.num_elements + 1 })

  -- `_freePumaNode`: unlinks a node and frees its block, which holds the buckets of its mask.
  unfoldable pub free_puma_node : Ptr → M (Unit {0})
  unfolding load store load_list store_list release
  free_puma_node node = do
    n ← load node
    l ← load_list n.thread_list
    let l1 = record l { tail = if node == l.tail then n.prev else l.tail }
    store_list n.thread_list (record l1 { head = if node == l1.head then n.next else l1.head })
    when (not (n.prev == null)) (do p ← load n.prev; store n.prev (record p { next = n.next }))
    when (not (n.next == null)) (do s ← load n.next; store n.next (record s { prev = n.prev }))
    release node

  -- `_freePumaNode(node->next); node->next = NULL;`.
  unfoldable pub drop_next : (node next : Ptr) → M (Unit {0})
  unfolding load store free_puma_node
  drop_next node next = do free_puma_node next; n ← load node; store node (record n { next = null })

  -- The end of `_freeElementOnNode`: a node less than half full gives up the inactive one behind it.
  unfoldable pub trim : Ptr → M (Unit {0})
  unfolding load drop_next
  trim node = do
    n ← load node
    when (ltb n.num_elements (n.capacity / 2) && not (n.next == null))
        do s ← load n.next; when (not s.active) (drop_next node n.next)

  -- `_freeElementOnNode`. The index is that on the node which the address tells.
  unfoldable pub free_element_on_node : (element node : Ptr) → M (Unit {0})
  unfolding load store load_list store_list get_index_of_element
  free_element_on_node element node = do
    n0 ← load node
    store node (record n0 { dirty = true })
    index ← get_index_of_element c element
    n ← load node
    before ← lift (bitmask_get n.free_mask index)
    lift (assert (before == mask_not_free))
    mask ← lift (bitmask_set n.free_mask index mask_free)
    after ← lift (bitmask_get mask index)
    lift (assert (after == mask_free))
    store node (record n { free_mask = mask; num_elements = sub64 n.num_elements 1 })
    l ← load_list n.thread_list
    store_list n.thread_list (record l { num_elements = sub64 l.num_elements 1 })
    trim node

  -- One round of the loop of `_cleanupNode`, and whether it goes on: the last element of the list
  -- is moved to the first free place of the node, if that comes before it.
  pub cleanup_round : (current list : Ptr) → M Bool
  unfolding load copy_element get_last_element get_element get_node_for_element
  cleanup_round current list = do
    n ← load current
    if not (ltb n.num_elements n.capacity) then pure false else do
      first ← lift (first_index_of_value n.free_mask mask_free)
      last ← get_last_element list
      if last == null || not first.found then pure false else do
        let last_node = get_node_for_element c last
        ln ← load last_node
        n' ← load current
        let first_free = get_element n' first.index
        if ltb ln.index n'.index || (ln.index == n'.index && leb last first_free)
            then pure false
            else (do
              alloc_element_on_node current first_free
              copy_element first_free last
              free_element_on_node last last_node
              pure true)

  pub cleanup_loop : (current list : Ptr) → ℕ → M (Unit {0})
  cleanup_loop current list zero = λ _. none
  cleanup_loop current list (suc fuel) = do
    more ← cleanup_round current list
    if more then cleanup_loop current list fuel else pure tt

  -- `_cleanupNode`. Each round but the last fills a place of the node, so that the capacity and one
  -- more are enough.
  unfoldable pub cleanup_node : (current list : Ptr) → M (Unit {0})
  unfolding load store cleanup_round cleanup_loop
  cleanup_node current list = do
    n ← load current
    cleanup_loop current list (n.capacity + 1)
    n' ← load current
    store current (record n' { dirty = false; first_known_free = n'.num_elements })

  -- `numalloc_aligned_on_node`: the next address that `posix_memalign` gives, with its `assert`.
  pub numalloc_aligned_on_node : M Ptr
  unfolding get_node_for_element
  numalloc_aligned_on_node h = elim h.fresh [
    | [] ↦ none
    | p ∷ rest ↦ if p == get_node_for_element c p then some (p, record h { fresh = rest }) else none
  ]

  -- The part of `_appendPumaNode` that makes a new node behind `tail`. `exit(-1)`, on an element too
  -- large for a node, is a fault.
  pub create_node : (list tail : Ptr) (next_index element_size : ℕ) → M Ptr
  unfolding load store load_list store_list numalloc_aligned_on_node
  create_node list tail next_index element_size = do
    ret ← numalloc_aligned_on_node
    let element_array_size = sub64 (node_size c) c.header_size
    lift (assert (not (ltb element_array_size element_size)))
    layout ← lift (
        create_bitmask_for_elem_array (ret + c.header_size) element_array_size mask_free
          element_size)
    store ret (record {
      element_size = element_size;
      page_unit = c.page_size * ((element_size + c.page_size - 1) / c.page_size);
      block_size = node_size c;
      num_pages = node_size c / c.page_size;
      element_array = layout.array_start;
      num_elements = 0;
      capacity = layout.num_elements;
      first_known_free = 0;
      next = null;
      prev = tail;
      free_mask = layout.mask;
      dirty = false;
      active = true;
      index = next_index;
      thread_list = list;
    })
    when (not (tail == null)) (do t ← load tail; store tail (record t { next = ret }))
    l ← load_list list
    store_list list (record l { tail = ret; head = if l.head == null then ret else l.head })
    pure ret

  -- `_appendPumaNode` where the tail is inactive, and where an inactive node stands behind it.
  pub wake_tail : (tail : Ptr) → Node → M Ptr
  unfolding store
  wake_tail tail t = do store tail (record t { active = true }); pure tail

  pub wake_next : (list next : Ptr) (next_index : ℕ) → M Ptr
  unfolding load store load_list store_list
  wake_next list next next_index = do
    l ← load_list list
    store_list list (record l { tail = next })
    s ← load next
    store next (record s { active = true; index = next_index })
    pure next

  -- Which node `_appendPumaNode` takes. `nextIndex` is an `int`.
  pub take_node : (list : Ptr) (element_size : ℕ) → M Ptr
  unfolding load load_list create_node wake_tail wake_next int_index
  take_node list element_size = do
    l ← load_list list
    if l.tail == null then create_node list null 0 element_size else do
      t ← load l.tail
      if not t.active
          then wake_tail l.tail t
          else if not (t.next == null)
          then wake_next list t.next (int_index (t.index + 1))
          else create_node list l.tail (int_index (t.index + 1)) element_size

  -- `_appendPumaNode`.
  unfoldable pub append_puma_node : (list : Ptr) (element_size : ℕ) → M Ptr
  unfolding load load_list store_list take_node
  append_puma_node list element_size = do
    ret ← take_node list element_size
    n ← load ret
    l ← load_list list
    store_list list (record l { num_nodes = u64 (n.index + 1) })
    pure ret
