-- ===== src/Alloc/Filled.antt =====
-- Allocation on a list whose tail has room.
use puma.Base.{
  ℕ, if◌then◌else◌, ◌+◌, ◌<◌, ◌≡◌, ◌≢◌, refl, ap, ◌∙◌, arith, true, false, some, leb, ◌==◌,
}
use mathlib.Core.Path.{subst}
use puma.Bitmask.{bitmask_get, mask_free, mask_not_free}
use puma.Memory.{Ptr, null, Node, ThreadList, Memory, update, and_then, pure}
use puma.Util.{Config, get_element}
use puma.Node.Invariant.{IsNode}
use puma.Node.Filled.{IsFilled, IsCompact-free}
use puma.Node.{alloc_element_on_node}
use puma.Node.Elements.{with_node, alloc_element_on_node_lem}
use puma.Alloc.{pumalloc_on_thread_list}

module _ (c : Config) (list : Ptr) (l : ThreadList) (n : Node) (h : Memory) where
  abbrev moved : Node
  moved = record n { first_known_free = n.first_known_free + 1; active = true }

  abbrev moved_memory : Memory
  moved_memory = record h {
    node =
        update
          (update h.node l.tail (some (record n { first_known_free = n.first_known_free + 1 })))
          l.tail (some moved);
    list = update h.list list (some (record l { num_nodes = l.num_nodes + 0 }));
  }

  pumalloc_runs :
      h.list list ≡ some l
      → (l.tail == null) ≡ false
      → h.node l.tail ≡ some n
      → n.active ≡ true
      → n.num_elements < n.capacity
      → n.first_known_free < n.capacity
      → pumalloc_on_thread_list c list h
        ≡ and_then
            (alloc_element_on_node c l.tail (get_element n n.first_known_free) moved_memory)
            (λ _. pure (get_element n n.first_known_free))
  unfolding pumalloc_on_thread_list get_element
  pumalloc_runs in_list live at_p active room low =
      let same : (l.tail == l.tail) ≡ true = ground arith in
      let same_list : (list == list) ≡ true = ground arith in
      let not_full : (n.num_elements == n.capacity) ≡ false = ground arith in
      let within : leb n.capacity n.first_known_free ≡ false = ground arith in
      rw (in_list, live, at_p, not_full, at_p, within, same, in_list, active, same)

-- If the tail of a list is an active node whose elements in use come first, with the next place to be
-- tried behind them, and it is not full: `_pumallocOnThreadList` gives the element behind those in
-- use, with no fault. The node is again such a node, with one element more; the list counts one
-- element more; no other node and no other list changes, and no other place of the mask.
pub pumalloc_on_thread_list-IsFilled :
    (c : Config) (list : Ptr) (l : ThreadList) (n : Node) (h : Memory)
    → h.list list ≡ some l
    → (l.tail == null) ≡ false
    → h.node l.tail ≡ some n
    → n.thread_list ≡ list
    → n.active ≡ true
    → IsFilled c l.tail n
    → n.num_elements < n.capacity
    → (n' : Node) × (h' : Memory) × (pumalloc_on_thread_list c list h
        ≡ some (get_element n n.num_elements, h'))
      × (h'.node l.tail ≡ some n')
      × (h'.list list ≡ some (record l { num_elements = l.num_elements + 1 }))
      × IsFilled c l.tail n'
      × (n' ≡ record n {
        free_mask = n'.free_mask;
        first_known_free = n.first_known_free + 1;
        active = true;
        num_elements = n.num_elements + 1;
      })
      × ((q : Ptr) → q ≢ l.tail → h'.node q ≡ h.node q)
      × ((q : Ptr) → q ≢ list → h'.list q ≡ h.list q)
      × ((j : ℕ)
          → j < n.capacity
          → bitmask_get n'.free_mask j
            ≡ (if j == n.num_elements then some mask_not_free else bitmask_get n.free_mask j))
unfolding get_element
pumalloc_on_thread_list-IsFilled c list l n h in_list live at_p home active ok room =
    let i = n.first_known_free in
    let n1 = moved c list l n h in
    let l1 = record l { num_nodes = l.num_nodes + 0 } in
    let h1 = moved_memory c list l n h in
    let node1 : IsNode c l.tail n1 = record {
      placed = ok.node.placed;
      mask = ok.node.mask;
      covers = ok.node.covers;
      counted = ok.node.counted;
    } in
    let free : bitmask_get n.free_mask i ≡ some mask_free =
      rw ok.next (IsCompact-free n ok.node ok.compact room) in
    let (mask, runs, good, reads) =
      alloc_element_on_node_lem c l.tail n1 l1 i h1 (ground arith) (ground (arith, home)) node1
        (omega (arith, ok.next)) refl free in
    let n' = record n1 { free_mask = mask; num_elements = n.num_elements + 1 } in
    let h' = with_node h1 l.tail n' (record l1 { num_elements = l.num_elements + 1 }) in
    (
      n',
      h',
      subst (λ k. pumalloc_on_thread_list c list h ≡ some (get_element n k, h')) ok.next
          (pumalloc_runs c list l n h in_list live at_p active room (omega (arith, ok.next))
            ∙ ap (λ o. and_then o (λ _. pure (get_element n i))) runs),
      ground arith,
      ground (arith, home),
      record {
        node = good;
        compact = λ j less. ground (arith, reads j (omega (arith, ok.next)), ok.compact j, ok.next);
        next = omega (arith, ok.next);
      },
      refl,
      λ q ne. ground arith,
      λ q ne. ground (arith, home),
      λ j less.
          subst
            (λ k.
              bitmask_get mask j
              ≡ (if j == k then some mask_not_free else bitmask_get n.free_mask j))
            ok.next (reads j less),
    )
