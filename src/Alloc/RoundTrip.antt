-- ===== src/Alloc/RoundTrip.antt =====
-- An element that is given out and taken back.
use puma.Base.{ℕ, ◌+◌, ◌-◌, ◌<◌, ◌^◌, ◌≡◌, ap, ◌∙◌, sym, arith, true, false, Option, some, ◌==◌}
use puma.Bitmask.{bitmask_get, mask_not_free}
use puma.Memory.{Ptr, null, Node, ThreadList, Memory, ◌>>=◌, and_then}
use puma.Util.{Config, get_element}
use puma.Util.Address.{get_element-node-index}
use puma.Node.{trim, free_element_on_node}
use puma.Node.Invariant.{IsNode}
use puma.Node.Filled.{IsFilled, IsCompact-free}
use puma.Node.Elements.{free_element_on_node_lem}
use puma.Alloc.{pumalloc_on_thread_list, pufree}
use puma.Alloc.Filled.{pumalloc_on_thread_list-IsFilled}

-- If the tail of a list is an active node whose elements in use come first, with the next place
-- to be tried behind them, it is not full, and the list counts fewer than 2 ^ 64 elements:
-- `pufree` of the element that `_pumallocOnThreadList` gives does what its last part, `trim`,
-- does in a memory where the list is as at first and the tail is well formed, has as many
-- elements as at first, and a mask whose every place reads as at first.
pub pufree-pumalloc_on_thread_list :
    (c : Config) (list : Ptr) (l : ThreadList) (n : Node) (h : Memory)
    → h.list list ≡ some l
    → (l.tail == null) ≡ false
    → h.node l.tail ≡ some n
    → n.thread_list ≡ list
    → n.active ≡ true
    → IsFilled c l.tail n
    → n.num_elements < n.capacity
    → l.num_elements < 2 ^ 64
    → (n' : Node) × (h' : Memory) × ((pumalloc_on_thread_list c list >>= pufree c) h
        ≡ trim c l.tail h')
      × (h'.node l.tail ≡ some n')
      × (h'.list list ≡ some l)
      × IsNode c l.tail n'
      × (n'.num_elements ≡ n.num_elements)
      × ((j : ℕ) → j < n.capacity → bitmask_get n'.free_mask j ≡ bitmask_get n.free_mask j)
unfolding pufree get_element
pufree-pumalloc_on_thread_list c list l n h in_list live at_p home active ok room small =
    let i = n.num_elements in
    let (n1, h1, given, at_1, list_1, ok_1, same_1, _, _, reads_1) =
      pumalloc_on_thread_list-IsFilled c list l n h in_list live at_p home active ok room in
    let l1 = record l { num_elements = l.num_elements + 1 } in
    let home_1 : n1.thread_list ≡ list = ap (λ (x : Node). x.thread_list) same_1 ∙ home in
    let capacity_1 : n1.capacity ≡ n.capacity = ap (λ (x : Node). x.capacity) same_1 in
    let count_1 : n1.num_elements ≡ i + 1 = ap (λ (x : Node). x.num_elements) same_1 in
    let place : get_element n1 i ≡ get_element n i = ap (λ x. get_element x i) same_1 in
    let (_, _, found, _) = get_element-node-index c l.tail n i ok.node.placed room in
    let taken : bitmask_get n1.free_mask i ≡ some mask_not_free = ground (arith, reads_1 i room) in
    let (n2, h2, freed, list_2, node_2, ok_2, same_2, reads_2) =
      free_element_on_node_lem c l.tail n1 l1 i h1 at_1 (rw home_1 list_1) ok_1.node (omega arith)
        taken (omega arith) (omega arith) in
    let same_list : (list == list) ≡ true = ground arith in
    let back : l.num_elements + 1 - 1 ≡ l.num_elements = omega arith in
    (
      n2,
      h2,
      ap (λ o. and_then o (pufree c)) given
          ∙ ap (λ x. free_element_on_node c (get_element n i) x h1) found
          ∙ ap (λ e. free_element_on_node c e l.tail h1) (sym place)
          ∙ freed,
      ground (arith, node_2 l.tail),
      ap (λ (f : Ptr → Option ThreadList). f list) list_2
          ∙ rw (home_1, same_list) (ap (λ x. some (record l { num_elements = x })) back),
      ok_2,
      omega (arith, ap (λ (x : Node). x.num_elements) same_2),
      λ j less. ground (arith, reads_2 j, reads_1 j, IsCompact-free n ok.node ok.compact room),
    )
