-- ===== src/Node/Elements.antt =====
-- `_allocElementOnNode` and `_freeElementOnNode` on a well-formed node.
use puma.Base.{ℕ, ◌+◌, ◌-◌, ◌^◌, ◌≤◌, ◌<◌, ◌≡◌, ap, ◌∙◌, arith, ◌==◌, if◌then◌else◌, true, some}
use puma.Word.{sub64}
use puma.Bitmask.{Bitmask, bitmask_get, mask_free, mask_not_free}
use puma.Bitmask.Access.{bit_at, bitmask_get-bit_at}
use puma.Memory.{Ptr, Node, ThreadList, Memory, update}
use puma.Util.{Config, get_element, get_index_of_element_on_node, get_node_for_element}
use puma.Util.Address.{get_element-node-index}
use puma.Node.{alloc_element_on_node, free_element_on_node, trim}
use puma.Node.Invariant.{used-le, IsNode, used-Differs, Written, written}

eqb_refl : (p : ℕ) → (p == p) ≡ true
eqb_refl p = ground arith

zero_small : 0 < 2
zero_small = omega arith

one_small : 1 < 2
one_small = omega arith

module _ (c : Config) (p : Ptr) (n : Node) (l : ThreadList) (i : ℕ) (h : Memory)
    (at_p : h.node p ≡ some n) (in_list : h.list n.thread_list ≡ some l) (ok : IsNode c p n)
    (lt : i < n.capacity) where
  abbrev w : (v : ℕ) → v < 2 → Written n.free_mask i v
  w v small = written n.free_mask i v small ok.mask (omega (arith, ok.covers))

  bit_at_of_get : (v : ℕ) → bitmask_get n.free_mask i ≡ some v → bit_at n.free_mask i ≡ v
  bit_at_of_get v e =
      ground (arith, bitmask_get-bit_at n.free_mask i (omega (arith, ok.mask.sized, ok.covers)))

  node_found :
      (get_node_for_element c (get_element n i) ≡ p)
      × (get_index_of_element_on_node (get_element n i) n ≡ i)
  node_found = let (_, _, a, b) = get_element-node-index c p n i ok.placed lt in (a, b)

  module _ (v : ℕ) (small : v < 2) where
    counted_after :
        (x : ℕ)
        → x + (if bit_at n.free_mask i == mask_not_free then 1 else 0)
          ≡ n.num_elements + (if v == mask_not_free then 1 else 0)
        → IsNode c p (record n { free_mask = (w v small).mask; num_elements = x })
    counted_after x e = record {
      placed = ok.placed;
      mask = (w v small).well_formed;
      covers = (w v small).same_size ∙ ok.covers;
      counted = omega (
        arith,
        e,
        ok.counted,
        used-Differs n.free_mask (w v small).mask n.free_mask.num_elements i v n.capacity
            (w v small).differs lt (omega (arith, ok.covers)),
      );
    }

  abbrev alloc_node : Node
  alloc_node = record n { free_mask = (w 0 zero_small).mask; num_elements = n.num_elements + 1 }

  abbrev alloc_memory : Memory
  alloc_memory = record h {
    node = update h.node p (some alloc_node);
    list = update h.list n.thread_list (some (record l { num_elements = l.num_elements + 1 }));
  }

  written_reads : (v : ℕ) (small : v < 2) → bitmask_get (w v small).mask i ≡ some v
  written_reads v small = ground (arith, (w v small).reads i (omega (arith, ok.covers)))

  module _ (live : n.active ≡ true) (free : bitmask_get n.free_mask i ≡ some mask_free) where
    alloc_runs : alloc_element_on_node c p (get_element n i) h ≡ some (tt, alloc_memory)
    unfolding alloc_element_on_node
    alloc_runs = rw (
      at_p,
      node_found.0,
      node_found.1,
      eqb_refl p,
      live,
      free,
      (w 0 zero_small).set_ok,
      written_reads 0 zero_small,
      in_list,
    )

    alloc-IsNode : IsNode c p alloc_node
    alloc-IsNode =
        counted_after 0 zero_small (n.num_elements + 1)
          (ground (arith, bit_at_of_get mask_free free))

  capacity-le : n.capacity ≤ 2 ^ 64
  capacity-le = grind (arith, ok.placed.within, ok.placed.top, ok.placed.some_bytes)

  abbrev free_node : Node
  free_node = record n {
    free_mask = (w 1 one_small).mask;
    num_elements = sub64 n.num_elements 1;
    dirty = true;
  }

  abbrev free_memory : Memory
  free_memory = record h {
    node = update (update h.node p (some (record n { dirty = true }))) p (some free_node);
    list = update h.list n.thread_list (some (record l { num_elements = sub64 l.num_elements 1 }));
  }

  module _ (taken : bitmask_get n.free_mask i ≡ some mask_not_free) where
    free_counts : sub64 n.num_elements 1 + 1 ≡ n.num_elements
    free_counts = ground (
      arith,
      bit_at_of_get mask_not_free taken,
      capacity-le,
      ok.counted,
      used-le n.free_mask n.capacity,
      used-Differs n.free_mask (w 1 one_small).mask n.free_mask.num_elements i 1 n.capacity
          (w 1 one_small).differs lt (omega (arith, ok.covers)),
    )

    free-IsNode : IsNode c p free_node
    free-IsNode =
        let good =
          counted_after 1 one_small (sub64 n.num_elements 1)
            (ground (arith, bit_at_of_get mask_not_free taken, free_counts)) in
        record {
          placed = good.placed;
          mask = good.mask;
          covers = good.covers;
          counted = good.counted;
        }

    index_dirty : get_index_of_element_on_node (get_element n i) (record n { dirty = true }) ≡ i
    unfolding get_index_of_element_on_node
    index_dirty = node_found.1

    free_runs : free_element_on_node c (get_element n i) p h ≡ trim c p free_memory
    unfolding free_element_on_node
    free_runs = rw (
      at_p,
      node_found.0,
      eqb_refl p,
      index_dirty,
      eqb_refl p,
      taken,
      (w 1 one_small).set_ok,
      written_reads 1 one_small,
      in_list,
    )

-- The contents of memory at a node and at its list, and nothing else changed.
abbrev pub with_node : Memory → Ptr → Node → ThreadList → Memory
with_node h p n l = record h {
  node = update h.node p (some n);
  list = update h.list n.thread_list (some l);
}

-- On a well-formed active node whose element `i` is free, `_allocElementOnNode` at that element's
-- address passes its assertions. It changes this node and its list alone, keeps the node well
-- formed, adds one to the element counts of both, and marks element `i`, and no other, as used.
pub alloc_element_on_node_lem :
    (c : Config) (p : Ptr) (n : Node) (l : ThreadList) (i : ℕ) (h : Memory)
    → h.node p ≡ some n
    → h.list n.thread_list ≡ some l
    → IsNode c p n
    → i < n.capacity
    → n.active ≡ true
    → bitmask_get n.free_mask i ≡ some mask_free
    → (mask : Bitmask) × (alloc_element_on_node c p (get_element n i) h
        ≡ some (
          tt,
          with_node h p
              (record n { free_mask = mask; num_elements = n.num_elements + 1 })
              (record l { num_elements = l.num_elements + 1 }),
        ))
      × IsNode c p (record n { free_mask = mask; num_elements = n.num_elements + 1 })
      × ((j : ℕ)
          → j < n.capacity
          → bitmask_get mask j ≡ (if j == i then some mask_not_free else bitmask_get n.free_mask j))
alloc_element_on_node_lem c p n l i h at_p in_list ok lt live free = (
  (w c p n l i h at_p in_list ok lt 0 zero_small).mask,
  alloc_runs c p n l i h at_p in_list ok lt live free,
  alloc-IsNode c p n l i h at_p in_list ok lt live free,
  λ j less. (w c p n l i h at_p in_list ok lt 0 zero_small).reads j (omega (arith, ok.covers)),
)

-- On a well-formed node whose element `i` is used, `_freeElementOnNode` at that element's address
-- passes its assertions and does what its last part, `trim`, does in a memory where this node is
-- dirty and well formed, element `i`, and no other, is marked free, and the element count of the
-- node is one less, as is that of its list where that was from 1 to 2 ^ 64.
pub free_element_on_node_lem :
    (c : Config) (p : Ptr) (n : Node) (l : ThreadList) (i : ℕ) (h : Memory)
    → h.node p ≡ some n
    → h.list n.thread_list ≡ some l
    → IsNode c p n
    → i < n.capacity
    → bitmask_get n.free_mask i ≡ some mask_not_free
    → 0 < l.num_elements
    → l.num_elements ≤ 2 ^ 64
    → (n' : Node) × (h' : Memory) × (free_element_on_node c (get_element n i) p h ≡ trim c p h')
      × (h'.list
          ≡ update h.list n.thread_list (some (record l { num_elements = l.num_elements - 1 })))
      × ((q : Ptr) → h'.node q ≡ (if p == q then some n' else h.node q))
      × IsNode c p n'
      × (n'
          ≡ record n { free_mask = n'.free_mask; num_elements = n.num_elements - 1; dirty = true })
      × ((j : ℕ)
          → j < n.capacity
          → bitmask_get n'.free_mask j
            ≡ (if j == i then some mask_free else bitmask_get n.free_mask j))
free_element_on_node_lem c p n l i h at_p in_list ok lt taken some_left few =
    let fewer : sub64 l.num_elements 1 ≡ l.num_elements - 1 = omega arith in
    let fewer_here : sub64 n.num_elements 1 ≡ n.num_elements - 1 =
      omega (arith, free_counts c p n l i h at_p in_list ok lt taken) in
    (
      free_node c p n l i h at_p in_list ok lt,
      free_memory c p n l i h at_p in_list ok lt,
      free_runs c p n l i h at_p in_list ok lt taken,
      ap (λ x. update h.list n.thread_list (some (record l { num_elements = x }))) fewer,
      λ q. ground arith,
      free-IsNode c p n l i h at_p in_list ok lt taken,
      ap
          (λ x. record n {
            free_mask = (free_node c p n l i h at_p in_list ok lt).free_mask;
            num_elements = x;
            dirty = true;
          })
          fewer_here,
      λ j less. (w c p n l i h at_p in_list ok lt 1 one_small).reads j (omega (arith, ok.covers)),
    )
