-- ===== src/Node/Append.antt =====
-- `_appendPumaNode` where it makes a node.
use puma.Base.{
  ℕ, ◌+◌, ◌%◌, ◌^◌, ◌<◌, ◌≡◌, ◌≢◌, refl, arith, true, false, some, ltb, ◌==◌, if◌then◌else◌, List,
  ◌∷◌,
}
use puma.Memory.{Ptr, null, Node, ThreadList, Memory, update}
use puma.Util.{Config}
use puma.Node.Filled.{IsFilled}
use puma.Node.{int_index, create_node, append_puma_node}
use puma.Node.Create.{
  IsBlock, array_size, Fits, new_node, block_found, array_bytes, new_node-IsFilled,
}

-- On an empty list, and a new block at `p` for which the element size fits: `_appendPumaNode` makes a
-- node at `p`, with no element and room for one, that is active, has no neighbours and belongs to the
-- list, whose tail it is, as its head if there was none. Nothing else changes.
pub append_puma_node-empty :
    (c : Config) (list p : Ptr) (e : ℕ) (l : ThreadList) (rest : List Ptr) (h : Memory)
    → h.list list ≡ some l
    → (l.tail == null) ≡ true
    → h.fresh ≡ p ∷ rest
    → IsBlock c p
    → Fits c e
    → (n : Node) × (h' : Memory) × (append_puma_node c list e h ≡ some (p, h'))
      × IsFilled c p n
      × (n.num_elements ≡ 0)
      × (0 < n.capacity)
      × (n.active ≡ true)
      × (n.next ≡ null)
      × (n.prev ≡ null)
      × (n.thread_list ≡ list)
      × ((q : Ptr) → h'.node q ≡ (if p == q then some n else h.node q))
      × ((q : Ptr)
          → h'.list q ≡ (
              if list == q
              then some (record l {
                tail = p;
                head = if l.head == null then p else l.head;
                num_nodes = 1;
              })
              else h.list q))
unfolding append_puma_node create_node
append_puma_node-empty c list p e l rest h in_list empty at_p block fit =
    let (layout, made, filled, room) = new_node-IsFilled c p block list null 0 e fit in
    let n = new_node c list null 0 e layout in
    let same : (p == p) ≡ true = ground arith in
    let same_list : (list == list) ≡ true = ground arith in
    let enough : ltb (array_size c) e ≡ false = ground (arith, fit.fits) in
    let l' = record l { tail = p; head = if l.head == null then p else l.head } in
    let h' = record h {
      node = update h.node p (some n);
      list = update (update h.list list (some l')) list (some (record l' { num_nodes = 0 + 1 }));
      fresh = rest;
    } in
    (
      n,
      h',
      rw (
        in_list,
        empty,
        at_p,
        block_found c p block,
        same,
        array_bytes c p block,
        enough,
        made,
        in_list,
        same,
        same_list,
      ),
      filled,
      refl,
      room,
      refl,
      refl,
      refl,
      refl,
      λ q. refl,
      λ q. ground arith,
    )

-- On a list whose tail is active, has no node behind it and an index below `2 ^ 31 - 1`, and a new block at `p` for which the
-- element size fits: `_appendPumaNode` makes a node at `p`, with no element and room for one,
-- that is active, belongs to the list, has the next index and is linked with the tail in both
-- directions, and it becomes the tail. The list's number of nodes is made that index and one
-- more. Nothing else changes.
pub append_puma_node-behind :
    (c : Config) (list p : Ptr) (e : ℕ) (l : ThreadList) (t : Node) (rest : List Ptr) (h : Memory)
    → h.list list ≡ some l
    → (l.tail == null) ≡ false
    → (l.head == null) ≡ false
    → h.node l.tail ≡ some t
    → t.active ≡ true
    → t.index + 1 < 2 ^ 31
    → (t.next == null) ≡ true
    → h.fresh ≡ p ∷ rest
    → p ≢ l.tail
    → IsBlock c p
    → Fits c e
    → (n : Node) × (h' : Memory) × (append_puma_node c list e h ≡ some (p, h'))
      × IsFilled c p n
      × (n.num_elements ≡ 0)
      × (0 < n.capacity)
      × (n.active ≡ true)
      × (n.next ≡ null)
      × (n.prev ≡ l.tail)
      × (n.index ≡ t.index + 1)
      × (n.thread_list ≡ list)
      × ((q : Ptr)
          → h'.node q ≡ (
              if p == q
              then some n
              else (if l.tail == q then some (record t { next = p }) else h.node q)))
      × ((q : Ptr)
          → h'.list q ≡ (
              if list == q
              then some (record l { tail = p; num_nodes = t.index + 1 + 1 })
              else h.list q))
unfolding append_puma_node create_node int_index
append_puma_node-behind c list p e l t rest h in_list live headed at_tail active low last at_p other
      block fit =
    let (layout, made, filled, room) =
      new_node-IsFilled c p block list l.tail (t.index + 1) e fit in
    let n = new_node c list l.tail (t.index + 1) e layout in
    let index : int_index (t.index + 1) ≡ t.index + 1 = ground arith in
    let count : (t.index + 1 + 1) % 2 ^ 64 ≡ t.index + 1 + 1 = omega arith in
    let same : (p == p) ≡ true = ground arith in
    let apart : (p == l.tail) ≡ false = ground arith in
    let apart_too : (l.tail == p) ≡ false = ground arith in
    let same_list : (list == list) ≡ true = ground arith in
    let enough : ltb (array_size c) e ≡ false = ground (arith, fit.fits) in
    let l' = record l { tail = p } in
    let h' = record h {
      node = update (update h.node p (some n)) l.tail (some (record t { next = p }));
      list =
          update (update h.list list (some l')) list
            (some (record l' { num_nodes = t.index + 1 + 1 }));
      fresh = rest;
    } in
    (
      n,
      h',
      rw (
        in_list,
        live,
        at_tail,
        active,
        last,
        index,
        at_p,
        block_found c p block,
        same,
        array_bytes c p block,
        enough,
        made,
        apart,
        at_tail,
        in_list,
        headed,
        apart_too,
        same,
        same_list,
        active,
        count,
      ),
      filled,
      refl,
      room,
      refl,
      refl,
      refl,
      refl,
      refl,
      λ q. ground (arith, other),
      λ q. ground arith,
    )
