-- ===== src/Balance/Transfer/Whole.antt =====
-- `_transferNNodes` keeps two thread lists well formed, and moves the last nodes of one behind the other.
use mathlib.Core.Path.{subst}
use puma.Base.{
  ℕ, suc, ◌+◌, ◌-◌, ◌<◌, ◌^◌, ◌≡◌, ◌≢◌, refl, sym, ap, ◌∙◌, arith, true, false, some, Option, [],
  ◌∷◌, ◌==◌, inl, inr, ◌++◌, length,
}
use puma.Memory.{Ptr, null, Node, ThreadList, Memory, update, load, store_list}
use puma.Node.Chain.{Cells, first_of, Linked, has, Apart, total_elements}
use puma.Balance.{
  each_node, move_count, back_up, is_active_tail, update_num_elements, transfer_n_nodes,
}
use puma.Balance.Segment.{
  last_of, if_last, at_last, mapped, update-other, StopsAt, IsCounted, back_up-first,
}
use puma.Balance.Shape.{
  Apart-Alike, at_last-Alike, last_of-Alike, length-Alike, at_last-IsCounted, IsCounted-++,
  last-IsCounted, Linked-++, total_elements-++, length-++,
}
use puma.Balance.Moved.{set_indexes, StartsAt, update_num_elements-total}
use puma.Balance.Splice.{update-same, with_prev, with_next, with_next_dirty, Linked-live}
use puma.Balance.Transfer.{
  tail_of, IsList, assert_counted-IsList, ltb-true, leb-true, transfer-runs,
}
use puma.Balance.Transfer.After.{
  relinked, first_of-++, tail_of-++, kept-IsList, relinked-Alike, total_elements-relinked,
  grown-IsList,
}
use puma.Balance.Transfer.Outside.{outside_from, outside, Disjoint-Apart}
use puma.Balance.Transfer.Stages.{same_end, Chains, spliced}
use puma.Balance.Transfer.Closed.{closed, labelled}

-- The nodes behind a list that has just been linked with them get their indexes from its last node.
last-StartsAt :
    (m : Ptr → Option Node) (after : Ptr) (g : Node → Node) (cells : Cells)
    → ((n : Node) → (g n).active ≡ n.active)
    → ((n : Node) → (g n).index ≡ n.index)
    → Linked m null (at_last g cells) after
    → IsCounted 0 cells
    → StartsAt m (last_of cells null) (length cells)
last-StartsAt m after g [] on at linked counted = inl (refl, refl)
last-StartsAt m after g ((c, nc) ∷ cs) on at linked counted =
    let cells = (c, nc) ∷ cs in
    let same = last_of-Alike null (at_last g cells) cells (at_last-Alike g cells) in
    let size = length-Alike (at_last g cells) cells (at_last-Alike g cells) in
    let (x, at_x, index_x, _, _) =
      last-IsCounted m null after c (if_last g nc cs) (at_last g cs) 0 linked
        (at_last-IsCounted g 0 cells on at counted) in
    let live : (last_of cells null == null) ≡ false =
      ap (λ p. p == null) (sym same)
      ∙ Linked-live m null after c (if_last g nc cs) (at_last g cs) linked in
    inr (live, (x, ap m (sym same) ∙ at_x, omega (arith, index_x, size)))

module _ (from to f_after t_after b : Ptr) (nb : Node) (bs kept grown : Cells)
    (f t : ThreadList) where
  abbrev moved : Cells
  moved = (b, nb) ∷ bs

  abbrev moved_cells : Cells
  moved_cells = relinked from to f_after t_after b nb kept bs grown

  -- The lists with the ends they get.
  abbrev f_cut : ThreadList
  f_cut = record f { head = first_of kept f_after; tail = tail_of kept f_after }

  abbrev t_cut : ThreadList
  t_cut = record t { head = first_of grown b; tail = last_of bs b }

  -- After the counts of elements.
  abbrev f_counts : ThreadList
  f_counts = record f_cut { num_elements = f_cut.num_elements - total_elements moved_cells }

  abbrev t_counts : ThreadList
  t_counts = record t_cut { num_elements = t_cut.num_elements + total_elements moved_cells }

  -- After the counts of nodes.
  abbrev f_end : ThreadList
  f_end = record f_counts { num_nodes = f_counts.num_nodes - length moved }

  abbrev t_end : ThreadList
  t_end = record t_counts { num_nodes = t_counts.num_nodes + length moved }

  finished :
      (j : ℕ) (h : Memory)
      → from ≢ to
      → h.list from ≡ some f_cut
      → h.list to ≡ some t_cut
      → Chains f_after t_after h.node
          (last_of grown null)
          moved_cells
          (with_next f_after kept)
          (with_next_dirty b grown)
          f_after
          b
          t_after
      → Apart moved
      → f.num_nodes ≡ length (kept ++ moved)
      → t.num_nodes ≡ length grown
      → f.num_elements ≡ total_elements (kept ++ moved)
      → t.num_elements ≡ total_elements grown
      → IsCounted 0 kept
      → IsCounted j moved
      → IsCounted 0 grown
      → f.num_elements < 2 ^ 64
      → (h7 : Memory) × (h8 : Memory) × (h9 : Memory) × (update_num_elements
            (length moved)
            b
            (last_of bs b)
            from
            to
            h
          ≡ some (tt, h7))
        × (h7.list from ≡ some f_counts)
        × (store_list from f_end h7 ≡ some (tt, h8))
        × (h8.list to ≡ some t_counts)
        × (store_list to t_end h8 ≡ some (tt, h9))
        × IsList h9 from f_end (with_next f_after kept) f_after
        × IsList h9 to t_end (with_next_dirty b grown ++ moved_cells) t_after
        × ((q : Ptr) → q ≢ from → q ≢ to → h9.list q ≡ h.list q)
        × (h9.node ≡ h.node)
  unfolding update_num_elements store_list
  finished j h ne at_from at_to at apart nodes_f nodes_t elements_f elements_t count_kept
        count_moved count_grown small =
      let whole = total_elements-++ kept moved in
      let all_nodes = length-++ kept moved in
      let total = total_elements-relinked from to f_after t_after b nb kept bs grown in
      let n = record (if_last (λ n. record n { next = t_after }) nb bs) {
        prev = last_of grown null;
      } in
      let rest = set_indexes (length grown + 1) (with_next t_after bs) in
      let rest' = mapped (λ k n. record n { thread_list = to }) (0 + 1) rest in
      let n' = record n { index = length grown; thread_list = to } in
      let (h7, ran, (nodes, from7, to7, lists)) =
        update_num_elements-total from to ne (last_of grown null) t_after b n' rest' 0 f_cut t_cut h
          at.at_moved
          (Apart-Alike moved_cells moved (relinked-Alike from to f_after t_after b nb kept bs grown)
            apart)
          at_from at_to (omega (arith, whole, total, elements_f)) small in
      let h8 = record h7 { list = update h7.list from (some f_end) } in
      let h9 = record h8 { list = update h8.list to (some t_end) } in
      (
        h7,
        h8,
        h9,
        same_end (λ i e. each_node (move_count from to) i b e 0 h) (some (tt, h7))
            (suc (length rest')) (suc (length bs)) (last_of rest' b) (last_of bs b)
            (length-Alike moved_cells moved
              (relinked-Alike from to f_after t_after b nb kept bs grown))
            (last_of-Alike null moved_cells moved
              (relinked-Alike from to f_after t_after b nb kept bs grown))
            ran,
        from7,
        refl,
        update-other h7.list from to (some f_end) ne ∙ to7,
        refl,
        kept-IsList from to f_after t_after b nb kept bs grown h9 f_end
            (update-other h8.list to from (some t_end) (λ e. ne (sym e))
              ∙ update-same h7.list from (some f_end))
            (subst (λ (m : Ptr → Option Node). Linked m null (with_next f_after kept) f_after)
              (sym nodes) at.at_kept)
            (subst (λ (m : Ptr → Option Node). StopsAt m f_after) (sym nodes) at.f_stops) refl refl
            (omega (arith, nodes_f, all_nodes)) (omega (arith, whole, total, elements_f))
            count_kept,
        grown-IsList from to f_after t_after b nb kept bs grown h9 t_end j
            (update-same h8.list to (some t_end))
            (subst (λ (m : Ptr → Option Node). Linked m null (with_next_dirty b grown) b)
              (sym nodes) at.at_grown)
            (subst (λ (m : Ptr → Option Node). Linked m (last_of grown null) moved_cells t_after)
              (sym nodes) at.at_moved)
            (subst (λ (m : Ptr → Option Node). StopsAt m t_after) (sym nodes) at.t_stops) refl refl
            (omega (arith, nodes_t)) (omega (arith, total, elements_t)) count_grown count_moved,
        λ q other other'.
            update-other h8.list to q (some t_end) (λ e. other' (sym e))
            ∙ update-other h7.list from q (some f_end) (λ e. other (sym e))
            ∙ lists q other other',
        nodes,
      )

  -- `_transferNNodes` of the last nodes of a list, or of all of them, to another list, with active
  -- nodes or without. When both lists are well formed (each is the doubly linked chain of its active
  -- nodes, with their indexes, its head and tail and the counts of nodes and elements, and is
  -- followed by NULL or an inactive node, which is its head and its tail when it has no active one),
  -- no node is in both or twice in one, what follows them is in neither, and the first counts fewer
  -- than 2 ^ 64 elements: the transfer ends without a failed assertion and leaves both lists well
  -- formed. The first keeps its other nodes in order; behind the nodes of the second, of which the
  -- last is now dirty, are the moved ones in order. No other list changes, and no node but these and
  -- the two that follow the lists.
  pub transfer_n_nodes-IsList :
      (h : Memory)
      → from ≢ to
      → IsList h from f (kept ++ moved) f_after
      → IsList h to t grown t_after
      → Apart ((kept ++ moved) ++ grown)
      → has f_after ((kept ++ moved) ++ grown) ≡ false
      → has t_after ((kept ++ moved) ++ grown) ≡ false
      → f.num_elements < 2 ^ 64
      → (h' : Memory) × (f' : ThreadList) × (t' : ThreadList) × (transfer_n_nodes
            (length moved)
            from
            to
            h
          ≡ some (tt, h'))
        × IsList h' from f' (with_next f_after kept) f_after
        × IsList h' to t' (with_next_dirty b grown ++ moved_cells) t_after
        × ((q : Ptr) → q ≢ from → q ≢ to → h'.list q ≡ h.list q)
        × ((q : Ptr)
            → has q ((kept ++ moved) ++ grown) ≡ false
            → f_after ≢ q
            → t_after ≢ q
            → h'.node q ≡ h.node q)
  unfolding update_num_elements is_active_tail load store_list
  transfer_n_nodes-IsList h ne i_from i_to apart no_f no_t small =
      let disjoint = Disjoint-Apart f_after t_after kept moved grown apart no_f no_t in
      let (link_kept, link_moved) = Linked-++ h.node null f_after kept moved i_from.linked in
      let (count_kept, count_moved) = IsCounted-++ 0 kept moved i_from.counted in
      let (at_b, live_b, back_b, forward_b, others_b) = link_moved in
      let n = length moved in
      let end_ = last_of bs b in
      let before = last_of grown null in
      let front = with_next_dirty b grown in
      let (e, at_e, _, _, behind_e) =
        last-IsCounted h.node (last_of kept null) f_after b nb bs (0 + length kept) link_moved
          count_moved in
      let end_from : f.tail ≡ end_ = i_from.tail ∙ tail_of-++ kept b nb bs f_after in
      let head_from : f.head ≡ first_of kept b = i_from.head ∙ first_of-++ kept b nb bs f_after in
      let f1 = record f { tail = nb.prev } in
      let h1 = record h { list = update h.list from (some f1) } in
      let at_to1 : h1.list to ≡ some t = update-other h.list from to (some f1) ne ∙ i_to.in_list in
      let all_nodes = length-++ kept moved in
      let back_rounds : length bs ≡ length moved - 1 = omega arith in
      let (active, h2, is_active, ran2, to2, lists2, at2, same2) =
        spliced f_after t_after to (last_of kept null) b nb bs kept t h1 at_to1 grown disjoint
          i_to.head i_to.tail i_to.counted
          (record {
            at_moved = link_moved;
            at_kept = link_kept;
            at_grown = i_to.linked;
            f_stops = i_from.stops;
            t_stops = i_to.stops;
          }) in
      let h3 = record h2 { list = update h2.list to (some t_cut) } in
      let at_from3 : h3.list from ≡ some f1 =
        update-other h2.list to from (some t_cut) (λ x. ne (sym x))
        ∙ lists2 from ne
        ∙ update-same h.list from (some f1) in
      let like_front = at_last-Alike (λ m. record m { next = b; dirty = true }) grown in
      let (h4, ran4, from4, lists4, at4, same4) =
        closed f_after t_after b nb bs kept grown disjoint from f1 before t_after
          (with_prev before (with_next t_after moved)) front h3
          (at_last-Alike (λ m. record m { next = t_after }) moved) like_front at_from3 head_from
          back_b at2 in
      let (h5, h6, ran5, ran6, lists6, at6, same6) =
        labelled f_after t_after b nb bs kept grown disjoint to before t_after f_after b
          (record (if_last (λ m. record m { next = t_after }) nb bs) { prev = before })
          (with_next t_after bs) (with_next f_after kept) front (length grown) h4
          (at_last-Alike (λ m. record m { next = t_after }) moved)
          (at_last-Alike (λ m. record m { next = f_after }) kept) like_front
          (last-StartsAt h4.node b (λ m. record m { next = b; dirty = true }) grown (λ m. refl)
            (λ m. refl) at4.at_grown i_to.counted)
          at4 in
      let (h7, h8, h9, ran7, from7, ran8, to8, ran9, i_from', i_to', lists9, nodes9) =
        finished (0 + length kept) h6 ne
          (ap (λ (m : Ptr → Option ThreadList). m from) lists6 ∙ from4)
          (ap (λ (m : Ptr → Option ThreadList). m to) lists6
            ∙ lists4 to (λ x. ne (sym x))
            ∙ update-same h2.list to (some t_cut))
          at6 disjoint.moved_apart i_from.nodes i_to.nodes i_from.elements i_to.elements count_kept
          count_moved i_to.counted small in
      (
        h9,
        f_end,
        t_end,
        transfer-runs n from to f t (record t { head = first_of grown b }) f_counts t_counts e nb
            end_ f_after b t.tail active h h1 h2 h3 h4 h5 h6 h7 h8 h9 (ltb-true 0 n (omega arith))
            i_from.in_list (leb-true n f.num_nodes (omega (arith, i_from.nodes, all_nodes)))
            (assert_counted-IsList h to t grown t_after i_to)
            (assert_counted-IsList h from f (kept ++ moved) f_after i_from) end_from at_e behind_e
            (subst (λ k. back_up k end_ h ≡ some (b, h)) back_rounds
              (back_up-first (last_of kept null) b f_after nb bs h link_moved))
            at_b refl at_to1 refl is_active ran2 to2 refl ran4 ran5 ran6 ran7 from7 ran8 to8 ran9
            (assert_counted-IsList h9 to t_end (front ++ moved_cells) t_after i_to')
            (assert_counted-IsList h9 from f_end (with_next f_after kept) f_after i_from'),
        i_from',
        i_to',
        λ q other other'.
            lists9 q other other'
            ∙ ap (λ (m : Ptr → Option ThreadList). m q) lists6
            ∙ lists4 q other
            ∙ update-other h2.list to q (some t_cut) (λ x. other' (sym x))
            ∙ lists2 q other'
            ∙ update-other h.list from q (some f1) (λ x. other (sym x)),
        λ q new not_f not_t.
            let (new_from, new_grown) = outside f_after t_after kept moved grown q new in
            let (new_kept, new_moved) = outside_from f_after t_after kept moved grown q new_from in
            ap (λ (m : Ptr → Option Node). m q) nodes9
            ∙ same6 q new_moved new_kept new_grown not_f not_t
            ∙ same4 q new_moved new_kept new_grown not_f not_t
            ∙ same2 q new_moved new_kept new_grown not_f not_t,
      )
