-- ===== src/Balance/Moved.antt =====
-- What a transfer does to the nodes it moves: their counts of elements go from one list to the other,
-- and they get their new indexes and their new list.
use puma.Base.{
  ℕ, suc, ◌+◌, ◌-◌, ◌≤◌, ◌<◌, ◌^◌, ◌≡◌, ◌≢◌, refl, sym, ap, ◌∙◌, arith, true, false, some, Option,
  [], ◌∷◌, ◌==◌, length, ◌⊎◌, inl, inr,
}
use mathlib.Core.Path.{subst}
use puma.Word.{sub64}
use puma.Memory.{Ptr, null, Node, ThreadList, Memory, update, load, store, load_list, store_list}
use puma.Node.Chain.{Cells, Linked, has, Apart, total_elements}
use puma.Balance.{
  each_node, set_index, index_nodes, set_thread_list, move_node_thread_lists, move_count,
}
use puma.Balance.Segment.{
  last_of, first-not-last, update-other, mapped, each_node-mapped, one_round,
}

module _ (from to : Ptr) (ne : from ≢ to) where
  move_count-lists :
      (i : ℕ) (p : Ptr) (n : Node) (f t : ThreadList) (h : Memory)
      → h.node p ≡ some n
      → h.list from ≡ some f
      → h.list to ≡ some t
      → n.num_elements ≤ f.num_elements
      → f.num_elements < 2 ^ 64
      → (h' : Memory) × (move_count from to i p h ≡ some (tt, h'))
        × (h'.node ≡ h.node)
        × (h'.list from ≡ some (record f { num_elements = f.num_elements - n.num_elements }))
        × (h'.list to ≡ some (record t { num_elements = t.num_elements + n.num_elements }))
        × ((q : Ptr) → q ≢ from → q ≢ to → h'.list q ≡ h.list q)
  unfolding move_count load load_list store_list
  move_count-lists i p n f t h at_p at_from at_to enough small =
      let fewer : sub64 f.num_elements n.num_elements ≡ f.num_elements - n.num_elements =
        omega arith in
      let f' = record f { num_elements = sub64 f.num_elements n.num_elements } in
      let t' = record t { num_elements = t.num_elements + n.num_elements } in
      let lists1 = update h.list from (some f') in
      let at_from' : lists1 from ≡ some f' = ground arith in
      let at_to' : lists1 to ≡ some t = update-other h.list from to (some f') ne ∙ at_to in
      (
        record h { list = update lists1 to (some t') },
        rw (at_p, at_from, at_to') refl,
        refl,
        update-other lists1 to from (some t') (λ e. ne (sym e))
            ∙ at_from'
            ∙ ap (λ k. some (record f { num_elements = k })) fewer,
        here lists1 t',
        λ q other other'.
            update-other lists1 to q (some t') (λ e. other' (sym e))
            ∙ update-other h.list from q (some f') (λ e. other (sym e)),
      )
    where
      here :
          (lists : Ptr → Option ThreadList) (t' : ThreadList)
          → update lists to (some t') to ≡ some t'
      here lists t' = ground arith

  -- The counts after the transfer of `total` elements.
  abbrev pub Transferred : (ThreadList) → ThreadList → (total : ℕ) → Memory → Memory → Type 0
  Transferred f t total h h' =
      (h'.node ≡ h.node)
      × (h'.list from ≡ some (record f { num_elements = f.num_elements - total }))
      × (h'.list to ≡ some (record t { num_elements = t.num_elements + total }))
      × ((q : Ptr) → q ≢ from → q ≢ to → h'.list q ≡ h.list q)

  pub update_num_elements-total :
      (before after p : Ptr) (n : Node) (rest : Cells) (i : ℕ) (f t : ThreadList) (h : Memory)
      → Linked h.node before ((p, n) ∷ rest) after
      → Apart ((p, n) ∷ rest)
      → h.list from ≡ some f
      → h.list to ≡ some t
      → total_elements ((p, n) ∷ rest) ≤ f.num_elements
      → f.num_elements < 2 ^ 64
      → (h' : Memory) × (each_node (move_count from to) (suc (length rest)) p (last_of rest p) i h
          ≡ some (tt, h'))
        × Transferred f t (total_elements ((p, n) ∷ rest)) h h'
  unfolding each_node load
  update_num_elements-total before after p n [] i f t h (at_p, live, back, forward, others) apart
        at_from at_to enough small =
      let (h1, ran, nodes, from1, to1, same) =
        move_count-lists i p n f t h at_p at_from at_to (omega arith) small in
      let here : (p == p) ≡ true = ground arith in
      let at_p' : h1.node p ≡ some n = ap (λ (m : Ptr → Option Node). m p) nodes ∙ at_p in
      let total : n.num_elements ≡ n.num_elements + 0 = omega arith in
      (
        h1,
        rw (ran, at_p', here) refl,
        (
          nodes,
          from1 ∙ ap (λ k. some (record f { num_elements = f.num_elements - k })) total,
          to1 ∙ ap (λ k. some (record t { num_elements = t.num_elements + k })) total,
          same,
        ),
      )
  update_num_elements-total before after p n ((p', n') ∷ rest) i f t h
        (at_p, live, back, forward, others) (new, apart) at_from at_to enough small =
      let (h1, ran, nodes, from1, to1, same) =
        move_count-lists i p n f t h at_p at_from at_to (omega arith) small in
      let at_p' : h1.node p ≡ some n = ap (λ (m : Ptr → Option Node). m p) nodes ∙ at_p in
      let (h', ran', (nodes', from', to', same')) =
        update_num_elements-total p after p' n' rest (i + 1)
          (record f { num_elements = f.num_elements - n.num_elements })
          (record t { num_elements = t.num_elements + n.num_elements }) h1
          (subst (λ (m : Ptr → Option Node). Linked m p ((p', n') ∷ rest) after) (sym nodes) others)
          apart from1 to1 (omega arith) (omega arith) in
      let more = first-not-last p p' n' rest new in
      let total = n'.num_elements + total_elements rest in
      let left : f.num_elements - n.num_elements - total
          ≡ f.num_elements - (n.num_elements + total) =
        omega arith in
      let grown : t.num_elements + n.num_elements + total
          ≡ t.num_elements + (n.num_elements + total) =
        omega arith in
      (
        h',
        one_round (move_count from to) i (suc (length rest)) p p' (last_of rest p') n h h1 h' ran
            at_p' more forward ran',
        (
          nodes' ∙ nodes,
          from' ∙ ap (λ k. some (record f { num_elements = k })) left,
          to' ∙ ap (λ k. some (record t { num_elements = k })) grown,
          λ q other other'. same' q other other' ∙ same q other other',
        ),
      )

abbrev pub set_indexes : ℕ → Cells → Cells
set_indexes i cells = mapped (λ k n. record n { index = k }) i cells

abbrev pub set_lists : (to : Ptr) → Cells → Cells
set_lists to cells = mapped (λ k n. record n { thread_list = to }) 0 cells

set_index-runs :
    (k : ℕ) (q : Ptr) (m : Node) (g : Memory)
    → g.node q ≡ some m
    → set_index k q g
      ≡ some (tt, record g { node = update g.node q (some (record m { index = k })) })
unfolding set_index load store
set_index-runs k q m g at_q = rw at_q refl

set_thread_list-runs :
    (to : Ptr) (k : ℕ) (q : Ptr) (m : Node) (g : Memory)
    → g.node q ≡ some m
    → set_thread_list to k q g
      ≡ some (tt, record g { node = update g.node q (some (record m { thread_list = to })) })
unfolding set_thread_list load store
set_thread_list-runs to k q m g at_q = rw at_q refl

-- The index of the first of the nodes: one more than that of the node in front of it, if there is one.
abbrev pub StartsAt : (Ptr → Option Node) → (before : Ptr) → ℕ → Type 0
StartsAt m before i =
    (((before == null) ≡ true) × (i ≡ 0))
    ⊎ (((before == null) ≡ false) × ((x : Node) × (m before ≡ some x) × (x.index + 1 ≡ i)))

index_nodes-each_node :
    (fuel start end_ i : ℕ) (n : Node) (h : Memory)
    → h.node start ≡ some n
    → StartsAt h.node n.prev i
    → index_nodes fuel start end_ h ≡ each_node set_index fuel start end_ i h
unfolding index_nodes load
index_nodes-each_node fuel start end_ i n h at_start (inl (first, here)) =
    rw (at_start, first, here) refl
index_nodes-each_node fuel start end_ i n h at_start (inr (behind, (x, at_x, next_index))) =
    rw (at_start, behind, at_x, next_index) refl

pub index_nodes-set_indexes :
    (before after p : Ptr) (n : Node) (rest : Cells) (i : ℕ) (h : Memory)
    → Linked h.node before ((p, n) ∷ rest) after
    → Apart ((p, n) ∷ rest)
    → StartsAt h.node before i
    → (h' : Memory) × (index_nodes (suc (length rest)) p (last_of rest p) h ≡ some (tt, h'))
      × Linked h'.node before (set_indexes i ((p, n) ∷ rest)) after
      × (h'.list ≡ h.list)
      × ((q : Ptr) → has q ((p, n) ∷ rest) ≡ false → h'.node q ≡ h.node q)
index_nodes-set_indexes before after p n rest i h linked apart starts =
    let (at_p, live, back, forward, others) = linked in
    let (h', ran, linked', lists, same) =
      each_node-mapped (λ k m. record m { index = k }) set_index set_index-runs (λ k m. refl)
        (λ k m. refl) before after p n rest i h linked apart in
    (
      h',
      index_nodes-each_node (suc (length rest)) p (last_of rest p) i n h at_p
            (subst (λ q. StartsAt h.node q i) (sym back) starts)
          ∙ ran,
      linked',
      lists,
      same,
    )

pub move_node_thread_lists-set_lists :
    (to before after p : Ptr) (n : Node) (rest : Cells) (h : Memory)
    → Linked h.node before ((p, n) ∷ rest) after
    → Apart ((p, n) ∷ rest)
    → (h' : Memory) × (move_node_thread_lists (suc (length rest)) p (last_of rest p) to h
        ≡ some (tt, h'))
      × Linked h'.node before (set_lists to ((p, n) ∷ rest)) after
      × (h'.list ≡ h.list)
      × ((q : Ptr) → has q ((p, n) ∷ rest) ≡ false → h'.node q ≡ h.node q)
unfolding move_node_thread_lists
move_node_thread_lists-set_lists to before after p n rest h linked apart =
    each_node-mapped (λ k m. record m { thread_list = to }) (set_thread_list to)
      (set_thread_list-runs to) (λ k m. refl) (λ k m. refl) before after p n rest 0 h linked apart
