-- ===== src/Balance/Transfer/Closed.antt =====
-- The list from which nodes were taken is closed, and the nodes get their indexes and their list.
use puma.Base.{ℕ, suc, ◌+◌, ◌≡◌, ◌≢◌, refl, sym, ap, ◌∙◌, false, some, Option, [], ◌∷◌, length}
use puma.Memory.{Ptr, null, Node, ThreadList, Memory}
use puma.Node.Chain.{Cells, first_of, Linked, Linked-frame, has, Apart}
use puma.Balance.{close_from, index_nodes, move_node_thread_lists}
use puma.Balance.Segment.{last_of, update-other, StopsAt}
use puma.Balance.Shape.{Alike, has-Alike, Apart-Alike, last_of-Alike, length-Alike, mapped-Alike}
use puma.Balance.Moved.{
  set_indexes, set_lists, StartsAt, index_nodes-set_indexes, move_node_thread_lists-set_lists,
}
use puma.Balance.Splice.{has-ne, update-same, with_next, StopsAt-frame, close_from-Linked}
use puma.Balance.Front.{close_from-StopsAt}
use puma.Balance.Transfer.{tail_of}
use puma.Balance.Transfer.Stages.{Chains, Disjoint, flip, StopsAt-other, same_end, SameElse}

same_ends :
    (l : ThreadList) (p q : Ptr) → l.head ≡ p → l.tail ≡ q → l ≡ record l { head = p; tail = q }
same_ends l p q head tail = rw (sym head, sym tail) refl

-- `close_from` at the part of a list that is left.
abbrev AfterClose : (from f_after first : Ptr) (kept : Cells) (l : ThreadList) (h : Memory) → Type 0
AfterClose from f_after first kept l h =
    (h' : Memory) × (close_from from f_after h ≡ some (tt, h'))
    × (h'.list from ≡ some (record l { head = first_of kept f_after; tail = tail_of kept f_after }))
    × ((q : Ptr) → q ≢ from → h'.list q ≡ h.list q)
    × Linked h'.node null (with_next f_after kept) f_after
    × StopsAt h'.node f_after
    × ((q : Ptr) → has q kept ≡ false → f_after ≢ q → h'.node q ≡ h.node q)

closed_kept :
    (from f_after first : Ptr) (kept : Cells) (l : ThreadList) (h : Memory)
    → h.list from ≡ some l
    → l.head ≡ first_of kept first
    → l.tail ≡ last_of kept null
    → Linked h.node null kept first
    → StopsAt h.node f_after
    → Apart kept
    → has f_after kept ≡ false
    → AfterClose from f_after first kept l h
closed_kept from f_after first [] l h at_from head tail linked stops apart new =
    let (h', ran, lists, stops', same) = close_from-StopsAt from f_after l h at_from tail stops in
    let l' = record l { head = f_after; tail = f_after } in
    (
      h',
      ran,
      ap (λ (m : Ptr → Option ThreadList). m from) lists ∙ update-same h.list from (some l'),
      λ q ne.
          ap (λ (m : Ptr → Option ThreadList). m q) lists
          ∙ update-other h.list from q (some l') (λ e. ne (sym e)),
      tt,
      stops',
      λ q new' other. same q other,
    )
closed_kept from f_after first ((a, na) ∷ ks) l h at_from head tail linked stops apart new =
    let (h', ran, lists, kept', stops', same) =
      close_from-Linked from null f_after a na ks l first h at_from tail linked stops apart new in
    (
      h',
      ran,
      ap (λ (m : Ptr → Option ThreadList). m from) lists
          ∙ at_from
          ∙ ap some (same_ends l a (last_of ks a) head tail),
      λ q ne. ap (λ (m : Ptr → Option ThreadList). m q) lists,
      kept',
      stops',
      same,
    )

module _ (f_after t_after b : Ptr) (nb : Node) (bs kept grown : Cells)
    (disjoint : Disjoint f_after t_after ((b, nb) ∷ bs) kept grown) where
  abbrev moved : Cells
  moved = (b, nb) ∷ bs

  abbrev At : (Ptr → Option Node) → Ptr → Cells → Cells → Cells → Ptr → Ptr → Ptr → Type 0
  At = Chains f_after t_after

  pub closed :
      (from : Ptr) (l : ThreadList) (before after : Ptr) (moved' grown' : Cells) (h : Memory)
      → Alike moved' moved
      → Alike grown' grown
      → h.list from ≡ some l
      → l.head ≡ first_of kept b
      → l.tail ≡ last_of kept null
      → At h.node before moved' kept grown' b b after
      → (h' : Memory) × (close_from from f_after h ≡ some (tt, h'))
        × (h'.list from
            ≡ some (record l { head = first_of kept f_after; tail = tail_of kept f_after }))
        × ((q : Ptr) → q ≢ from → h'.list q ≡ h.list q)
        × At h'.node before moved' (with_next f_after kept) grown' f_after b after
        × SameElse f_after t_after moved kept grown h.node h'.node
  closed from l before after moved' grown' h like_moved like_grown at_from head tail at =
      let (h', ran, at_from', lists, kept', stops, same) =
        closed_kept from f_after b kept l h at_from head tail at.at_kept at.f_stops
          disjoint.kept_apart disjoint.f_kept in
      (
        h',
        ran,
        at_from',
        lists,
        record {
          at_moved =
              Linked-frame h.node h'.node before after moved'
                (λ q here.
                  let in_moved = sym (has-Alike q moved' moved like_moved) ∙ here in
                  same q (disjoint.moved_kept q in_moved)
                    (λ e. has-ne q f_after moved in_moved disjoint.f_moved (sym e)))
                at.at_moved;
          at_kept = kept';
          at_grown =
              Linked-frame h.node h'.node null b grown'
                (λ q here.
                  let in_grown = sym (has-Alike q grown' grown like_grown) ∙ here in
                  same q (disjoint.grown_kept q in_grown)
                    (λ e. has-ne q f_after grown in_grown disjoint.f_grown (sym e)))
                at.at_grown;
          f_stops = stops;
          t_stops =
              StopsAt-other h.node h'.node f_after t_after at.t_stops stops
                (λ ne. same t_after disjoint.t_kept ne);
        },
        λ q not_moved not_kept not_grown not_f not_t. same q not_kept not_f,
      )

  pub labelled :
      (to before after kept_after grown_after : Ptr) (n : Node) (rest kept' grown' : Cells) (k : ℕ)
      (h : Memory)
      → Alike ((b, n) ∷ rest) moved
      → Alike kept' kept
      → Alike grown' grown
      → StartsAt h.node before k
      → At h.node before ((b, n) ∷ rest) kept' grown' kept_after grown_after after
      → (h1 : Memory) × (h' : Memory) × (index_nodes (suc (length bs)) b (last_of bs b) h
          ≡ some (tt, h1))
        × (move_node_thread_lists (suc (length bs)) b (last_of bs b) to h1 ≡ some (tt, h'))
        × (h'.list ≡ h.list)
        × At h'.node before
            (set_lists to (set_indexes k ((b, n) ∷ rest)))
            kept'
            grown'
            kept_after
            grown_after
            after
        × SameElse f_after t_after moved kept grown h.node h'.node
  labelled to before after kept_after grown_after n rest kept' grown' k h like like_kept like_grown
        starts at =
      let moved1 = set_indexes k ((b, n) ∷ rest) in
      let rest1 = set_indexes (k + 1) rest in
      let like1 = mapped-Alike (λ i m. record m { index = i }) k ((b, n) ∷ rest) ∙ like in
      let (h1, ran1, linked1, lists1, same1) =
        index_nodes-set_indexes before after b n rest k h at.at_moved
          (Apart-Alike ((b, n) ∷ rest) moved like disjoint.moved_apart) starts in
      let (h2, ran2, linked2, lists2, same2) =
        move_node_thread_lists-set_lists to before after b (record n { index = k }) rest1 h1 linked1
          (Apart-Alike moved1 moved like1 disjoint.moved_apart) in
      let same : (q : Ptr) → has q moved ≡ false → h2.node q ≡ h.node q = λ q new.
        same2 q (has-Alike q moved1 moved like1 ∙ new)
        ∙ same1 q (has-Alike q ((b, n) ∷ rest) moved like ∙ new) in
      (
        h1,
        h2,
        same_end (λ i e. index_nodes i b e h) (some (tt, h1)) (suc (length rest)) (suc (length bs))
            (last_of rest b) (last_of bs b) (length-Alike ((b, n) ∷ rest) moved like)
            (last_of-Alike null ((b, n) ∷ rest) moved like) ran1,
        same_end (λ i e. move_node_thread_lists i b e to h1) (some (tt, h2)) (suc (length rest1))
            (suc (length bs)) (last_of rest1 b) (last_of bs b) (length-Alike moved1 moved like1)
            (last_of-Alike null moved1 moved like1) ran2,
        lists2 ∙ lists1,
        record {
          at_moved = linked2;
          at_kept =
              Linked-frame h.node h2.node null kept_after kept'
                (λ q here. same q (
                  flip moved kept disjoint.moved_kept q
                    (sym (has-Alike q kept' kept like_kept) ∙ here)))
                at.at_kept;
          at_grown =
              Linked-frame h.node h2.node null grown_after grown'
                (λ q here. same q (
                  flip moved grown disjoint.moved_grown q
                    (sym (has-Alike q grown' grown like_grown) ∙ here)))
                at.at_grown;
          f_stops = StopsAt-frame h.node h2.node f_after (same f_after disjoint.f_moved) at.f_stops;
          t_stops = StopsAt-frame h.node h2.node t_after (same t_after disjoint.t_moved) at.t_stops;
        },
        λ q not_moved not_kept not_grown not_f not_t. same q not_moved,
      )
