-- ===== src/Balance/Front.antt =====
-- How a transfer links the nodes it moves in front of a list without active nodes, and closes a list
-- that has none left.
use puma.Base.{◌≡◌, ◌≢◌, refl, sym, ◌∙◌, arith, true, false, not, some, ◌∷◌, ◌+◌, ◌==◌, inl, inr}
use puma.Memory.{
  Ptr, null, Node, ThreadList, Memory, ◌>>=◌, when, update, load, store, load_list, store_list,
}
use puma.Node.Chain.{Cells, Linked, Linked-frame, has, Apart}
use puma.Balance.{splice_in_front, close_from}
use puma.Balance.Segment.{
  last_of, has-last_of, if_last, update-other, Linked-update, Linked-last, StopsAt,
}
use puma.Balance.Shape.{has-Alike, at_last-Alike}
use puma.Balance.Splice.{
  set_next-runs, set_prev-runs, update-same, StopsAt-frame, has-ne, with_prev, with_next,
}

-- The node behind the moved ones, if there is one.
behind_end-StopsAt :
    (p end_ : Ptr) (x : Node) (h : Memory)
    → h.node end_ ≡ some x
    → StopsAt h.node p
    → (h' : Memory) × (when
          (not (p == null))
          (do e ← load end_; t ← load p; store p (record t { prev = end_; index = e.index + 1 }))
          h
        ≡ some (tt, h'))
      × (h'.list ≡ h.list)
      × StopsAt h'.node p
      × ((q : Ptr) → p ≢ q → h'.node q ≡ h.node q)
unfolding load store
behind_end-StopsAt p end_ x h at_x (inl is_null) =
    (h, rw is_null refl, refl, inl is_null, λ q ne. refl)
behind_end-StopsAt p end_ x h at_x (inr (live, (s, at_s, off))) =
    let s' = record s { prev = end_; index = x.index + 1 } in
    (
      record h { node = update h.node p (some s') },
      rw (live, at_x, at_s) refl,
      refl,
      inr (live, (s', update-same h.node p (some s'), off)),
      λ q ne. update-other h.node p q (some s') ne,
    )

pub splice_in_front-Linked :
    (to before f_after after b : Ptr) (nb : Node) (bs : Cells) (l : ThreadList) (h : Memory)
    → h.list to ≡ some l
    → Linked h.node before ((b, nb) ∷ bs) f_after
    → StopsAt h.node after
    → Apart ((b, nb) ∷ bs)
    → has after ((b, nb) ∷ bs) ≡ false
    → (h' : Memory) × (splice_in_front b (last_of bs b) to after h ≡ some (tt, h'))
      × (h'.list ≡ update h.list to (some (record l { head = b })))
      × Linked h'.node null (with_prev null (with_next after ((b, nb) ∷ bs))) after
      × StopsAt h'.node after
      × ((q : Ptr) → has q ((b, nb) ∷ bs) ≡ false → after ≢ q → h'.node q ≡ h.node q)
unfolding splice_in_front load store load_list store_list
splice_in_front-Linked to before f_after after b nb bs l h at_to linked stops apart not_b =
    let moved = (b, nb) ∷ bs in
    let e = last_of bs b in
    let e_moved : has e moved ≡ true = has-last_of b nb bs null in
    let h0 = record h { list = update h.list to (some (record l { head = b })) } in
    let (xe, at_xe, next_e, linked1) =
      Linked-last (λ n. record n { next = after }) after h.node before f_after b nb bs (λ n. refl)
        (λ n. refl) linked apart in
    let xe' = record xe { next = after } in
    let h1 = record h0 { node = update h.node e (some xe') } in
    let stops1 =
      StopsAt-frame h.node h1.node after
        (update-other h.node e after (some xe') (has-ne e after moved e_moved not_b)) stops in
    let (h2, ran2, lists2, stops2, same2) =
      behind_end-StopsAt after e xe' h1 (update-same h.node e (some xe')) stops1 in
    let b2 =
      Linked-frame h1.node h2.node before after (with_next after moved)
        (λ q at. same2 q (λ x. has-ne q after moved (sym (has-with_next q) ∙ at) not_b (sym x)))
        linked1 in
    let (at_b, live, back, forward, others) = b2 in
    let b' = if_last (λ n. record n { next = after }) nb bs in
    let b3 = record b' { prev = null } in
    let h3 = record h2 { node = update h2.node b (some b3) } in
    let b_moved : has b moved ≡ true = ground arith in
    let new_bs : has b (with_next after bs) ≡ false =
      has-Alike b (with_next after bs) bs (at_last-Alike (λ n. record n { next = after }) bs)
      ∙ apart.0 in
    (
      h3,
      rw (at_to, set_next-runs e after xe h0 at_xe, ran2) (set_prev-runs b null b' h2 at_b),
      lists2,
      (
        update-same h2.node b (some b3),
        live,
        refl,
        forward,
        Linked-update h2.node b b after (some b3) (with_next after bs) new_bs others,
      ),
      StopsAt-frame h2.node h3.node after
          (update-other h2.node b after (some b3) (has-ne b after moved b_moved not_b)) stops2,
      λ q new other.
          update-other h2.node b q (some b3) (has-ne b q moved b_moved new)
          ∙ same2 q other
          ∙ update-other h.node e q (some xe') (has-ne e q moved e_moved new),
    )
  where
    has-with_next : (q : Ptr) → has q (with_next after ((b, nb) ∷ bs)) ≡ has q ((b, nb) ∷ bs)
    has-with_next q =
        has-Alike q (with_next after ((b, nb) ∷ bs)) ((b, nb) ∷ bs)
          (at_last-Alike (λ n. record n { next = after }) ((b, nb) ∷ bs))

-- The whole list was moved.
pub close_from-StopsAt :
    (from after : Ptr) (l : ThreadList) (h : Memory)
    → h.list from ≡ some l
    → l.tail ≡ null
    → StopsAt h.node after
    → (h' : Memory) × (close_from from after h ≡ some (tt, h'))
      × (h'.list ≡ update h.list from (some (record l { head = after; tail = after })))
      × StopsAt h'.node after
      × ((q : Ptr) → after ≢ q → h'.node q ≡ h.node q)
unfolding close_from load store load_list store_list
close_from-StopsAt from after l h at_from tail (inl is_null) = (
  record h { list = update h.list from (some (record l { head = after; tail = after })) },
  rw (at_from, tail, is_null) refl,
  refl,
  inl is_null,
  λ q ne. refl,
)
close_from-StopsAt from after l h at_from tail (inr (live, (s, at_s, off))) =
    let s' = record s { prev = null; index = 0 } in
    (
      record h {
        list = update h.list from (some (record l { head = after; tail = after }));
        node = update h.node after (some s');
      },
      rw (at_from, tail, live, at_s) refl,
      refl,
      inr (live, (s', update-same h.node after (some s'), off)),
      λ q ne. update-other h.node after q (some s') ne,
    )
