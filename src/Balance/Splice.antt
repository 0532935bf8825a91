-- ===== src/Balance/Splice.antt =====
-- How a transfer links the nodes it moves behind another list, and closes the list they are from.
use puma.Base.{
  ◌≡◌, ◌≢◌, refl, sym, ap, ◌∙◌, arith, true, false, not, some, Option, [], ◌∷◌, ◌==◌, inl, inr,
  Bool-cases,
}
use puma.Memory.{Ptr, null, Node, ThreadList, Memory, when, update, load, store, load_list}
use puma.Node.Chain.{Cells, Linked, Linked-frame, has, Apart}
use puma.Balance.{set_next, set_prev, splice_behind, close_from}
use puma.Balance.Segment.{
  last_of, has-last_of, if_last, at_last, update-other, Linked-update, Linked-last, StopsAt,
}
use puma.Balance.Shape.{has-Alike, at_last-Alike}

pub set_next-runs :
    (p v : Ptr) (n : Node) (h : Memory)
    → h.node p ≡ some n
    → set_next p v h ≡ some (tt, record h { node = update h.node p (some (record n { next = v })) })
unfolding set_next load store
set_next-runs p v n h at_p = rw at_p refl

pub set_prev-runs :
    (p v : Ptr) (n : Node) (h : Memory)
    → h.node p ≡ some n
    → set_prev p v h ≡ some (tt, record h { node = update h.node p (some (record n { prev = v })) })
unfolding set_prev load store
set_prev-runs p v n h at_p = rw at_p refl

pub update-same {ℓ} :
    {A : Type ℓ} (m : Ptr → Option A) (p : Ptr) (x : Option A) → update m p x p ≡ x
update-same m p x = ground arith

-- `if(p != NULL) p->prev = v;` where a count stops.
pub set_prev-StopsAt :
    (p v : Ptr) (h : Memory)
    → StopsAt h.node p
    → (h' : Memory) × (when (not (p == null)) (set_prev p v) h ≡ some (tt, h'))
      × (h'.list ≡ h.list)
      × StopsAt h'.node p
      × ((q : Ptr) → p ≢ q → h'.node q ≡ h.node q)
set_prev-StopsAt p v h (inl is_null) = (h, rw is_null refl, refl, inl is_null, λ q ne. refl)
set_prev-StopsAt p v h (inr (live, (s, at_s, off))) =
    let s' = record s { prev = v } in
    (
      record h { node = update h.node p (some s') },
      rw live (set_prev-runs p v s h at_s),
      refl,
      inr (live, (s', update-same h.node p (some s'), off)),
      λ q ne. update-other h.node p q (some s') ne,
    )

pub StopsAt-frame : (m m' : Ptr → Option Node) (p : Ptr) → m' p ≡ m p → StopsAt m p → StopsAt m' p
StopsAt-frame m m' p same (inl is_null) = inl is_null
StopsAt-frame m m' p same (inr (live, (s, at_s, off))) = inr (live, (s, same ∙ at_s, off))

pub has-ne : (p q : Ptr) (cells : Cells) → has p cells ≡ true → has q cells ≡ false → p ≢ q
has-ne p q cells at new e =
    let at_q : has q cells ≡ true = ap (λ u. has u cells) (sym e) ∙ at in ground (arith, at_q, new)

pub separate-sym :
    (xs ys : Cells)
    → ((q : Ptr) → has q xs ≡ true → has q ys ≡ false)
    → (q : Ptr) → has q ys ≡ true
    → has q xs ≡ false
separate-sym xs ys separate q at = elim (Bool-cases (has q xs)) [
  | inl here ↦ let not_at = separate q here in ground (arith, at, not_at)
  | inr new ↦ new
]

abbrev pub with_prev : Ptr → Cells → Cells
with_prev v [] = []
with_prev v ((p, n) ∷ rest) = (p, record n { prev = v }) ∷ rest

abbrev pub with_next : Ptr → Cells → Cells
with_next v cells = at_last (λ n. record n { next = v }) cells

-- The tail behind which nodes are put becomes dirty.
abbrev pub with_next_dirty : Ptr → Cells → Cells
with_next_dirty v cells = at_last (λ n. record n { next = v; dirty = true }) cells

pub Linked-live :
    (m : Ptr → Option Node) (before after p : Ptr) (n : Node) (rest : Cells)
    → Linked m before ((p, n) ∷ rest) after
    → (last_of rest p == null) ≡ false
Linked-live m before after p n [] (at_p, live, back, forward, others) = live
Linked-live m before after p n ((p', n') ∷ rest) (at_p, live, back, forward, others) =
    Linked-live m p after p' n' rest others

module _ (before f_after after b : Ptr) (nb : Node) (bs : Cells) (c : Ptr) (nc : Node)
    (cs : Cells) where
  abbrev moved : Cells
  moved = (b, nb) ∷ bs

  abbrev kept : Cells
  kept = (c, nc) ∷ cs

  pub splice_behind-Linked :
      (h : Memory)
      → Linked h.node before moved f_after
      → Linked h.node null kept after
      → StopsAt h.node after
      → Apart moved
      → Apart kept
      → ((q : Ptr) → has q moved ≡ true → has q kept ≡ false)
      → has after moved ≡ false
      → has after kept ≡ false
      → (h' : Memory) × (splice_behind b (last_of bs b) (last_of cs c) h ≡ some (tt, h'))
        × (h'.list ≡ h.list)
        × Linked h'.node (last_of cs c) (with_prev (last_of cs c) (with_next after moved)) after
        × Linked h'.node null (with_next_dirty b kept) b
        × StopsAt h'.node after
        × ((q : Ptr) → has q moved ≡ false → has q kept ≡ false → after ≢ q → h'.node q ≡ h.node q)
  unfolding splice_behind load store
  splice_behind-Linked h linked_b linked_c stops apart_b apart_c separate not_b not_c =
      let e = last_of bs b in
      let t = last_of cs c in
      let e_moved : has e moved ≡ true = has-last_of b nb bs null in
      let t_kept : has t kept ≡ true = has-last_of c nc cs null in
      let (xe, at_xe, next_e, linked1) =
        Linked-last (λ n. record n { next = after }) after h.node before f_after b nb bs (λ n. refl)
          (λ n. refl) linked_b apart_b in
      let (xt, at_xt, next_t, _) =
        Linked-last (λ n. record n { next = b; dirty = true }) b h.node null after c nc cs
          (λ n. refl) (λ n. refl) linked_c apart_c in
      let h1 = record h { node = update h.node e (some (record xe { next = after })) } in
      let c1 =
        Linked-update h.node e null after (some (record xe { next = after })) kept
          (separate e e_moved) linked_c in
      let stops1 =
        StopsAt-frame h.node h1.node after
          (update-other h.node e after (some (record xe { next = after }))
            (has-ne e after moved e_moved not_b))
          stops in
      let (h2, ran2, lists2, stops2, same2) = set_prev-StopsAt after e h1 stops1 in
      let b2 =
        Linked-frame h1.node h2.node before after (with_next after moved)
          (λ q at. same2 q (λ x. has-ne q after moved (sym (has-with_next q) ∙ at) not_b (sym x)))
          linked1 in
      let c2 =
        Linked-frame h1.node h2.node null after kept
          (λ q at. same2 q (λ x. has-ne q after kept at not_c (sym x))) c1 in
      let (x3, at_x3, _, linked3) =
        Linked-last (λ n. record n { next = b; dirty = true }) b h2.node null after c nc cs
          (λ n. refl) (λ n. refl) c2 apart_c in
      let x3' = record x3 { next = b; dirty = true } in
      let h3 = record h2 { node = update h2.node t (some x3') } in
      let b3 =
        Linked-update h2.node t before after (some x3') (with_next after moved)
          (has-with_next t ∙ separate-sym moved kept separate t t_kept) b2 in
      let (at_b, live, back, forward, others) = b3 in
      let b' = if_last (λ n. record n { next = after }) nb bs in
      let b4 = record b' { prev = t } in
      let h4 = record h3 { node = update h3.node b (some b4) } in
      let b_moved : has b moved ≡ true = ground arith in
      let new_bs : has b (with_next after bs) ≡ false =
        has-Alike b (with_next after bs) bs (at_last-Alike (λ n. record n { next = after }) bs)
        ∙ apart_b.0 in
      let new_kept : has b (with_next_dirty b kept) ≡ false =
        has-Alike b (with_next_dirty b kept) kept
          (at_last-Alike (λ n. record n { next = b; dirty = true }) kept)
        ∙ separate b b_moved in
      let last_steps : (q : Ptr) → t ≢ q → b ≢ q → h4.node q ≡ h2.node q = λ q ne ne'.
        update-other h3.node b q (some b4) ne' ∙ update-other h2.node t q (some x3') ne in
      (
        h4,
        rw (at_xt, next_t, set_next-runs e after xe h at_xe, ran2, at_x3)
            (set_prev-runs b t b' h3 at_b),
        lists2,
        (
          update-same h3.node b (some b4),
          live,
          refl,
          forward,
          Linked-update h3.node b b after (some b4) (with_next after bs) new_bs others,
        ),
        Linked-update h3.node b null b (some b4) (with_next_dirty b kept) new_kept linked3,
        StopsAt-frame h2.node h4.node after
            (last_steps after (has-ne t after kept t_kept not_c)
              (has-ne b after moved b_moved not_b))
            stops2,
        λ q new_b new_c other.
            last_steps q (has-ne t q kept t_kept new_c) (has-ne b q moved b_moved new_b)
            ∙ same2 q other
            ∙ update-other h.node e q (some (record xe { next = after }))
                (has-ne e q moved e_moved new_b),
      )
    where
      has-with_next : (q : Ptr) → has q (with_next after moved) ≡ has q moved
      has-with_next q =
          has-Alike q (with_next after moved) moved
            (at_last-Alike (λ n. record n { next = after }) moved)

-- What is left of a list from which nodes at its end were taken.
pub close_from-Linked :
    (from before after p : Ptr) (n : Node) (rest : Cells) (l : ThreadList) (b : Ptr) (h : Memory)
    → h.list from ≡ some l
    → l.tail ≡ last_of rest p
    → Linked h.node before ((p, n) ∷ rest) b
    → StopsAt h.node after
    → Apart ((p, n) ∷ rest)
    → has after ((p, n) ∷ rest) ≡ false
    → (h' : Memory) × (close_from from after h ≡ some (tt, h'))
      × (h'.list ≡ h.list)
      × Linked h'.node before (with_next after ((p, n) ∷ rest)) after
      × StopsAt h'.node after
      × ((q : Ptr) → has q ((p, n) ∷ rest) ≡ false → after ≢ q → h'.node q ≡ h.node q)
unfolding close_from load load_list
close_from-Linked from before after p n rest l b h at_from tail linked stops apart not_in =
    let e = last_of rest p in
    let e_in : has e ((p, n) ∷ rest) ≡ true = has-last_of p n rest null in
    let (x, at_x, next_x, linked1) =
      Linked-last (λ n. record n { next = after }) after h.node before b p n rest (λ n. refl)
        (λ n. refl) linked apart in
    let x' = record x { next = after } in
    let h1 = record h { node = update h.node e (some x') } in
    let stops1 =
      StopsAt-frame h.node h1.node after
        (update-other h.node e after (some x') (has-ne e after ((p, n) ∷ rest) e_in not_in))
        stops in
    let (h2, ran2, lists2, stops2, same2) = set_prev-StopsAt after e h1 stops1 in
    let live : (e == null) ≡ false = Linked-live h.node before b p n rest linked in
    (
      h2,
      rw (at_from, tail, live, set_next-runs e after x h at_x) ran2,
      lists2,
      Linked-frame h1.node h2.node before after (with_next after ((p, n) ∷ rest))
          (λ q at. same2 q (λ y.
            has-ne q after ((p, n) ∷ rest)
              (sym (
                  has-Alike q (with_next after ((p, n) ∷ rest)) ((p, n) ∷ rest)
                    (at_last-Alike (λ n. record n { next = after }) ((p, n) ∷ rest)))
                ∙ at)
              not_in (sym y)))
          linked1,
      stops2,
      λ q new other.
          same2 q other ∙ update-other h.node e q (some x') (has-ne e q ((p, n) ∷ rest) e_in new),
    )
