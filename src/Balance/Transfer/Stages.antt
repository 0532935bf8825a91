-- ===== src/Balance/Transfer/Stages.antt =====
-- The chains of two thread lists through the steps of a transfer: what is kept of the one, the nodes
-- that are moved, and the other.
use puma.Base.{
  ℕ, ◌≡◌, ◌≢◌, refl, sym, ap, ◌∙◌, Bool, true, false, some, Option, [], ◌∷◌, ℕ_discrete,
  if◌then◌else◌, inl, inr,
}
use mathlib.Core.Path.{subst}
use puma.Memory.{Ptr, null, Node, ThreadList, Memory, load}
use puma.Node.Chain.{Cells, first_of, Linked, Linked-frame, has, Apart}
use puma.Balance.{is_active_tail, splice_behind, splice_in_front}
use puma.Balance.Segment.{last_of, update-other, StopsAt, IsCounted}
use puma.Balance.Shape.{last-IsCounted}
use puma.Balance.Splice.{
  has-ne, separate-sym, update-same, with_prev, with_next, with_next_dirty, StopsAt-frame,
  splice_behind-Linked, Linked-live,
}
use puma.Balance.Front.{splice_in_front-Linked}
use puma.Balance.Transfer.{tail_of}

-- The chains at some point, with what follows each.
pub record Chains (f_after t_after : Ptr) (m : Ptr → Option Node) (before : Ptr)
    (moved kept grown : Cells) (kept_after grown_after moved_after : Ptr) : Type 0 where
  pub at_moved : Linked m before moved moved_after
  pub at_kept : Linked m null kept kept_after
  pub at_grown : Linked m null grown grown_after
  pub f_stops : StopsAt m f_after
  pub t_stops : StopsAt m t_after

-- No node is in two of the chains, or twice in one, and neither `f_after` nor `t_after` is in one.
pub record Disjoint (f_after t_after : Ptr) (moved kept grown : Cells) : Type 0 where
  pub moved_apart : Apart moved
  pub kept_apart : Apart kept
  pub grown_apart : Apart grown
  pub moved_kept : (q : Ptr) → has q moved ≡ true → has q kept ≡ false
  pub moved_grown : (q : Ptr) → has q moved ≡ true → has q grown ≡ false
  pub grown_kept : (q : Ptr) → has q grown ≡ true → has q kept ≡ false
  pub f_moved : has f_after moved ≡ false
  pub f_kept : has f_after kept ≡ false
  pub f_grown : has f_after grown ≡ false
  pub t_moved : has t_after moved ≡ false
  pub t_kept : has t_after kept ≡ false
  pub t_grown : has t_after grown ≡ false

pub flip :
    (xs ys : Cells)
    → ((q : Ptr) → has q xs ≡ true → has q ys ≡ false)
    → (q : Ptr) → has q ys ≡ true
    → has q xs ≡ false
flip = separate-sym

pub StopsAt-other :
    (m m' : Ptr → Option Node) (x y : Ptr)
    → StopsAt m y
    → StopsAt m' x
    → (x ≢ y → m' y ≡ m y)
    → StopsAt m' y
StopsAt-other m m' x y stops stops_x same = elim (ℕ_discrete x y) [
  | yes e ↦ subst (StopsAt m') e stops_x
  | no ne ↦ StopsAt-frame m m' y (same ne) stops
]

pub same_end :
    {R : Type 0} (f : ℕ → Ptr → R) (r : R) (n n' : ℕ) (e e' : Ptr)
    → n ≡ n'
    → e ≡ e'
    → f n e ≡ r
    → f n' e' ≡ r
same_end f r n n' e e' same_n same_e at = cc

-- The nodes of the chains, and those behind them.
abbrev pub SameElse :
    (f_after t_after : Ptr) (moved kept grown : Cells) (m m' : Ptr → Option Node) → Type 0
SameElse f_after t_after moved kept grown m m' =
    (q : Ptr)
    → has q moved ≡ false
    → has q kept ≡ false
    → has q grown ≡ false
    → f_after ≢ q
    → t_after ≢ q
    → m' q ≡ m q

-- The moved nodes are linked with the list they go to, and their list is the head of it when it has
-- no other node.
abbrev AfterSplice :
    (f_after t_after to : Ptr) (moved kept grown : Cells) (l : ThreadList) (h : Memory) → Type 0
AfterSplice f_after t_after to moved kept grown l h =
    (active : Bool) × (h' : Memory) × (is_active_tail l.tail h ≡ some (active, h))
    × ((if active
            then splice_behind (first_of moved null) (last_of moved null) l.tail
            else splice_in_front (first_of moved null) (last_of moved null) to l.tail)
          h
        ≡ some (tt, h'))
    × (h'.list to ≡ some (record l { head = first_of grown (first_of moved null) }))
    × ((q : Ptr) → q ≢ to → h'.list q ≡ h.list q)
    × Chains f_after t_after h'.node (last_of grown null)
        (with_prev (last_of grown null) (with_next t_after moved)) kept
        (with_next_dirty (first_of moved null) grown) (first_of moved null) (first_of moved null)
        t_after
    × SameElse f_after t_after moved kept grown h.node h'.node

-- `p->active` of the node behind a list.
is_active_tail-StopsAt :
    (p : Ptr) (h : Memory) → StopsAt h.node p → is_active_tail p h ≡ some (false, h)
unfolding is_active_tail load
is_active_tail-StopsAt p h (inl is_null) = rw is_null refl
is_active_tail-StopsAt p h (inr (live, (s, at_s, off))) = rw (live, at_s, off) refl

same_head : (l : ThreadList) (p : Ptr) → l.head ≡ p → l ≡ record l { head = p }
same_head l p e = rw (sym e) refl

module _ (f_after t_after to before b : Ptr) (nb : Node) (bs kept : Cells) (l : ThreadList)
    (h : Memory) (at_to : h.list to ≡ some l) where
  abbrev moved : Cells
  moved = (b, nb) ∷ bs

  spliced_front :
      Disjoint f_after t_after moved kept []
      → l.tail ≡ t_after
      → Chains f_after t_after h.node before moved kept [] b t_after f_after
      → AfterSplice f_after t_after to moved kept [] l h
  spliced_front disjoint tail at =
      let (h', ran, lists, moved', stops, same) =
        splice_in_front-Linked to before f_after t_after b nb bs l h at_to at.at_moved at.t_stops
          disjoint.moved_apart disjoint.t_moved in
      (
        false,
        h',
        rw tail (is_active_tail-StopsAt t_after h at.t_stops),
        rw tail ran,
        ap (λ (m : Ptr → Option ThreadList). m to) lists
            ∙ update-same h.list to (some (record l { head = b })),
        λ q ne.
            ap (λ (m : Ptr → Option ThreadList). m q) lists
            ∙ update-other h.list to q (some (record l { head = b })) (λ e. ne (sym e)),
        record {
          at_moved = moved';
          at_kept =
              Linked-frame h.node h'.node null b kept
                (λ q in_kept.
                  same q (flip moved kept disjoint.moved_kept q in_kept)
                    (λ e. has-ne q t_after kept in_kept disjoint.t_kept (sym e)))
                at.at_kept;
          at_grown = tt;
          f_stops =
              StopsAt-other h.node h'.node t_after f_after at.f_stops stops
                (λ ne. same f_after disjoint.f_moved ne);
          t_stops = stops;
        },
        λ q not_moved not_kept not_grown not_f not_t. same q not_moved not_t,
      )

  spliced_behind :
      (c : Ptr) (nc : Node) (cs : Cells)
      → Disjoint f_after t_after moved kept ((c, nc) ∷ cs)
      → l.head ≡ c
      → l.tail ≡ last_of cs c
      → IsCounted 0 ((c, nc) ∷ cs)
      → Chains f_after t_after h.node before moved kept ((c, nc) ∷ cs) b t_after f_after
      → AfterSplice f_after t_after to moved kept ((c, nc) ∷ cs) l h
  unfolding is_active_tail load
  spliced_behind c nc cs disjoint head tail counted at =
      let grown = (c, nc) ∷ cs in
      let (h', ran, lists, moved', grown', stops, same) =
        splice_behind-Linked before f_after t_after b nb bs c nc cs h at.at_moved at.at_grown
          at.t_stops disjoint.moved_apart disjoint.grown_apart disjoint.moved_grown disjoint.t_moved
          disjoint.t_grown in
      let (x, at_x, _, on, _) = last-IsCounted h.node null t_after c nc cs 0 at.at_grown counted in
      let live = Linked-live h.node null t_after c nc cs at.at_grown in
      (
        true,
        h',
        rw (tail, live, at_x, on) refl,
        rw tail ran,
        ap (λ (m : Ptr → Option ThreadList). m to) lists ∙ at_to ∙ ap some (same_head l c head),
        λ q ne. ap (λ (m : Ptr → Option ThreadList). m q) lists,
        record {
          at_moved = moved';
          at_kept =
              Linked-frame h.node h'.node null b kept
                (λ q in_kept.
                  same q (flip moved kept disjoint.moved_kept q in_kept)
                    (flip grown kept disjoint.grown_kept q in_kept)
                    (λ e. has-ne q t_after kept in_kept disjoint.t_kept (sym e)))
                at.at_kept;
          at_grown = grown';
          f_stops =
              StopsAt-other h.node h'.node t_after f_after at.f_stops stops
                (λ ne. same f_after disjoint.f_moved disjoint.f_grown ne);
          t_stops = stops;
        },
        λ q not_moved not_kept not_grown not_f not_t. same q not_moved not_grown not_t,
      )

  pub spliced :
      (grown : Cells)
      → Disjoint f_after t_after moved kept grown
      → l.head ≡ first_of grown t_after
      → l.tail ≡ tail_of grown t_after
      → IsCounted 0 grown
      → Chains f_after t_after h.node before moved kept grown b t_after f_after
      → AfterSplice f_after t_after to moved kept grown l h
  spliced [] disjoint head tail counted at = spliced_front disjoint tail at
  spliced ((c, nc) ∷ cs) disjoint head tail counted at =
      spliced_behind c nc cs disjoint head tail counted at
