-- ===== src/Balance/Between.antt =====
-- A transfer between two of several thread lists, of which no node is in two.
use mathlib.Core.Path.{subst}
use puma.Base.{
  ℕ, ◌+◌, ◌-◌, ◌<◌, ◌≤◌, ◌^◌, ◌≡◌, ◌≢◌, refl, sym, ap, ◌∙◌, arith, Bool, true, false, some, List,
  ◌∷◌, ◌||◌, ◌++◌, length, if◌then◌else◌, ℕ_discrete, Bool-cases, inl, inr,
}
use puma.Memory.{Ptr, Node, ThreadList, Memory, update}
use puma.Node.Chain.{Cells, has, has-++, Apart, Apart-++, total_elements}
use puma.Balance.{transfer_n_nodes}
use puma.Balance.Shape.{
  is_among, has-Alike, Apart-Alike, length-Alike, at_last-Alike, length-++, total_elements-++,
  total_elements-at_last,
}
use puma.Balance.Splice.{with_next, with_next_dirty}
use puma.Balance.Transfer.{IsList}
use puma.Balance.Transfer.After.{relinked, relinked-Alike}
use puma.Balance.Transfer.Whole.{transfer_n_nodes-IsList}
use puma.Balance.Lists.{AreLists, last_cells, ++-Apart, cells-same, cells-other, other-IsList}

-- What a transfer of `n` nodes does to the nodes of the lists.
pub record Moved (n : ℕ) (p q : Ptr) (cells cells' : Ptr → Cells) : Type 0 where
  pub fewer : length (cells' p) ≡ length (cells p) - n
  pub more : length (cells' q) ≡ length (cells q) + n
  pub others : (x : Ptr) → x ≢ p → x ≢ q → cells' x ≡ cells x
  pub elements : total_elements (cells' p) ≤ total_elements (cells p)
  pub same_nodes :
      (r : Ptr) → (has r (cells' p) || has r (cells' q)) ≡ (has r (cells p) || has r (cells q))

module _ (ps : List Ptr) (owner : Ptr → Ptr) (cells : Ptr → Cells) (after : Ptr → Ptr) (h : Memory)
    (all : AreLists ps owner cells after h) (p q : Ptr) (in_p : is_among p ps ≡ true)
    (in_q : is_among q ps ≡ true) (ne : p ≢ q) (kept : Cells) (b : Ptr) (nb : Node) (bs : Cells)
    (whole : cells p ≡ kept ++ (b, nb) ∷ bs) where
  abbrev moved : Cells
  moved = (b, nb) ∷ bs

  abbrev kept_cells : Cells
  kept_cells = with_next (after p) kept

  abbrev moved_cells : Cells
  moved_cells = relinked p q (after p) (after q) b nb kept bs (cells q)

  abbrev grown_cells : Cells
  grown_cells = with_next_dirty b (cells q) ++ moved_cells

  abbrev cells' : Ptr → Cells
  cells' = update (update cells q grown_cells) p kept_cells

  -- Those that are moved are in the other list now.
  abbrev owner' : Ptr → Ptr
  owner' r = if has r moved then q else owner r

  cells'-p : cells' p ≡ kept_cells
  cells'-p = cells-same (update cells q grown_cells) p kept_cells

  cells'-q : cells' q ≡ grown_cells
  cells'-q =
      cells-other (update cells q grown_cells) p q kept_cells ne ∙ cells-same cells q grown_cells

  cells'-x : (x : Ptr) → x ≢ p → x ≢ q → cells' x ≡ cells x
  cells'-x x not_p not_q =
      cells-other (update cells q grown_cells) p x kept_cells (λ e. not_p (sym e))
      ∙ cells-other cells q x grown_cells (λ e. not_q (sym e))

  has-p : (r : Ptr) → has r (cells p) ≡ (has r kept || has r moved)
  has-p r = ap (has r) whole ∙ has-++ r kept moved

  has-kept : (r : Ptr) → has r kept_cells ≡ has r kept
  has-kept r = has-Alike r kept_cells kept (at_last-Alike (λ n. record n { next = after p }) kept)

  has-grown : (r : Ptr) → has r grown_cells ≡ (has r (cells q) || has r moved)
  has-grown r =
      let left =
        has-Alike r (with_next_dirty b (cells q)) (cells q)
          (at_last-Alike (λ n. record n { next = b; dirty = true }) (cells q)) in
      let right =
        has-Alike r moved_cells moved
          (relinked-Alike p q (after p) (after q) b nb kept bs (cells q)) in
      has-++ r (with_next_dirty b (cells q)) moved_cells
      ∙ ap (λ u. u || has r moved_cells) left
      ∙ ap (λ u. has r (cells q) || u) right

  moved_owner : (r : Ptr) → has r moved ≡ true → owner r ≡ p
  moved_owner r at = let here = has-p r in all.owned p r in_p (ground (arith, here, at))

  cells-Apart : Apart kept × Apart moved × ((r : Ptr) → has r moved ≡ true → has r kept ≡ false)
  cells-Apart = Apart-++ kept moved (subst Apart whole (all.apart p in_p))

  -- No node of one list is in another.
  elsewhere :
      (x y r : Ptr)
      → is_among x ps ≡ true
      → is_among y ps ≡ true
      → x ≢ y
      → has r (cells x) ≡ true
      → has r (cells y) ≡ false
  elsewhere x y r in_x in_y other at = elim (Bool-cases (has r (cells y))) [
    | inl both ↦ absurd (other (sym (all.owned x r in_x at) ∙ all.owned y r in_y both))
    | inr none ↦ none
  ]

  owned-p : (r : Ptr) → has r kept_cells ≡ true → owner' r ≡ p
  owned-p r at =
      let in_kept : has r kept ≡ true = sym (has-kept r) ∙ at in
      let here = has-p r in
      let owner_p = all.owned p r in_p (ground (arith, here, in_kept)) in
      elim (Bool-cases (has r moved)) [
        | inl in_moved ↦
            let not_kept = cells-Apart.2 r in_moved in absurd (ground (arith, not_kept, in_kept))
        | inr not_moved ↦ rw not_moved owner_p
      ]

  owned-q : (r : Ptr) → has r grown_cells ≡ true → owner' r ≡ q
  owned-q r at = elim (Bool-cases (has r moved)) [
    | inl in_moved ↦ rw in_moved refl
    | inr not_moved ↦
        let either = has-grown r in
        rw not_moved (all.owned q r in_q (ground (arith, either, at, not_moved)))
  ]

  owned-x : (x r : Ptr) → is_among x ps ≡ true → x ≢ p → has r (cells x) ≡ true → owner' r ≡ x
  owned-x x r in_x not_p at =
      let owner_x = all.owned x r in_x at in
      elim (Bool-cases (has r moved)) [
        | inl in_moved ↦ absurd (not_p (sym owner_x ∙ moved_owner r in_moved))
        | inr not_moved ↦ rw not_moved owner_x
      ]

  outside_of :
      (x y : Ptr) → is_among x ps ≡ true → is_among y ps ≡ true → has (after x) (cells' y) ≡ false
  outside_of x y in_x in_y =
      let not_p = all.outside x p in_x in_p in
      let here = has-p (after x) in
      elim (ℕ_discrete y p) [
        | yes e ↦
            ap (has (after x)) (ap cells' e ∙ cells'-p)
            ∙ has-kept (after x)
            ∙ ground (arith, here, not_p)
        | no other ↦ elim (ℕ_discrete y q) [
          | yes e ↦
              let not_q = all.outside x q in_x in_q in
              ap (has (after x)) (ap cells' e ∙ cells'-q)
              ∙ has-grown (after x)
              ∙ ground (arith, here, not_p, not_q)
          | no other' ↦ ap (has (after x)) (cells'-x y other other') ∙ all.outside x y in_x in_y
        ]
      ]

  owned_by : (x r : Ptr) → is_among x ps ≡ true → has r (cells' x) ≡ true → owner' r ≡ x
  owned_by x r in_x at = elim (ℕ_discrete x p) [
    | yes e ↦ owned-p r (ap (has r) (sym cells'-p ∙ ap cells' (sym e)) ∙ at) ∙ sym e
    | no other ↦ elim (ℕ_discrete x q) [
      | yes e ↦ owned-q r (ap (has r) (sym cells'-q ∙ ap cells' (sym e)) ∙ at) ∙ sym e
      | no other' ↦ owned-x x r in_x other (ap (has r) (sym (cells'-x x other other')) ∙ at)
    ]
  ]

  grown-Apart : Apart grown_cells
  grown-Apart =
      let front = with_next_dirty b (cells q) in
      let like = at_last-Alike (λ n. record n { next = b; dirty = true }) (cells q) in
      let like' = relinked-Alike p q (after p) (after q) b nb kept bs (cells q) in
      ++-Apart front moved_cells (Apart-Alike front (cells q) like (all.apart q in_q))
        (Apart-Alike moved_cells moved like' cells-Apart.1)
        (λ r at.
          let in_q' : has r (cells q) ≡ true = sym (has-Alike r front (cells q) like) ∙ at in
          let not_p = elsewhere q p r in_q in_p (λ e. ne (sym e)) in_q' in
          let here = has-p r in has-Alike r moved_cells moved like' ∙ ground (arith, here, not_p))

  each-Apart : (x : Ptr) → is_among x ps ≡ true → Apart (cells' x)
  each-Apart x in_x = elim (ℕ_discrete x p) [
    | yes e ↦ subst Apart (sym cells'-p ∙ ap cells' (sym e)) (
        Apart-Alike kept_cells kept (at_last-Alike (λ n. record n { next = after p }) kept)
          cells-Apart.0)
    | no other ↦ elim (ℕ_discrete x q) [
      | yes e ↦ subst Apart (sym cells'-q ∙ ap cells' (sym e)) grown-Apart
      | no other' ↦ subst Apart (sym (cells'-x x other other')) (all.apart x in_x)
    ]
  ]

  pub moved-Moved : Moved (length moved) p q cells cells'
  moved-Moved =
      let size = length-++ kept moved in
      let size_p : length (cells p) ≡ length kept + length moved = ap length whole ∙ size in
      let size_kept =
        length-Alike kept_cells kept (at_last-Alike (λ n. record n { next = after p }) kept) in
      let front = with_next_dirty b (cells q) in
      let size_front =
        length-Alike front (cells q)
          (at_last-Alike (λ n. record n { next = b; dirty = true }) (cells q)) in
      let size_moved =
        length-Alike moved_cells moved
          (relinked-Alike p q (after p) (after q) b nb kept bs (cells q)) in
      let size_grown = length-++ front moved_cells in
      let total = total_elements-++ kept moved in
      let total_p : total_elements (cells p) ≡ total_elements kept + total_elements moved =
        ap total_elements whole ∙ total in
      let total_kept = total_elements-at_last (λ n. record n { next = after p }) kept (λ n. refl) in
      record {
        fewer = ap length cells'-p ∙ omega (arith, size_kept, size_p);
        more = ap length cells'-q ∙ omega (arith, size_grown, size_front, size_moved);
        others = cells'-x;
        elements = rw cells'-p (omega (arith, total_kept, total_p));
        same_nodes = λ r.
            let here = has-p r in
            let left : has r (cells' p) ≡ has r kept = ap (has r) cells'-p ∙ has-kept r in
            let right : has r (cells' q) ≡ (has r (cells q) || has r moved) =
              ap (has r) cells'-q ∙ has-grown r in
            ap (λ u. u || has r (cells' q)) left
            ∙ ap (λ u. has r kept || u) right
            ∙ or_swap (has r kept) (has r (cells q)) (has r moved)
            ∙ ap (λ u. u || has r (cells q)) (sym here);
      }
    where
      or_swap : (x y z : Bool) → (x || (y || z)) ≡ ((x || z) || y)
      or_swap x y z = ground arith

  -- The transfer.
  pub transfer-AreLists :
      total_elements (cells p) < 2 ^ 64
      → (h' : Memory) × (transfer_n_nodes (length moved) p q h ≡ some (tt, h'))
        × AreLists ps owner' cells' after h'
  transfer-AreLists small =
      let (f, i_p) = all.lists p in_p in
      let (t, i_q) = all.lists q in_q in
      let cross = λ (r : Ptr) (at : has r (cells p) ≡ true). elsewhere p q r in_p in_q ne at in
      let both = ++-Apart (cells p) (cells q) (all.apart p in_p) (all.apart q in_q) cross in
      let out : (x : Ptr) → is_among x ps ≡ true → has (after x) (cells p ++ cells q) ≡ false =
        λ x in_x.
          let here = has-++ (after x) (cells p) (cells q) in
          let not_p = all.outside x p in_x in_p in
          let not_q = all.outside x q in_x in_q in ground (arith, here, not_p, not_q) in
      let at_whole : (x : Ptr) → has x (cells p ++ cells q) ≡ has x ((kept ++ moved) ++ cells q) =
        λ x. ap (λ c. has x (c ++ cells q)) whole in
      let (h', f', t', ran, i_p', i_q', lists, nodes) =
        transfer_n_nodes-IsList p q (after p) (after q) b nb bs kept (cells q) f t h ne
          (subst (λ c. IsList h p f c (after p)) whole i_p) i_q
          (subst (λ c. Apart (c ++ cells q)) whole both) (sym (at_whole (after p)) ∙ out p in_p)
          (sym (at_whole (after q)) ∙ out q in_q) (rw (sym i_p.elements) at small) in
      (
        h',
        ran,
        record {
          lists = λ x in_x. elim (ℕ_discrete x p) [
            | yes e ↦
                subst (λ (y : Ptr). (l : ThreadList) × IsList h' y l (cells' y) (after y)) (sym e)
                  (f', subst (λ c. IsList h' p f' c (after p)) (sym cells'-p) i_p')
            | no other ↦ elim (ℕ_discrete x q) [
              | yes e ↦
                  subst (λ (y : Ptr). (l : ThreadList) × IsList h' y l (cells' y) (after y)) (sym e)
                    (t', subst (λ c. IsList h' q t' c (after q)) (sym cells'-q) i_q')
              | no other' ↦
                  let (l, i) = all.lists x in_x in
                  (
                    l,
                    subst (λ c. IsList h' x l c (after x)) (sym (cells'-x x other other'))
                        (other-IsList h h' (after p) (after q) x (after x) l (cells x)
                          (cells p ++ cells q) (lists x other other')
                          (λ r new not_f not_t. nodes r (sym (at_whole r) ∙ new) not_f not_t)
                          (λ r at.
                            let here = has-++ r (cells p) (cells q) in
                            let not_p = elsewhere x p r in_x in_p other at in
                            let not_q = elsewhere x q r in_x in_q other' at in
                            ground (arith, here, not_p, not_q))
                          (all.outside p x in_p in_x) (all.outside q x in_q in_x) (out x in_x)
                          i_p'.stops i_q'.stops i),
                  )
            ]
          ];
          apart = each-Apart;
          owned = owned_by;
          outside = outside_of;
        },
      )

-- A transfer of `n` nodes from the list `p` to the list `q`.
pub transfer_n_nodes-AreLists :
    (ps : List Ptr) (owner : Ptr → Ptr) (cells : Ptr → Cells) (after : Ptr → Ptr) (h : Memory)
    (p q : Ptr) (n : ℕ)
    → AreLists ps owner cells after h
    → is_among p ps ≡ true
    → is_among q ps ≡ true
    → p ≢ q
    → 0 < n
    → n ≤ length (cells p)
    → total_elements (cells p) < 2 ^ 64
    → (h' : Memory) × (owner' : Ptr → Ptr) × (cells' : Ptr → Cells) × (transfer_n_nodes n p q h
        ≡ some (tt, h'))
      × AreLists ps owner' cells' after h'
      × Moved n p q cells cells'
transfer_n_nodes-AreLists ps owner cells after h p q n all in_p in_q ne some_n enough small =
    let (kept, b, nb, bs, whole, size) = last_cells n (cells p) some_n enough in
    let (h', ran, all') =
      transfer-AreLists ps owner cells after h all p q in_p in_q ne kept b nb bs whole small in
    (
      h',
      owner' ps owner cells after h all p q in_p in_q ne kept b nb bs whole,
      cells' ps owner cells after h all p q in_p in_q ne kept b nb bs whole,
      subst (λ k. transfer_n_nodes k p q h ≡ some (tt, h')) size ran,
      all',
      subst
          (λ k.
            Moved k p q cells
              (cells' ps owner cells after h all p q in_p in_q ne kept b nb bs whole))
          size (moved-Moved ps owner cells after h all p q in_p in_q ne kept b nb bs whole),
    )
