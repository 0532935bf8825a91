-- ===== src/Balance/Loop.antt =====
-- The loop that empties the stacks of a balance ends, with one of them empty.
use puma.Base.{
  ℕ, zero, suc, ◌+◌, ◌-◌, ◌<◌, ◌^◌, ◌≡◌, ◌≢◌, refl, sym, ap, ◌∙◌, arith, Bool, true, ◌&&◌, some,
  List, [], ◌∷◌, ◌==◌, ◌||◌, length, ltb, if◌then◌else◌, ℕ_discrete, Bool-cases, inl, inr, ◌⊎◌,
}
use puma.Memory.{Ptr, Memory, load_list}
use puma.Node.Chain.{Cells, has}
use puma.Balance.Auto.{one_if, Plan, transfer_round, transfer_loop}
use puma.Balance.Shape.{is_among}
use puma.Balance.Lists.{AreLists}
use puma.Balance.Between.{Moved, transfer_n_nodes-AreLists}
use puma.Balance.Stacks.{round_count, PosStack, NegStack}
use puma.Balance.Round.{pos_round, neg_round}

-- Each node of the lists before is in one of them after.
abbrev pub NoneLost : (ps : List Ptr) (cells cells' : Ptr → Cells) → Type 0
NoneLost ps cells cells' =
    (x r : Ptr)
    → is_among x ps ≡ true
    → has r (cells x) ≡ true
    → (y : Ptr) × (is_among y ps ≡ true) × (has r (cells' y) ≡ true)

pub NoneLost-trans :
    (ps : List Ptr) (a b c : Ptr → Cells) → NoneLost ps a b → NoneLost ps b c → NoneLost ps a c
NoneLost-trans ps a b c first second x r in_x at =
    let (y, in_y, at_y) = first x r in_x at in second y r in_y at_y

either-NoneLost :
    (ps : List Ptr) (p q : Ptr) (a b : Ptr → Cells)
    → is_among p ps ≡ true
    → is_among q ps ≡ true
    → ((x : Ptr) → x ≢ p → x ≢ q → b x ≡ a x)
    → ((r : Ptr) → (has r (b p) || has r (b q)) ≡ (has r (a p) || has r (a q)))
    → NoneLost ps a b
either-NoneLost ps p q a b in_p in_q others same x r in_x at = elim (ℕ_discrete x p) [
  | yes e ↦
      let at_p : has r (a p) ≡ true = ap (λ y. has r (a y)) (sym e) ∙ at in
      one_of (let both = same r in ground (arith, both, at_p))
  | no other ↦ elim (ℕ_discrete x q) [
    | yes e ↦
        let at_q : has r (a q) ≡ true = ap (λ y. has r (a y)) (sym e) ∙ at in
        one_of (let both = same r in ground (arith, both, at_q))
    | no other' ↦ (x, in_x, ap (has r) (others x other other') ∙ at)
  ]
]
  where
    one_of :
        (has r (b p) || has r (b q)) ≡ true
        → (y : Ptr) × (is_among y ps ≡ true) × (has r (b y) ≡ true)
    one_of either = elim (Bool-cases (has r (b p))) [
      | inl here ↦ (p, in_p, here)
      | inr gone ↦ (q, in_q, ground (arith, either, gone))
    ]

Moved-NoneLost :
    (ps : List Ptr) (p q n : ℕ) (a b : Ptr → Cells)
    → is_among p ps ≡ true
    → is_among q ps ≡ true
    → Moved n p q a b
    → NoneLost ps a b × NoneLost ps b a
Moved-NoneLost ps p q n a b in_p in_q moved = (
  either-NoneLost ps p q a b in_p in_q moved.others moved.same_nodes,
  either-NoneLost ps p q b a in_p in_q (λ x ne ne'. sym (moved.others x ne ne'))
      (λ r. sym (moved.same_nodes r)),
)

-- One of the two lists at least has what it gets after a round.
stacks_shrink :
    (p q : Ptr) (pos neg : List Ptr) (t u : Bool)
    → (t || u) ≡ true
    → length (if t then pos else p ∷ pos) + length (if u then neg else q ∷ neg)
      < length (p ∷ pos) + length (q ∷ neg)
stacks_shrink p q pos neg t u one = ground arith

module _ (share : Ptr → ℕ → ℕ) (avg : ℕ) (ps : List Ptr) (on : Ptr → Bool) (after : Ptr → Ptr)
    (sized : (p : Ptr) → share p avg < 2 ^ 64) where
  -- Where a balance is between two rounds.
  abbrev pub Balancing : Plan → (owner : Ptr → Ptr) (cells : Ptr → Cells) → Memory → Type 0
  Balancing plan owner cells h =
      AreLists ps owner cells after h
      × PosStack share avg ps on plan.pos_stack plan.rem cells
      × NegStack share avg ps on plan.neg_stack cells

  transfer_round-Balancing :
      (p q : Ptr) (pos neg : List Ptr) (rem : ℕ) (owner : Ptr → Ptr) (cells : Ptr → Cells)
      (h : Memory)
      → Balancing (record { rem = rem; pos_stack = p ∷ pos; neg_stack = q ∷ neg }) owner cells h
      → (h' : Memory) × (owner' : Ptr → Ptr) × (cells' : Ptr → Cells) × (plan : Plan)
        × (transfer_round share avg p q pos neg rem h ≡ some (plan, h'))
        × Balancing plan owner' cells' h'
        × (length plan.pos_stack + length plan.neg_stack < length (p ∷ pos) + length (q ∷ neg))
        × NoneLost ps cells cells'
        × NoneLost ps cells' cells
  unfolding transfer_round load_list
  transfer_round-Balancing p q pos neg rem owner cells h (all, above, below) =
      let on_p : is_among p (p ∷ pos) ≡ true = ground arith in
      let on_q : is_among q (q ∷ neg) ≡ true = ground arith in
      let in_p = above.inside p on_p in
      let in_q = below.inside q on_q in
      let up = above.above p on_p in
      let down = below.below q on_q in
      let goal = share p avg + one_if (ltb 0 rem) in
      let (lp, i_p) = all.lists p in_p in
      let (lq, i_q) = all.lists q in_q in
      let (n, count, some_n, room, left, hits) =
        round_count (length (cells q)) (share q avg) (length (cells p)) goal down (sized q) up
          (above.nodes p on_p) in
      let ne : p ≢ q = λ e.
        let same : length (cells p) ≡ length (cells q) = ap (λ y. length (cells y)) e in
        let same' : share p avg ≡ share q avg = ap (λ y. share y avg) e in
        omega (arith, up, down, same, same') in
      let (h', owner', cells', ran, all', moved) =
        transfer_n_nodes-AreLists ps owner cells after h p q n all in_p in_q ne some_n
          (omega (arith, left)) (above.elements p on_p) in
      let (lp', i_p') = all'.lists p in_p in
      let (lq', i_q') = all'.lists q in_q in
      let (forth, back) = Moved-NoneLost ps p q n cells cells' in_p in_q moved in
      let t = length (cells' p) == goal in
      let u = length (cells' q) == share q avg in
      let fewer = moved.fewer in
      let more = moved.more in
      let one : (t || u) ≡ true = elim hits [
        | inl full ↦ ground (arith, more, full)
        | inr empty ↦ ground (arith, fewer, empty)
      ] in
      (
        h',
        owner',
        cells',
        record {
          rem = rem - one_if (ltb 0 rem && t);
          pos_stack = if t then pos else p ∷ pos;
          neg_stack = if u then neg else q ∷ neg;
        },
        rw
            (
              i_p.in_list, i_q.in_list, i_p.nodes, i_q.nodes, count, ran, i_p'.in_list,
              i_q'.in_list, i_p'.nodes, i_q'.nodes,
            )
            refl,
        (
          all',
          pos_round share avg ps on p q pos neg rem n cells cells' above below moved room left t
              refl,
          neg_round share avg ps on p q pos neg rem n cells cells' above below moved room left u
              refl,
        ),
        stacks_shrink p q pos neg t u one,
        forth,
        back,
      )

  pub transfer_loop-Balancing :
      (fuel : ℕ) (pos neg : List Ptr) (rem : ℕ) (owner : Ptr → Ptr) (cells : Ptr → Cells)
      (h : Memory)
      → length pos + length neg < fuel
      → Balancing (record { rem = rem; pos_stack = pos; neg_stack = neg }) owner cells h
      → (h' : Memory) × (owner' : Ptr → Ptr) × (cells' : Ptr → Cells) × (plan : Plan)
        × (transfer_loop share avg fuel pos neg rem h ≡ some (plan, h'))
        × Balancing plan owner' cells' h'
        × ((plan.pos_stack ≡ []) ⊎ (plan.neg_stack ≡ []))
        × NoneLost ps cells cells'
        × NoneLost ps cells' cells
  unfolding transfer_loop
  transfer_loop-Balancing zero pos neg rem owner cells h enough now = absurd (omega arith)
  transfer_loop-Balancing (suc fuel) [] neg rem owner cells h enough now = (
    h,
    owner,
    cells,
    record { rem = rem; pos_stack = []; neg_stack = neg },
    refl,
    now,
    inl refl,
    λ x r in_x at. (x, in_x, at),
    λ x r in_x at. (x, in_x, at),
  )
  transfer_loop-Balancing (suc fuel) (p ∷ pos) [] rem owner cells h enough now = (
    h,
    owner,
    cells,
    record { rem = rem; pos_stack = p ∷ pos; neg_stack = [] },
    refl,
    now,
    inr refl,
    λ x r in_x at. (x, in_x, at),
    λ x r in_x at. (x, in_x, at),
  )
  transfer_loop-Balancing (suc fuel) (p ∷ pos) (q ∷ neg) rem owner cells h enough now =
      let (h1, owner1, cells1, plan1, ran, now1, shrink, forth, back) =
        transfer_round-Balancing p q pos neg rem owner cells h now in
      let (h2, owner2, cells2, plan2, ran', now2, done, forth', back') =
        transfer_loop-Balancing fuel plan1.pos_stack plan1.neg_stack plan1.rem owner1 cells1 h1
          (omega (arith, shrink, enough)) now1 in
      (
        h2,
        owner2,
        cells2,
        plan2,
        rw ran ran',
        now2,
        done,
        NoneLost-trans ps cells cells1 cells2 forth forth',
        NoneLost-trans ps cells2 cells1 cells back' back,
      )
