-- ===== src/Balance/Round.antt =====
-- What a round of the loop of a balance does to its stacks.
use mathlib.Core.Path.{subst}
use puma.Base.{
  ℕ, ◌+◌, ◌-◌, ◌<◌, ◌≤◌, ◌^◌, ◌≡◌, ◌≢◌, sym, ap, ◌∙◌, arith, Bool, true, false, ◌&&◌, List, ◌∷◌,
  ◌==◌, length, ltb, if◌then◌else◌, ℕ_discrete,
}
use puma.Memory.{Ptr}
use puma.Node.Chain.{Cells, total_elements}
use puma.Balance.Auto.{one_if}
use puma.Balance.Shape.{is_among}
use puma.Balance.Between.{Moved}
use puma.Balance.Stacks.{PosStack, NegStack}

module _ (share : Ptr → ℕ → ℕ) (avg : ℕ) (ps : List Ptr) (on : Ptr → Bool) where
  module _ (p q : Ptr) (pos neg : List Ptr) (rem n : ℕ) (cells cells' : Ptr → Cells)
      (above : PosStack share avg ps on (p ∷ pos) rem cells)
      (below : NegStack share avg ps on (q ∷ neg) cells) (moved : Moved n p q cells cells')
      (room : length (cells q) + n ≤ share q avg)
      (left : share p avg + one_if (ltb 0 rem) + n ≤ length (cells p)) where
    abbrev goal : ℕ
    goal = share p avg + one_if (ltb 0 rem)

    -- Of the lists on the first stack, only `p` changes.
    pos-same : (x : Ptr) → is_among x (p ∷ pos) ≡ true → x ≢ p → cells' x ≡ cells x
    pos-same x at other = moved.others x other (λ e.
        let up = above.above x at in
        let down = below.below q (ground arith) in
        let same : length (cells x) ≡ length (cells q) = ap (λ y. length (cells y)) e in
        let same' : share x avg ≡ share q avg = ap (λ y. share y avg) e in
        omega (arith, up, down, same, same'))

    neg-same : (x : Ptr) → is_among x (q ∷ neg) ≡ true → x ≢ q → cells' x ≡ cells x
    neg-same x at other =
        moved.others x
          (λ e.
            let down = below.below x at in
            let up = above.above p (ground arith) in
            let same : length (cells x) ≡ length (cells p) = ap (λ y. length (cells y)) e in
            let same' : share x avg ≡ share p avg = ap (λ y. share y avg) e in
            omega (arith, up, down, same, same'))
          other

    at_goal : length (cells' p) ≡ length (cells p) - n
    at_goal = moved.fewer

    not-p : (x : Ptr) → is_among x pos ≡ true → x ≢ p
    not-p x at e =
        let here : is_among p pos ≡ true = ap (λ y. is_among y pos) (sym e) ∙ at in
        let gone = above.distinct.0 in ground (arith, here, gone)

    not-q : (x : Ptr) → is_among x neg ≡ true → x ≢ q
    not-q x at e =
        let here : is_among q neg ≡ true = ap (λ y. is_among y neg) (sym e) ∙ at in
        let gone = below.distinct.0 in ground (arith, here, gone)

    one_if-less : (k : ℕ) → one_if (ltb 0 (rem - k)) ≤ one_if (ltb 0 rem)
    one_if-less k = ground arith

    -- A list that is not on the first stack, behind the round.
    pos_others :
        (x : Ptr)
        → is_among x ps ≡ true
        → on x ≡ true
        → is_among x pos ≡ false
        → x ≢ p
        → length (cells' x) ≤ share x avg + 1
    pos_others x in_x is_on gone other = elim (ℕ_discrete x q) [
      | yes e ↦
          let more = moved.more in
          let small : length (cells' q) ≤ share q avg + 1 = omega (arith, more, room) in
          subst (λ y. length (cells' y) ≤ share y avg + 1) (sym e) small
      | no other' ↦
          let same = moved.others x other other' in
          let small = above.others x in_x is_on (ground (arith, gone, other)) in rw same small
    ]

    neg_others :
        (x : Ptr)
        → is_among x ps ≡ true
        → on x ≡ true
        → is_among x neg ≡ false
        → x ≢ q
        → share x avg ≤ length (cells' x)
    neg_others x in_x is_on gone other = elim (ℕ_discrete x p) [
      | yes e ↦
          let large : share p avg ≤ length (cells' p) = omega (arith, at_goal, left) in
          subst (λ y. share y avg ≤ length (cells' y)) (sym e) large
      | no other' ↦
          let same = moved.others x other' other in
          let large = below.others x in_x is_on (ground (arith, gone, other)) in rw same large
    ]

    pub pos_round :
        (t : Bool)
        → (length (cells' p) == goal) ≡ t
        → PosStack share avg ps on
            (if t then pos else p ∷ pos)
            (rem - one_if (ltb 0 rem && t))
            cells'
    pos_round true hit = record {
      inside = λ x at. above.inside x (ground (arith, at));
      distinct = above.distinct.1;
      above = λ x at.
          let on_stack : is_among x (p ∷ pos) ≡ true = ground (arith, at) in
          let same = pos-same x on_stack (not-p x at) in
          let up = above.above x on_stack in
          let less = one_if-less (one_if (ltb 0 rem && true)) in rw same (omega (arith, up, less));
      nodes = λ x at.
          let on_stack : is_among x (p ∷ pos) ≡ true = ground (arith, at) in
          rw (pos-same x on_stack (not-p x at)) (above.nodes x on_stack);
      elements = λ x at.
          let on_stack : is_among x (p ∷ pos) ≡ true = ground (arith, at) in
          rw (pos-same x on_stack (not-p x at)) (above.elements x on_stack);
      others = λ x in_x is_on gone. elim (ℕ_discrete x p) [
        | yes e ↦
            let small : length (cells' p) ≤ share p avg + 1 = ground (arith, hit) in
            subst (λ y. length (cells' y) ≤ share y avg + 1) (sym e) small
        | no other ↦ pos_others x in_x is_on gone other
      ];
    }
    pos_round false miss =
        let same_rem : rem - one_if (ltb 0 rem && false) ≡ rem = ground arith in
        record {
          inside = above.inside;
          distinct = above.distinct;
          above = λ x at. elim (ℕ_discrete x p) [
            | yes e ↦
                let up : share p avg + one_if (ltb 0 rem) < length (cells' p) =
                  ground (arith, miss, at_goal, left) in
                let up' : share p avg + one_if (ltb 0 (rem - one_if (ltb 0 rem && false)))
                    < length (cells' p) =
                  rw same_rem up in
                subst
                  (λ y.
                    share y avg + one_if (ltb 0 (rem - one_if (ltb 0 rem && false)))
                    < length (cells' y))
                  (sym e) up'
            | no other ↦ rw (pos-same x at other, same_rem) (above.above x at)
          ];
          nodes = λ x at. elim (ℕ_discrete x p) [
            | yes e ↦
                let before = above.nodes p (ground arith) in
                let small : length (cells' p) < 2 ^ 64 = omega (arith, before, at_goal) in
                subst (λ y. length (cells' y) < 2 ^ 64) (sym e) small
            | no other ↦ rw (pos-same x at other) (above.nodes x at)
          ];
          elements = λ x at. elim (ℕ_discrete x p) [
            | yes e ↦
                let before = above.elements p (ground arith) in
                let fewer = moved.elements in
                let small : total_elements (cells' p) < 2 ^ 64 = omega (arith, before, fewer) in
                subst (λ y. total_elements (cells' y) < 2 ^ 64) (sym e) small
            | no other ↦ rw (pos-same x at other) (above.elements x at)
          ];
          others = λ x in_x is_on gone.
              pos_others x in_x is_on (ground (arith, gone)) (λ e. ground (arith, gone, e));
        }

    pub neg_round :
        (t : Bool)
        → (length (cells' q) == share q avg) ≡ t
        → NegStack share avg ps on (if t then neg else q ∷ neg) cells'
    neg_round true hit = record {
      inside = λ x at. below.inside x (ground (arith, at));
      distinct = below.distinct.1;
      below = λ x at.
          let on_stack : is_among x (q ∷ neg) ≡ true = ground (arith, at) in
          rw (neg-same x on_stack (not-q x at)) (below.below x on_stack);
      others = λ x in_x is_on gone. elim (ℕ_discrete x q) [
        | yes e ↦
            let large : share q avg ≤ length (cells' q) = ground (arith, hit) in
            subst (λ y. share y avg ≤ length (cells' y)) (sym e) large
        | no other ↦ neg_others x in_x is_on gone other
      ];
    }
    neg_round false miss = record {
      inside = below.inside;
      distinct = below.distinct;
      below = λ x at. elim (ℕ_discrete x q) [
        | yes e ↦
            let more = moved.more in
            let down : length (cells' q) < share q avg = ground (arith, miss, more, room) in
            subst (λ y. length (cells' y) < share y avg) (sym e) down
        | no other ↦ rw (neg-same x at other) (below.below x at)
      ];
      others = λ x in_x is_on gone.
          neg_others x in_x is_on (ground (arith, gone)) (λ e. ground (arith, gone, e));
    }
