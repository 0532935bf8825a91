-- ===== src/Balance/Push.antt =====
-- How a balance puts the lists of a domain on its stacks.
use mathlib.Core.Path.{subst}
use puma.Base.{
  ℕ, ◌+◌, ◌<◌, ◌≤◌, ◌^◌, ◌≡◌, sym, ap, ◌∙◌, arith, Bool, true, false, none, some, Option, List, [],
  ◌∷◌, length, ltb, ℕ_discrete, Bool-cases, inl, inr,
}
use puma.Memory.{Ptr, Memory, ThreadList}
use puma.Node.Chain.{Cells, total_elements}
use puma.Balance.Auto.{one_if}
use puma.Balance.Shape.{is_among}
use puma.Balance.Stacks.{PosStack, NegStack}

-- `active` of the list at an address.
abbrev list_is_active : Option ThreadList → Bool
list_is_active none = false
list_is_active (some l) = l.active

abbrev pub is_on : Memory → Ptr → Bool
is_on h p = list_is_active (h.list p)

abbrev pub how_many_on : Memory → List Ptr → ℕ
how_many_on h [] = 0
how_many_on h (p ∷ rest) = one_if (is_on h p) + how_many_on h rest

module _ (share : Ptr → ℕ → ℕ) (avg : ℕ) (on : Ptr → Bool) (p : Ptr) (seen : List Ptr)
    (cells : Ptr → Cells) (new : is_among p seen ≡ false) where
  -- A list of which more nodes than it gets are not left, or which is not active, is not put on the
  -- first stack.
  pub pos_skip :
      (pos : List Ptr) (rem rem' : ℕ)
      → PosStack share avg seen on pos rem cells
      → one_if (ltb 0 rem') ≤ one_if (ltb 0 rem)
      → (on p ≡ true → length (cells p) ≤ share p avg + 1)
      → PosStack share avg (p ∷ seen) on pos rem' cells
  pos_skip pos rem rem' stack less small = record {
    inside = λ x at. let there = stack.inside x at in ground (arith, there);
    distinct = stack.distinct;
    above = λ x at. let up = stack.above x at in omega (arith, up, less);
    nodes = stack.nodes;
    elements = stack.elements;
    others = λ x in_x is_on' gone. elim (ℕ_discrete x p) [
      | yes e ↦
          let here = small (ap on (sym e) ∙ is_on') in
          subst (λ y. length (cells y) ≤ share y avg + 1) (sym e) here
      | no other ↦ stack.others x (ground (arith, in_x, other)) is_on' gone
    ];
  }

  pub pos_push :
      (pos : List Ptr) (rem rem' : ℕ)
      → PosStack share avg seen on pos rem cells
      → one_if (ltb 0 rem') ≤ one_if (ltb 0 rem)
      → share p avg + one_if (ltb 0 rem') < length (cells p)
      → length (cells p) < 2 ^ 64
      → total_elements (cells p) < 2 ^ 64
      → PosStack share avg (p ∷ seen) on (p ∷ pos) rem' cells
  pos_push pos rem rem' stack less up nodes elements = record {
    inside = λ x at. elim (ℕ_discrete x p) [
      | yes e ↦ ground (arith, e)
      | no other ↦ let there = stack.inside x (ground (arith, at, other)) in ground (arith, there)
    ];
    distinct = (fresh pos stack.inside, stack.distinct);
    above = λ x at. elim (ℕ_discrete x p) [
      | yes e ↦ subst (λ y. share y avg + one_if (ltb 0 rem') < length (cells y)) (sym e) up
      | no other ↦
          let before = stack.above x (ground (arith, at, other)) in omega (arith, before, less)
    ];
    nodes = λ x at. elim (ℕ_discrete x p) [
      | yes e ↦ subst (λ y. length (cells y) < 2 ^ 64) (sym e) nodes
      | no other ↦ stack.nodes x (ground (arith, at, other))
    ];
    elements = λ x at. elim (ℕ_discrete x p) [
      | yes e ↦ subst (λ y. total_elements (cells y) < 2 ^ 64) (sym e) elements
      | no other ↦ stack.elements x (ground (arith, at, other))
    ];
    others = λ x in_x is_on' gone.
        stack.others x (ground (arith, in_x, gone)) is_on' (ground (arith, gone));
  }
    where
      fresh :
          (pos : List Ptr)
          → ((x : Ptr) → is_among x pos ≡ true → is_among x seen ≡ true)
          → is_among p pos ≡ false
      fresh pos inside = elim (Bool-cases (is_among p pos)) [
        | inl at ↦ let there = inside p at in ground (arith, there, new)
        | inr gone ↦ gone
      ]

  pub neg_skip :
      (neg : List Ptr)
      → NegStack share avg seen on neg cells
      → (on p ≡ true → share p avg ≤ length (cells p))
      → NegStack share avg (p ∷ seen) on neg cells
  neg_skip neg stack large = record {
    inside = λ x at. let there = stack.inside x at in ground (arith, there);
    distinct = stack.distinct;
    below = stack.below;
    others = λ x in_x is_on' gone. elim (ℕ_discrete x p) [
      | yes e ↦
          let here = large (ap on (sym e) ∙ is_on') in
          subst (λ y. share y avg ≤ length (cells y)) (sym e) here
      | no other ↦ stack.others x (ground (arith, in_x, other)) is_on' gone
    ];
  }

  pub neg_push :
      (neg : List Ptr)
      → NegStack share avg seen on neg cells
      → length (cells p) < share p avg
      → NegStack share avg (p ∷ seen) on (p ∷ neg) cells
  neg_push neg stack down = record {
    inside = λ x at. elim (ℕ_discrete x p) [
      | yes e ↦ ground (arith, e)
      | no other ↦ let there = stack.inside x (ground (arith, at, other)) in ground (arith, there)
    ];
    distinct = (
      elim (Bool-cases (is_among p neg)) [
        | inl at ↦ let there = stack.inside p at in ground (arith, there, new)
        | inr gone ↦ gone
      ],
      stack.distinct,
    );
    below = λ x at. elim (ℕ_discrete x p) [
      | yes e ↦ subst (λ y. length (cells y) < share y avg) (sym e) down
      | no other ↦ stack.below x (ground (arith, at, other))
    ];
    others = λ x in_x is_on' gone.
        stack.others x (ground (arith, in_x, gone)) is_on' (ground (arith, gone));
  }
