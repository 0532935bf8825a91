-- ===== src/Balance/Level.antt =====
-- A balance of the thread lists of a domain from its start to its end.
use puma.Base.{
  ℕ, ◌+◌, ◌-◌, ◌<◌, ◌≤◌, ◌^◌, ◌≡◌, refl, ap, ◌∙◌, arith, true, false, ◌&&◌, some, List, [], ◌∷◌,
  ◌==◌, ◌||◌, length, ltb, ℕ_discrete, Bool-cases, inl, inr,
}
use puma.Memory.{Ptr, Memory, ThreadList, load_list}
use puma.Node.Chain.{Cells, total_elements}
use puma.Balance.Auto.{one_if, Plan, push_list, push_lists}
use puma.Balance.Shape.{is_among, Distinct}
use puma.Balance.Transfer.{IsList}
use puma.Balance.Stacks.{PosStack, NegStack}
use puma.Balance.Push.{is_on, how_many_on, pos_skip, pos_push, neg_skip, neg_push}

less_rem : (rem k : ℕ) → one_if (ltb 0 (rem - k)) ≤ one_if (ltb 0 rem)
less_rem rem k = ground arith

module _ (share : Ptr → ℕ → ℕ) (avg num_lists : ℕ) (cells : Ptr → Cells) (h : Memory) where
  -- The stacks of a plan when the lists `seen` have been looked at.
  abbrev Stacked : (seen : List Ptr) → Plan → Type 0
  Stacked seen plan =
      PosStack share avg seen (is_on h) plan.pos_stack plan.rem cells
      × NegStack share avg seen (is_on h) plan.neg_stack cells

  abbrev Room : (room : ℕ) → Plan → Type 0
  Room room plan =
      (length plan.pos_stack + room ≤ num_lists) × (length plan.neg_stack + room ≤ num_lists)

  push_list-Stacked :
      (p : Ptr) (l : ThreadList) (seen : List Ptr) (plan : Plan) (room : ℕ)
      → h.list p ≡ some l
      → l.num_nodes ≡ length (cells p)
      → length (cells p) < 2 ^ 64
      → total_elements (cells p) < 2 ^ 64
      → is_among p seen ≡ false
      → Stacked seen plan
      → Room (one_if (is_on h p) + room) plan
      → (plan' : Plan) × (push_list share num_lists avg p plan h ≡ some (plan', h))
        × Stacked (p ∷ seen) plan'
        × Room room plan'
  unfolding push_list load_list
  push_list-Stacked p l seen plan room at_p size nodes elements new (pos, neg)
        (room_pos, room_neg) =
      let flag : is_on h p ≡ l.active = rw at_p refl in
      elim (Bool-cases l.active) [
        | inr off ↦ (
          plan,
          rw (at_p, off) refl,
          (
            pos_skip share avg (is_on h) p seen cells new plan.pos_stack plan.rem plan.rem pos
                (omega arith) (λ yes. ground (arith, yes, flag, off)),
            neg_skip share avg (is_on h) p seen cells new plan.neg_stack neg
                (λ yes. ground (arith, yes, flag, off)),
          ),
          (omega (arith, room_pos), omega (arith, room_neg)),
        )
        | inl on ↦
            let one : one_if (is_on h p) ≡ 1 = rw (flag, on) refl in
            let rem = plan.rem - one_if (ltb 0 plan.rem && (l.num_nodes == share p avg + 1)) in
            let less =
              less_rem plan.rem (one_if (ltb 0 plan.rem && (l.num_nodes == share p avg + 1))) in
            elim (Bool-cases (ltb (share p avg + one_if (ltb 0 rem)) l.num_nodes)) [
              | inl more ↦
                  let few : ltb (length plan.pos_stack) num_lists ≡ true =
                    ground (arith, room_pos, one) in
                  let up : share p avg + one_if (ltb 0 rem) < length (cells p) =
                    ground (arith, more, size) in
                  (
                    record plan { rem = rem; pos_stack = p ∷ plan.pos_stack },
                    rw (at_p, on, more, few) refl,
                    (
                      pos_push share avg (is_on h) p seen cells new plan.pos_stack plan.rem rem pos
                          less up nodes elements,
                      neg_skip share avg (is_on h) p seen cells new plan.neg_stack neg
                          (λ yes. omega (arith, up)),
                    ),
                    (omega (arith, room_pos, one), omega (arith, room_neg)),
                  )
              | inr less_nodes ↦
                  let most : length (cells p) ≤ share p avg + 1 =
                    ground (arith, less_nodes, size) in
                  elim (Bool-cases (ltb l.num_nodes (share p avg))) [
                    | inl fewer ↦
                        let few : ltb (length plan.neg_stack) num_lists ≡ true =
                          ground (arith, room_neg, one) in
                        (
                          record plan { rem = rem; neg_stack = p ∷ plan.neg_stack },
                          rw (at_p, on, less_nodes, fewer, few) refl,
                          (
                            pos_skip share avg (is_on h) p seen cells new plan.pos_stack plan.rem
                                rem pos less (λ yes. most),
                            neg_push share avg (is_on h) p seen cells new plan.neg_stack neg
                                (ground (arith, fewer, size)),
                          ),
                          (omega (arith, room_pos), omega (arith, room_neg, one)),
                        )
                    | inr enough ↦ (
                      record plan { rem = rem },
                      rw (at_p, on, less_nodes, enough) refl,
                      (
                        pos_skip share avg (is_on h) p seen cells new plan.pos_stack plan.rem rem
                            pos less (λ yes. most),
                        neg_skip share avg (is_on h) p seen cells new plan.neg_stack neg
                            (λ yes. ground (arith, enough, size)),
                      ),
                      (omega (arith, room_pos), omega (arith, room_neg)),
                    )
                  ]
            ]
      ]

  -- The lists yet to be looked at.
  pub push_lists-Stacked :
      (todo seen : List Ptr) (plan : Plan) (after : Ptr → Ptr)
      → Distinct todo
      → ((p : Ptr)
          → is_among p todo ≡ true
          → (is_among p seen ≡ false)
            × ((l : ThreadList) × IsList h p l (cells p) (after p))
            × (length (cells p) < 2 ^ 64)
            × (total_elements (cells p) < 2 ^ 64))
      → Stacked seen plan
      → Room (how_many_on h todo) plan
      → (plan' : Plan) × (all : List Ptr) × (push_lists share num_lists avg todo plan h
          ≡ some (plan', h))
        × Stacked all plan'
        × ((p : Ptr) → is_among p all ≡ (is_among p seen || is_among p todo))
  unfolding push_lists
  push_lists-Stacked [] seen plan after distinct each stacked room =
      (plan, seen, refl, stacked, λ p. ground arith)
  push_lists-Stacked (p ∷ rest) seen plan after (new, distinct) each stacked room =
      let (unseen, (l, i), nodes, elements) = each p (ground arith) in
      let (plan1, ran, stacked1, room1) =
        push_list-Stacked p l seen plan (how_many_on h rest) i.in_list i.nodes nodes elements unseen
          stacked room in
      let (plan2, all, ran', stacked2, same) =
        push_lists-Stacked rest (p ∷ seen) plan1 after distinct
          (λ x at.
            let (unseen', i', nodes', elements') = each x (ground (arith, at)) in
            let other : (p == x) ≡ false = elim (ℕ_discrete p x) [
              | yes e ↦
                  let here : is_among p rest ≡ true = ap (λ y. is_among y rest) e ∙ at in
                  ground (arith, here, new)
              | no ne ↦ ground (arith, ne)
            ] in
            (ground (arith, unseen', other), i', nodes', elements'))
          stacked1 room1 in
      (plan2, all, rw ran ran', stacked2, λ x. let here = same x in ground (arith, here))
