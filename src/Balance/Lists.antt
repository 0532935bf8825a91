-- ===== src/Balance/Lists.antt =====
-- Several thread lists, each with its nodes, and a transfer between two of them.
use mathlib.Core.Path.{subst}
use puma.Base.{
  ℕ, suc, ◌<◌, ◌≤◌, ◌≡◌, ◌≢◌, refl, sym, ap, ◌∙◌, arith, true, false, List, [], ◌∷◌, ◌++◌, length,
  ℕ_discrete,
}
use puma.Memory.{Ptr, null, Node, ThreadList, Memory, update}
use puma.Node.Chain.{Cells, Linked-frame, has, has-++, Apart}
use puma.Balance.Segment.{StopsAt}
use puma.Balance.Shape.{is_among}
use puma.Balance.Splice.{StopsAt-frame}
use puma.Balance.Transfer.{IsList}

-- The lists at `ps` have the nodes `cells`, with `after` behind them. No node is in two lists, or twice
-- in one: `owner` gives the list that a node is in.
pub record AreLists (ps : List Ptr) (owner : Ptr → Ptr) (cells : Ptr → Cells) (after : Ptr → Ptr)
    (h : Memory) : Type 0 where
  pub lists : (p : Ptr) → is_among p ps ≡ true → (l : ThreadList) × IsList h p l (cells p) (after p)
  pub apart : (p : Ptr) → is_among p ps ≡ true → Apart (cells p)
  pub owned : (p r : Ptr) → is_among p ps ≡ true → has r (cells p) ≡ true → owner r ≡ p
  pub outside :
      (p q : Ptr) → is_among p ps ≡ true → is_among q ps ≡ true → has (after p) (cells q) ≡ false

-- The last nodes of a list, and those in front of them.
pub last_cells :
    (n : ℕ) (cells : Cells)
    → 0 < n
    → n ≤ length cells
    → (kept : Cells) × (b : Ptr) × (nb : Node) × (bs : Cells) × (cells ≡ kept ++ (b, nb) ∷ bs)
      × (length ((b, nb) ∷ bs) ≡ n)
last_cells n [] some_n enough = absurd (omega arith)
last_cells n ((p, x) ∷ rest) some_n enough = elim (ℕ_discrete n (suc (length rest))) [
  | yes all ↦ ([], p, x, rest, refl, sym all)
  | no ne ↦
      let (kept, b, nb, bs, e, size) = last_cells n rest some_n (omega arith) in
      ((p, x) ∷ kept, b, nb, bs, ap (λ c. (p, x) ∷ c) e, size)
]

pub ++-Apart :
    (xs ys : Cells)
    → Apart xs
    → Apart ys
    → ((q : Ptr) → has q xs ≡ true → has q ys ≡ false)
    → Apart (xs ++ ys)
++-Apart [] ys apart apart' cross = apart'
++-Apart ((p, n) ∷ xs) ys (new, apart) apart' cross =
    let here = has-++ p xs ys in
    let other = cross p (ground arith) in
    (
      ground (arith, here, new, other),
      ++-Apart xs ys apart apart' (λ q at. cross q (ground (arith, at))),
    )

pub cells-same : (m : Ptr → Cells) (p : Ptr) (x : Cells) → update m p x p ≡ x
cells-same m p x = ground arith

pub cells-other : (m : Ptr → Cells) (p q : Ptr) (x : Cells) → p ≢ q → update m p x q ≡ m q
cells-other m p q x ne = ground arith

-- A list that is none of those of a transfer.
pub other-IsList :
    (h h' : Memory) (f_after t_after x after : Ptr) (l : ThreadList) (cells changed : Cells)
    → h'.list x ≡ h.list x
    → ((q : Ptr) → has q changed ≡ false → f_after ≢ q → t_after ≢ q → h'.node q ≡ h.node q)
    → ((q : Ptr) → has q cells ≡ true → has q changed ≡ false)
    → has f_after cells ≡ false
    → has t_after cells ≡ false
    → has after changed ≡ false
    → StopsAt h'.node f_after
    → StopsAt h'.node t_after
    → IsList h x l cells after
    → IsList h' x l cells after
other-IsList h h' f_after t_after x after l cells changed list same separate no_f no_t new f_stops
      t_stops i =
    record {
      in_list = list ∙ i.in_list;
      linked =
          Linked-frame h.node h'.node null after cells
            (λ q at.
              same q (separate q at)
                (λ e. let at_f : has f_after cells ≡ true = rw e at in ground (arith, at_f, no_f))
                (λ e. let at_t : has t_after cells ≡ true = rw e at in ground (arith, at_t, no_t)))
            i.linked;
      head = i.head;
      tail = i.tail;
      nodes = i.nodes;
      elements = i.elements;
      counted = i.counted;
      stops = elim (ℕ_discrete f_after after) [
        | yes e ↦ subst (StopsAt h'.node) e f_stops
        | no ne ↦ elim (ℕ_discrete t_after after) [
          | yes e ↦ subst (StopsAt h'.node) e t_stops
          | no ne' ↦ StopsAt-frame h.node h'.node after (same after new ne ne') i.stops
        ]
      ];
    }
