-- ===== src/Node/Chain.antt =====
-- The nodes of a thread list as a doubly linked chain in memory, with the list of them that it
-- stands for.
use puma.Base.{
  ℕ, ◌+◌, ◌≡◌, refl, ◌∙◌, arith, Bool, true, false, Option, some, List, [], ◌∷◌, ◌==◌, ◌||◌, ◌++◌,
  ℕ_discrete,
}
use puma.Memory.{Ptr, null, Node}

-- The nodes of a chain with their addresses, in order.
abbrev pub Cells : Type 0
Cells = List (Ptr × Node)

abbrev pub first_of : Cells → Ptr → Ptr
first_of [] after = after
first_of ((p, n) ∷ rest) after = p

-- From the one behind `before` to the one in front of `after`, the nodes in memory are those of the
-- list, and their `next` and `prev` lead from each to its neighbours.
abbrev pub Linked : (Ptr → Option Node) → (before : Ptr) → Cells → (after : Ptr) → Type 0
Linked m before [] after = Unit
Linked m before ((p, n) ∷ rest) after =
    (m p ≡ some n)
    × ((p == null) ≡ false)
    × (n.prev ≡ before)
    × (n.next ≡ first_of rest after)
    × Linked m p rest after

abbrev pub total_elements : Cells → ℕ
total_elements [] = 0
total_elements ((p, n) ∷ rest) = n.num_elements + total_elements rest

-- Whether a node of the chain is at `q`.
abbrev pub has : Ptr → Cells → Bool
has q [] = false
has q ((p, n) ∷ rest) = (p == q) || has q rest

-- No two nodes at one address.
abbrev pub Apart : Cells → Type 0
Apart [] = Unit
Apart ((p, n) ∷ rest) = (has p rest ≡ false) × Apart rest

-- A chain does not change with memory at other addresses.
pub Linked-frame :
    (m m' : Ptr → Option Node) (before after : Ptr) (cells : Cells)
    → ((q : Ptr) → has q cells ≡ true → m' q ≡ m q)
    → Linked m before cells after
    → Linked m' before cells after
Linked-frame m m' before after [] same linked = tt
Linked-frame m m' before after ((p, n) ∷ rest) same (at_p, live, back, forward, others) = (
  same p (ground arith) ∙ at_p,
  live,
  back,
  forward,
  Linked-frame m m' p after rest (λ q h. same q (ground arith)) others,
)

pub has-++ : (q : Ptr) (xs ys : Cells) → has q (xs ++ ys) ≡ has q xs || has q ys
has-++ q [] ys = refl
has-++ q ((p, n) ∷ xs) ys = let rest = has-++ q xs ys in ground (arith, rest)

pub Apart-++ :
    (xs ys : Cells)
    → Apart (xs ++ ys)
    → Apart xs × Apart ys × ((q : Ptr) → has q ys ≡ true → has q xs ≡ false)
Apart-++ [] ys apart = (tt, apart, λ q at. refl)
Apart-++ ((p, n) ∷ xs) ys (new, apart) =
    let (apart_xs, apart_ys, cross) = Apart-++ xs ys apart in
    let here = has-++ p xs ys in
    (
      (ground (arith, here, new), apart_xs),
      apart_ys,
      λ q at. elim (ℕ_discrete p q) [
        | yes same ↦ let at_p : has p ys ≡ true = rw same at in ground (arith, here, new, at_p)
        | no ne ↦ ground (arith, cross q at)
      ],
    )
