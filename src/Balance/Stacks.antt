-- ===== src/Balance/Stacks.antt =====
-- The two stacks of a balance, and how many nodes a round moves between their tops.
use puma.Base.{
  ℕ, ◌+◌, ◌-◌, ◌<◌, ◌≤◌, ◌^◌, ◌≡◌, arith, Bool, true, false, List, length, ltb, Bool-cases, inl,
  inr, ◌⊎◌,
}
use puma.Word.{sub64}
use puma.Memory.{Ptr}
use puma.Node.Chain.{Cells, total_elements}
use puma.Balance.Auto.{min_size, one_if}
use puma.Balance.Shape.{is_among, Distinct}

-- How many nodes a round moves.
pub round_count :
    (nq sq np goal : ℕ)
    → nq < sq
    → sq < 2 ^ 64
    → goal < np
    → np < 2 ^ 64
    → (n : ℕ) × (min_size (sub64 sq nq) (sub64 np goal) ≡ n)
      × (0 < n)
      × (nq + n ≤ sq)
      × (goal + n ≤ np)
      × ((nq + n ≡ sq) ⊎ (np - n ≡ goal))
unfolding min_size
round_count nq sq np goal less small more small' =
    let a : sub64 sq nq ≡ sq - nq = omega arith in
    let b : sub64 np goal ≡ np - goal = omega arith in
    elim (Bool-cases (ltb (sq - nq) (np - goal))) [
      | inl lt ↦
          let lt' : sq - nq < np - goal = ground (arith, lt) in
          (
            sq - nq,
            rw (a, b, lt) (omega arith),
            omega arith,
            omega arith,
            omega arith,
            inl (omega arith),
          )
      | inr ge ↦
          let ge' : np - goal ≤ sq - nq = ground (arith, ge) in
          (
            np - goal,
            rw (a, b, ge) (omega arith),
            omega arith,
            omega arith,
            omega arith,
            inr (omega arith),
          )
    ]

-- `share` is the part of the nodes that a list gets; `on` says which lists are active.
module _ (share : Ptr → ℕ → ℕ) (avg : ℕ) (ps : List Ptr) (on : Ptr → Bool) where
  -- The lists on the stack have more nodes than they get; no other active list has.
  pub record PosStack (pos : List Ptr) (rem : ℕ) (cells : Ptr → Cells) : Type 0 where
    pub inside : (p : Ptr) → is_among p pos ≡ true → is_among p ps ≡ true
    pub distinct : Distinct pos
    pub above :
        (p : Ptr) → is_among p pos ≡ true → share p avg + one_if (ltb 0 rem) < length (cells p)
    pub nodes : (p : Ptr) → is_among p pos ≡ true → length (cells p) < 2 ^ 64
    pub elements : (p : Ptr) → is_among p pos ≡ true → total_elements (cells p) < 2 ^ 64
    pub others :
        (p : Ptr)
        → is_among p ps ≡ true
        → on p ≡ true
        → is_among p pos ≡ false
        → length (cells p) ≤ share p avg + 1

  -- The lists on the stack have fewer nodes than they get; no other active list has.
  pub record NegStack (neg : List Ptr) (cells : Ptr → Cells) : Type 0 where
    pub inside : (p : Ptr) → is_among p neg ≡ true → is_among p ps ≡ true
    pub distinct : Distinct neg
    pub below : (p : Ptr) → is_among p neg ≡ true → length (cells p) < share p avg
    pub others :
        (p : Ptr)
        → is_among p ps ≡ true
        → on p ≡ true
        → is_among p neg ≡ false
        → share p avg ≤ length (cells p)
