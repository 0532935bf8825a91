-- ===== src/Node/Filled.antt =====
-- Nodes whose elements in use come first, as allocation and clean-up leave them.
use puma.Base.{
  ℕ, zero, suc, ◌-◌, ◌/◌, ◌%◌, ◌≤◌, ◌<◌, ◌≡◌, refl, ap, ◌∙◌, arith, some, get_or, ℕ_discrete,
}
use puma.Bits.{bit-lt}
use puma.Bitmask.{Bitmask, bitmask_get, mask_free, mask_not_free}
use puma.Bitmask.Access.{bit_at, bitmask_get-bit_at}
use puma.Memory.{Ptr, Node}
use puma.Util.{Config}
use puma.Node.Invariant.{IsNode, used}

-- A node is compact when its elements in use are its first ones.
abbrev pub IsCompact : Node → Type 0
IsCompact n = (j : ℕ) → j < n.num_elements → bitmask_get n.free_mask j ≡ some mask_not_free

-- A compact node whose next place to be tried is the one behind its elements.
pub record IsFilled (c : Config) (p : Ptr) (n : Node) : Type 0 where
  pub node : IsNode c p n
  pub compact : IsCompact n
  pub next : n.first_known_free ≡ n.num_elements

used-all : (m : Bitmask) (k : ℕ) → ((j : ℕ) → j < k → bit_at m j ≡ 0) → used m k ≡ k
unfolding used
used-all m zero each = refl
used-all m (suc k) each =
    ground (arith, used-all m k (λ j lt. each j (omega arith)), each k (omega arith))

used_mono : (m : Bitmask) (k j : ℕ) → k ≤ j → used m k ≤ used m j
unfolding used
used_mono m k zero le = let e : k ≡ 0 = omega arith in omega (arith, ap (used m) e)
used_mono m k (suc j) le = elim (ℕ_discrete k (suc j)) [
  | yes e ↦ omega (arith, ap (used m) e)
  | no ne ↦ ground (arith, used_mono m k j (omega arith))
]

bit_at-compact :
    {c : Config} {p : Ptr} (n : Node) (j : ℕ)
    → IsNode c p n
    → bitmask_get n.free_mask j ≡ some mask_not_free
    → j < n.capacity
    → bit_at n.free_mask j ≡ 0
bit_at-compact n j ok e lt =
    ground (arith, bitmask_get-bit_at n.free_mask j (omega (arith, ok.mask.sized, ok.covers)))

-- In a compact node that is not full, the place behind its elements is free.
pub IsCompact-free :
    {c : Config} {p : Ptr} (n : Node)
    → IsNode c p n
    → IsCompact n
    → n.num_elements < n.capacity
    → bitmask_get n.free_mask n.num_elements ≡ some mask_free
unfolding used
IsCompact-free n ok compact lt =
    let i = n.num_elements in
    let m = n.free_mask in
    let below : used m i ≡ i =
      used-all m i λ j less. bit_at-compact n j ok (compact j less) (omega arith) in
    let grown = used_mono m (suc i) n.capacity (omega arith) in
    let is_one : bit_at m i ≡ 1 =
      ground
        (arith, grown, below, ok.counted, bit-lt (get_or m.buckets (i / 64) 0) (63 - i % 64)) in
    bitmask_get-bit_at m i (omega (arith, ok.mask.sized, ok.covers)) ∙ ap some is_one
