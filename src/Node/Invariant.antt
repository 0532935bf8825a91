-- ===== src/Node/Invariant.antt =====
-- When a node is well formed, and what a write to its mask does to the count of its elements.
use puma.Base.{
  ℕ, zero, suc, ◌+◌, ◌%◌, ◌≤◌, ◌<◌, ◌≡◌, refl, ap, arith, ◌==◌, if◌then◌else◌, some, ℕ_discrete,
}
use puma.Bitmask.{Bitmask, bitmask_get, bitmask_set, mask_not_free}
use puma.Bitmask.Access.{IsBitmask, bit_at, bitmask_get-bit_at, bitmask_set-get}
use puma.Memory.{Ptr, Node}
use puma.Util.{Config}
use puma.Util.Address.{IsPlaced}

-- The elements in use among the first `k`: those whose bit in the mask is not `MASKFREE`.
unfoldable pub used : Bitmask → ℕ → ℕ
used m zero = 0
used m (suc k) = used m k + (if bit_at m k == mask_not_free then 1 else 0)

-- A node is placed in its block, its mask has a bit for each element that it has room for, and the
-- number of its elements is that of the places in use.
pub record IsNode (c : Config) (p : Ptr) (n : Node) : Type 0 where
  pub placed : IsPlaced c p n
  pub mask : IsBitmask n.free_mask
  pub covers : n.free_mask.num_elements ≡ n.capacity
  pub counted : n.num_elements ≡ used n.free_mask n.capacity

pub used-le : (m : Bitmask) (k : ℕ) → used m k ≤ k
unfolding used
used-le m zero = omega arith
used-le m (suc k) = ground (arith, used-le m k)

-- `m'` differs from `m` at `i` alone, where it holds `v`.
abbrev pub Differs : Bitmask → Bitmask → ℕ → ℕ → ℕ → Type 0
Differs m m' n i v = (j : ℕ) → j < n → bit_at m' j ≡ (if j == i then v else bit_at m j)

used_same :
    (m m' : Bitmask) (n i v k : ℕ) → Differs m m' n i v → k ≤ i → k ≤ n → used m' k ≡ used m k
unfolding used
used_same m m' n i v zero d h le = refl
used_same m m' n i v (suc k) d h le =
    ground (arith, used_same m m' n i v k d (omega arith) (omega arith), d k (omega arith))

-- A change of one place changes the count by that place.
pub used-Differs :
    (m m' : Bitmask) (n i v k : ℕ)
    → Differs m m' n i v
    → i < k
    → k ≤ n
    → used m' k + (if bit_at m i == mask_not_free then 1 else 0)
      ≡ used m k + (if v == mask_not_free then 1 else 0)
unfolding used
used-Differs m m' n i v zero d h le = absurd (omega arith)
used-Differs m m' n i v (suc k) d h le = elim (ℕ_discrete k i) [
  | yes e ↦ ground (
    arith,
    d i (omega arith),
    used_same m m' n i v k d (omega arith) (omega arith),
    ap (used m) e,
    ap (used m') e,
    ap (bit_at m) e,
    ap (bit_at m') e,
  )
  | no ne ↦
      ground (arith, d k (omega arith), used-Differs m m' n i v k d (omega arith) (omega arith))
]

-- A write of 0 or 1 to the mask of a node.
pub record Written (m : Bitmask) (i v : ℕ) : Type 0 where
  pub mask : Bitmask
  pub set_ok : bitmask_set m i v ≡ some mask
  pub well_formed : IsBitmask mask
  pub same_size : mask.num_elements ≡ m.num_elements
  pub reads :
      (j : ℕ)
      → j < m.num_elements
      → bitmask_get mask j ≡ (if j == i then some v else bitmask_get m j)
  pub differs : Differs m mask m.num_elements i v

pub written : (m : Bitmask) (i v : ℕ) → v < 2 → IsBitmask m → i < m.num_elements → Written m i v
written m i v small ok lt =
    let (mask, set_ok, well_formed, same_size, reads) = bitmask_set-get m i v ok lt in
    let low : v % 2 ≡ v = omega arith in
    record {
      mask = mask;
      set_ok = set_ok;
      well_formed = well_formed;
      same_size = same_size;
      reads = rw low at reads;
      differs = λ j h. ground (
        arith,
        reads j h,
        bitmask_get-bit_at m j (omega (arith, ok.sized)),
        bitmask_get-bit_at mask j (omega (arith, well_formed.sized)),
      );
    }
