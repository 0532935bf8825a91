-- ===== src/Bitmask/Access.antt =====
-- `pumaBitmaskSet` and `pumaBitmaskGet`: a write is read back, and changes no other element.
use Prim.Native.Nat.{bit_and, bit_or}
use mathlib.Core.Path.{◌∙◌}
use puma.Base.{
  ℕ, ◌+◌, ◌-◌, ◌/◌, ◌%◌, ◌^◌, ◌<◌, ◌≡◌, refl, arith, some, get_or, set, length, ◌==◌, if◌then◌else◌,
  length-set, get_elem?-get_or, get_or-set,
}
use puma.Bits.{bit, bit-lt, bit_single, bit-bit_or, bit-bit_and}
use puma.Word.{shl, inv, shl-lt, inv-lt, bit-shl64, bit-inv, bit_and-one, shr-bit, bit_and-le}
use puma.Bitmask.{Bitmask, bitmask_set, bitmask_get}

-- There are as many buckets as the elements need, and each is a 64-bit word.
pub record IsBitmask (m : Bitmask) : Type 0 where
  pub sized : length m.buckets ≡ (m.num_elements + 63) / 64
  pub words : (i : ℕ) → get_or m.buckets i 0 < 2 ^ 64

-- The bit of an element, read with no fault.
abbrev pub bit_at : Bitmask → ℕ → ℕ
bit_at m index = bit (get_or m.buckets (index / 64) 0) (63 - index % 64)

pub bucket_in_range :
    {m : Bitmask} (index : ℕ) → IsBitmask m → index < m.num_elements → index / 64 < length m.buckets
bucket_in_range index ok h = omega arith

pub bitmask_get-bit_at :
    (m : Bitmask) (index : ℕ)
    → index / 64 < length m.buckets
    → bitmask_get m index ≡ some (bit_at m index)
unfolding bitmask_get
bitmask_get-bit_at m index h = rw (
  get_elem?-get_or m.buckets (index / 64) 0 h,
  shr-bit (get_or m.buckets (index / 64) 0) (63 - index % 64),
)

-- `*b |= v << k; *b &= ~((1 - v) << k)`.
abbrev stored : ℕ → ℕ → ℕ → ℕ
stored b v k = bit_and (bit_or b (shl v k)) (inv (shl (1 - v) k))

bit-stored :
    (b v k i : ℕ) → v < 2 → k < 64 → i < 64 → bit (stored b v k) i ≡ (if i == k then v else bit b i)
bit-stored b v k i hv hk hi = ground (
  arith,
  bit-bit_and (bit_or b (shl v k)) (inv (shl (1 - v) k)) i,
  bit-bit_or b (shl v k) i,
  bit-inv (shl (1 - v) k) i (shl-lt (1 - v) k) hi,
  bit-shl64 v k i hi,
  bit-shl64 (1 - v) k i hi,
  bit_single v (i - k),
  bit_single (1 - v) (i - k),
  bit-lt b i,
)

module _ (m : Bitmask) (index value : ℕ) (ok : IsBitmask m) (h : index < m.num_elements) where
  abbrev written : Bitmask
  written =
      let w = stored (get_or m.buckets (index / 64) 0) (bit_and value 1) (63 - index % 64) in
      record m { buckets = set m.buckets (index / 64) w }

  in_range : index / 64 < length m.buckets
  in_range = omega (arith, ok.sized)

  bitmask_set-written : bitmask_set m index value ≡ some written
  unfolding bitmask_set
  bitmask_set-written = rw (get_elem?-get_or m.buckets (index / 64) 0 in_range)

  written-IsBitmask : IsBitmask written
  written-IsBitmask = record {
    sized = length-set m.buckets (index / 64) _ ∙ ok.sized;
    words = λ i. ground (
      arith,
      ok.words i,
      get_or-set m.buckets (index / 64) i
          (stored (get_or m.buckets (index / 64) 0) (bit_and value 1) (63 - index % 64)) 0 in_range,
      bit_and-le
          (bit_or (get_or m.buckets (index / 64) 0) (shl (bit_and value 1) (63 - index % 64)))
          (inv (shl (1 - bit_and value 1) (63 - index % 64))),
      inv-lt (shl (1 - bit_and value 1) (63 - index % 64)),
    );
  }

  bit_at-written : (j : ℕ) → bit_at written j ≡ (if j == index then value % 2 else bit_at m j)
  bit_at-written j = ground (
    arith,
    get_or-set m.buckets (index / 64) (j / 64)
        (stored (get_or m.buckets (index / 64) 0) (bit_and value 1) (63 - index % 64)) 0 in_range,
    bit-stored (get_or m.buckets (index / 64) 0) (bit_and value 1) (63 - index % 64) (63 - j % 64),
    bit_and-one value,
  )

-- On a well-formed mask a write within the elements does not fault, keeps the mask well formed and
-- the number of elements, and a later read gives the lowest bit of the value at the index written,
-- and what it gave before at any other element.
pub bitmask_set-get :
    (m : Bitmask) (index value : ℕ)
    → IsBitmask m
    → index < m.num_elements
    → (m' : Bitmask) × (bitmask_set m index value ≡ some m')
      × IsBitmask m'
      × (m'.num_elements ≡ m.num_elements)
      × ((j : ℕ)
          → j < m.num_elements
          → bitmask_get m' j ≡ (if j == index then some (value % 2) else bitmask_get m j))
bitmask_set-get m index value ok h = (
  written m index value ok h,
  bitmask_set-written m index value ok h,
  written-IsBitmask m index value ok h,
  refl,
  λ j lt. ground (
    arith,
    bitmask_get-bit_at m j (omega (arith, ok.sized)),
    bitmask_get-bit_at (written m index value ok h) j
        (omega (arith, (written-IsBitmask m index value ok h).sized)),
    bit_at-written m index value ok h j,
  ),
)
