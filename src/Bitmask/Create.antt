-- ===== src/Bitmask/Create.antt =====
-- `createPumaBitmask` and `createPumaBitmaskForElemArray`: what a new mask holds, and where.
use puma.Base.{
  ℕ, ◌+◌, ◌-◌, ◌*◌, ◌/◌, ◌%◌, ◌^◌, ◌≤◌, ◌<◌, ◌≡◌, refl, arith, Bool, true, false, none, some, ◌⊎◌,
  inl, inr, length, dec_lt, Bool-cases, replicate, length-replicate, get_or-replicate, get_or_past,
}
use puma.Bits.{bit, bit-zero}
use puma.Bits.Step.{digit-cases}
use puma.Word.{bit_and-one, bit-ones}
use puma.Bitmask.{
  Bitmask, Layout, bitmask_get, destroy_frees_buckets, initial_bucket, create_bitmask,
  layout_num_elements, layout_holds, create_bitmask_for_elem_array,
}
use puma.Bitmask.Access.{IsBitmask, bitmask_get-bit_at}
use puma.Bitmask.Room.{layout_num_elements_lem, layout_within, layout_holds_iff, layout_pos}

bit-initial_bucket : (v i : ℕ) → i < 64 → bit (initial_bucket v) i ≡ v % 2
unfolding initial_bucket
bit-initial_bucket v i h =
    rw (bit_and-one v)
      (elim (digit-cases v) [ inl z ↦ rw z (bit-zero i) | inr o ↦ rw o (bit-ones i h) ])

initial_bucket-lt : (v : ℕ) → initial_bucket v < 2 ^ 64
unfolding initial_bucket
initial_bucket-lt v = omega arith

-- A mask of equal buckets.
abbrev filled : ℕ → ℕ → Bool → Bitmask
filled n v malloced = record {
  buckets = replicate ((n + 63) / 64) (initial_bucket v);
  num_elements = n;
  malloced_buckets = malloced;
}

filled-IsBitmask : (n v : ℕ) (b : Bool) → IsBitmask (filled n v b)
filled-IsBitmask n v b = record {
  sized = length-replicate ((n + 63) / 64) (initial_bucket v);
  words = λ i. elim (dec_lt i ((n + 63) / 64)) [
    | yes lt ↦ rw (get_or-replicate ((n + 63) / 64) i (initial_bucket v) 0 lt) (initial_bucket-lt v)
    | no ge ↦
        rw
          (get_or_past (replicate ((n + 63) / 64) (initial_bucket v)) i 0
            (omega (arith, length-replicate ((n + 63) / 64) (initial_bucket v))))
          (omega arith)
  ];
}

bitmask_get-filled : (n v j : ℕ) (b : Bool) → j < n → bitmask_get (filled n v b) j ≡ some (v % 2)
bitmask_get-filled n v j b h = rw (
  bitmask_get-bit_at (filled n v b) j
      (omega (arith, length-replicate ((n + 63) / 64) (initial_bucket v))),
  get_or-replicate ((n + 63) / 64) (j / 64) (initial_bucket v) 0 (omega arith),
  bit-initial_bucket v (63 - j % 64) (omega arith),
)

-- For at most `2 ^ 64 - 64` elements: a created mask is well formed, has the number of elements asked for, every one of which reads as
-- the lowest bit of the initial value, and its buckets are those that `destroyPumaBitmask` frees.
pub create_bitmask_lem :
    (n v : ℕ)
    → n + 63 < 2 ^ 64
    → IsBitmask (create_bitmask n v)
      × ((create_bitmask n v).num_elements ≡ n)
      × ((j : ℕ) → j < n → bitmask_get (create_bitmask n v) j ≡ some (v % 2))
      × (destroy_frees_buckets (create_bitmask n v) ≡ true)
unfolding create_bitmask destroy_frees_buckets
create_bitmask_lem n v small =
    let whole : (n + 63) % 2 ^ 64 ≡ n + 63 = omega arith in
    rw whole (filled-IsBitmask n v true, refl, λ j h. bitmask_get-filled n v j true h, refl)

-- The bytes that are left when a block of `a` bytes is cut into whole buckets of 64 elements.
abbrev pub rest_bytes : ℕ → ℕ → ℕ
rest_bytes a e = a % (64 * e + 8)

-- In a block of `a` bytes below 2 ^ 56, for elements of `e` bytes, at least 1 and at most `a`:
-- if the rest behind whole buckets is less than an element, or more than an element and a bucket,
-- the mask is well formed, has at least one element, all read as the initial value, the elements
-- start behind the buckets, end within the block, and the buckets are not freed.
pub create_bitmask_for_elem_array_lem :
    (array a v e : ℕ)
    → 0 < e
    → e ≤ a
    → a < 2 ^ 56
    → (rest_bytes a e < e) ⊎ (e + 8 < rest_bytes a e)
    → (l : Layout) × (create_bitmask_for_elem_array array a v e ≡ some l)
      × IsBitmask l.mask
      × (l.mask.num_elements ≡ l.num_elements)
      × (0 < l.num_elements)
      × ((j : ℕ) → j < l.num_elements → bitmask_get l.mask j ≡ some (v % 2))
      × (l.array_start ≡ array + length l.mask.buckets * 8)
      × (l.array_start + l.num_elements * e ≤ array + a)
      × (destroy_frees_buckets l.mask ≡ false)
unfolding create_bitmask_for_elem_array destroy_frees_buckets
create_bitmask_for_elem_array_lem array a v e pos fits small rest =
    let n = layout_num_elements a e in
    (
      record { mask = filled n v false; array_start = array + (n + 63) / 64 * 8; num_elements = n },
      rw ((layout_holds_iff a e pos fits small).1 rest),
      filled-IsBitmask n v false,
      refl,
      rw (layout_num_elements_lem a e pos fits small) (layout_pos a e pos fits small rest),
      λ j h. bitmask_get-filled n v j false h,
      rw (length-replicate ((n + 63) / 64) (initial_bucket v)),
      omega (arith, layout_within a e pos fits small),
      refl,
    )

-- In a block of `a` bytes below 2 ^ 56, for elements of `e` bytes, at least 1 and at most `a`:
-- the `assert` of `createPumaBitmaskForElemArray` fails when the rest behind whole buckets of 64
-- elements is from an element up to an element and a bucket.
pub create_bitmask_for_elem_array-none :
    (array a v e : ℕ)
    → 0 < e
    → e ≤ a
    → a < 2 ^ 56
    → e ≤ rest_bytes a e
    → rest_bytes a e ≤ e + 8
    → create_bitmask_for_elem_array array a v e ≡ none
unfolding create_bitmask_for_elem_array
create_bitmask_for_elem_array-none array a v e pos fits small lo hi =
    elim (Bool-cases (layout_holds a e (layout_num_elements a e))) [
      | inl holds ↦ absurd (omega (arith, (layout_holds_iff a e pos fits small).0 holds))
      | inr fails ↦ rw fails
    ]
