-- ===== src/Bitmask/Scan.antt =====
-- The searches of a range, up and down, and the test of a whole bucket that skips them.
use Prim.Native.Nat.{bit_and, bit_xor}
use puma.Base.{
  ℕ, zero, suc, ◌+◌, ◌-◌, ◌≤◌, ◌<◌, ◌≡◌, ◌≢◌, ap, arith, false, Option, none, some, ◌==◌,
  Bool-cases, ℕ_discrete, inl, inr,
}
use puma.Bits.{bit, bit-lt, bit-zero, bit-bit_and, bit-bit_xor}
use puma.Word.{ones, bit-ones, bit-shl64, shr-bit}
use puma.Bitmask.{
  mask_value, num_in_bucket, bucket_value_mask, has_value, scan_up, scan_down, first_in_bucket,
  last_in_bucket,
}

-- The least, and the greatest, index of `[lo, hi)` with property `P`, or `none` if there is none.
abbrev pub FirstIn : (ℕ → Type 0) → ℕ → ℕ → Option ℕ → Type 0
FirstIn P lo hi none = (k : ℕ) → lo ≤ k → k < hi → ¬ P k
FirstIn P lo hi (some j) = (lo ≤ j) × (j < hi) × P j × ((k : ℕ) → lo ≤ k → k < j → ¬ P k)

abbrev pub LastIn : (ℕ → Type 0) → ℕ → ℕ → Option ℕ → Type 0
LastIn P lo hi none = (k : ℕ) → lo ≤ k → k < hi → ¬ P k
LastIn P lo hi (some j) = (lo ≤ j) × (j < hi) × P j × ((k : ℕ) → j < k → k < hi → ¬ P k)

bit-mask_value : (v i : ℕ) → v < 2 → i < 64 → bit (mask_value v) i ≡ 1 - v
unfolding mask_value
bit-mask_value zero i hv hi = bit-ones i hi
bit-mask_value (suc zero) i hv hi = bit-zero i
bit-mask_value (suc (suc v)) i hv hi = absurd (omega arith)

bit-bucket_value_mask :
    (n i : ℕ) → 64 - num_in_bucket n ≤ i → i < 64 → bit (bucket_value_mask n) i ≡ 1
unfolding bucket_value_mask
bit-bucket_value_mask n i lo hi =
    ground (arith, bit-shl64 ones (64 - n) i, bit-ones (i - (64 - n)), bit-ones i)

-- A bucket that fails the test holds the value at none of its elements.
has_value-false :
    (v bucket n i : ℕ)
    → v < 2
    → has_value v bucket n ≡ false
    → 64 - num_in_bucket n ≤ i
    → i < 64
    → bit bucket i ≢ v
unfolding has_value
has_value-false v bucket n i hv no_value lo hi e =
    let word = bit_and (bit_xor bucket (mask_value v)) (bucket_value_mask n) in
    let z : word ≡ 0 = ground arith in
    ground (
      arith,
      ap (λ w. bit w i) z,
      bit-zero i,
      bit-bit_and (bit_xor bucket (mask_value v)) (bucket_value_mask n) i,
      bit-bit_xor bucket (mask_value v) i,
      bit-mask_value v i,
      bit-bucket_value_mask n i,
      bit-lt bucket i,
    )

FirstIn-later :
    (P : ℕ → Type 0) (lo hi : ℕ) (r : Option ℕ)
    → ¬ P lo
    → FirstIn P (lo + 1) hi r
    → FirstIn P lo hi r
FirstIn-later P lo hi none not_here later =
    λ k p q. elim (ℕ_discrete lo k) [ yes e ↦ rw (← e) not_here | no ne ↦ later k (omega arith) q ]
FirstIn-later P lo hi (some j) not_here later = (
  omega arith,
  omega arith,
  later.2,
  λ k p q. elim (ℕ_discrete lo k) [ yes e ↦ rw (← e) not_here | no ne ↦ later.3 k (omega arith) q ],
)

LastIn-earlier :
    (P : ℕ → Type 0) (lo top hi : ℕ) (r : Option ℕ)
    → hi ≡ top + 1
    → ¬ P top
    → LastIn P lo top r
    → LastIn P lo hi r
LastIn-earlier P lo top hi none e not_here earlier = λ k p q. elim (ℕ_discrete top k) [
  | yes e ↦ rw (← e) not_here
  | no ne ↦ earlier k p (omega arith)
]
LastIn-earlier P lo top hi (some j) e not_here earlier = (
  earlier.0,
  omega arith,
  earlier.2,
  λ k p q. elim (ℕ_discrete top k) [
    | yes e ↦ rw (← e) not_here
    | no ne ↦ earlier.3 k p (omega arith)
  ],
)

scan_up-FirstIn :
    (v bucket left i hi : ℕ)
    → i + left ≡ hi
    → FirstIn (λ k. bit bucket (63 - k) ≡ v) i hi (scan_up v bucket left i)
unfolding scan_up
scan_up-FirstIn v bucket zero i hi e = λ k p q. absurd (omega arith)
scan_up-FirstIn v bucket (suc left) i hi e =
    let tested = shr-bit bucket (63 - i) in
    elim (Bool-cases (bit bucket (63 - i) == v)) [
      | inl same ↦
          rw (tested, same) (omega arith, omega arith, ground arith, λ k p q. absurd (omega arith))
      | inr other ↦
          rw (tested, other)
            (FirstIn-later _ i hi (scan_up v bucket left (i + 1)) (ground arith)
              (scan_up-FirstIn v bucket left (i + 1) hi (omega arith)))
    ]

-- The search of a bucket from its first element: the least index below the elements left.
pub first_in_bucket-FirstIn :
    (v bucket n : ℕ)
    → v < 2
    → FirstIn (λ k. bit bucket (63 - k) ≡ v) 0 (num_in_bucket n) (first_in_bucket v bucket n)
unfolding first_in_bucket
first_in_bucket-FirstIn v bucket n hv = elim (Bool-cases (has_value v bucket n)) [
  | inl some_value ↦ rw some_value (scan_up-FirstIn v bucket (num_in_bucket n) 0 _ (omega arith))
  | inr no_value ↦
      rw no_value
        (λ k p q. has_value-false v bucket n (63 - k) hv no_value (ground arith) (omega arith))
]

-- The scan from the lowest bit gives the greatest index: bit `i` is element `63 - i`.
scan_down-LastIn :
    (v bucket left i hi : ℕ)
    → i + left ≡ 64
    → hi ≡ 64 - i
    → LastIn (λ k. bit bucket (63 - k) ≡ v) 0 hi (scan_down v bucket left i)
unfolding scan_down
scan_down-LastIn v bucket zero i hi e top = λ k p q. absurd (omega arith)
scan_down-LastIn v bucket (suc left) i hi e top =
    let tested = shr-bit bucket i in
    let back : 63 - (63 - i) ≡ i = omega arith in
    elim (Bool-cases (bit bucket i == v)) [
      | inl same ↦
          rw (tested, same)
            (omega arith, omega arith, rw back (ground arith), λ k p q. absurd (omega arith))
      | inr other ↦
          rw (tested, other)
            (LastIn-earlier _ 0 (63 - i) hi (scan_down v bucket left (i + 1)) (omega arith)
              (rw back (ground arith))
              (scan_down-LastIn v bucket left (i + 1) (63 - i) (omega arith) (omega arith)))
    ]

pub last_in_bucket-LastIn :
    (v bucket n : ℕ)
    → v < 2
    → LastIn (λ k. bit bucket (63 - k) ≡ v) 0 (num_in_bucket n) (last_in_bucket v bucket n)
unfolding last_in_bucket
last_in_bucket-LastIn v bucket n hv = elim (Bool-cases (has_value v bucket n)) [
  | inl some_value ↦ rw some_value (
      scan_down-LastIn v bucket (num_in_bucket n) (64 - num_in_bucket n) _ (ground arith)
        (ground arith))
  | inr no_value ↦
      rw no_value
        (λ k p q. has_value-false v bucket n (63 - k) hv no_value (ground arith) (omega arith))
]
