-- ===== src/Bitmask/Buckets.antt =====
-- The loops of the two searches over the buckets of a mask.
use puma.Base.{
  ℕ, zero, suc, ◌+◌, ◌-◌, ◌*◌, ◌/◌, ◌%◌, ◌≤◌, ◌<◌, ◌≡◌, refl, ap, arith, true, false, Option, none,
  some, dec_lt, min, ◌∙◌, ◌⊎◌, inl, inr, get_or, get_elem?-get_or,
}
use puma.Bits.{bit}
use puma.Word.{ones}
use puma.Bitmask.{Bitmask, Search, hit, miss, bitmask_get, num_in_bucket, first_loop, last_loop}
use puma.Bitmask.Access.{IsBitmask, bit_at, bitmask_get-bit_at}
use puma.Bitmask.Scan.{FirstIn, LastIn, first_in_bucket-FirstIn, last_in_bucket-LastIn}

module _ (m : Bitmask) (v : ℕ) (small : v < 2) (ok : IsBitmask m) where
  abbrev pub Here : ℕ → Type 0
  Here k = bit_at m k ≡ v

  abbrev pub InBucket : ℕ → ℕ → Type 0
  InBucket b k = bit (get_or m.buckets b 0) (63 - k) ≡ v

  bit_at-bucket : (b k : ℕ) → b * 64 ≤ k → k < b * 64 + 64 → Here k → InBucket b (k - b * 64)
  bit_at-bucket b k lo hi h =
      let q : k / 64 ≡ b = omega arith in
      let r : k % 64 ≡ k - b * 64 = omega arith in rw (← r) (rw (q) at h)

  bucket-bit_at : (b i : ℕ) → i < 64 → InBucket b i → Here (b * 64 + i)
  bucket-bit_at b i lt h =
      let q : (b * 64 + i) / 64 ≡ b = omega arith in
      let r : (b * 64 + i) % 64 ≡ i = omega arith in rw (q, r) h

  -- What a loop over the buckets reports of the elements from `lo` on, or below `hi`.
  abbrev pub Found : ((ℕ → Type 0) → Option ℕ → Type 0) → Search → Type 0
  Found In r =
      ((r.found ≡ true) × In Here (some r.index))
      ⊎ ((r.found ≡ false) × (r.index ≡ ones) × In Here none)

  -- What is left of the elements at bucket `b`, cut to the bucket.
  abbrev pub width : ℕ → ℕ
  width b = num_in_bucket (m.num_elements - b * 64)

  none-InBucket :
      (b : ℕ)
      → ((i : ℕ) → 0 ≤ i → i < width b → ¬ InBucket b i)
      → (k : ℕ) → b * 64 ≤ k
      → k < b * 64 + 64
      → k < m.num_elements
      → ¬ Here k
  none-InBucket b not_here k lo hi lt h =
      not_here (k - b * 64) (omega arith) (ground arith) (bit_at-bucket b k lo hi h)

  abbrev pub FoundFrom : ℕ → Option Search → Type 0
  FoundFrom lo o = (r : Search) × (o ≡ some r) × Found (λ P. FirstIn P lo m.num_elements) r

  first_step :
      (b : ℕ) (o : Option ℕ) (rest : Option Search)
      → b * 64 < m.num_elements
      → FirstIn (InBucket b) 0 (width b) o
      → FoundFrom ((b + 1) * 64) rest
      → FoundFrom (b * 64) (elim o [ some i ↦ some (hit (b * 64 + i)) | none ↦ rest ])
  first_step b (some i) rest lt first later = (
    hit (b * 64 + i),
    refl,
    inl (
      refl,
      (
        omega arith,
        ground arith,
        bucket-bit_at b i (ground arith) first.2,
        λ k p q h.
            first.3 (k - b * 64) (omega arith) (omega arith) (bit_at-bucket b k p (ground arith) h),
      ),
    ),
  )
  first_step b none rest lt first (r, e, inl (f, at)) = (
    r,
    e,
    inl (
      f,
      (
        omega arith,
        at.1,
        at.2,
        λ k p q h. elim (dec_lt k ((b + 1) * 64)) [
          | yes near ↦ none-InBucket b first k p (omega arith) (omega arith) h
          | no far ↦ at.3 k (omega arith) q h
        ],
      ),
    ),
  )
  first_step b none rest lt first (r, e, inr (f, i, nowhere)) = (
    r,
    e,
    inr (
      f,
      i,
      λ k p q h. elim (dec_lt k ((b + 1) * 64)) [
        | yes near ↦ none-InBucket b first k p (omega arith) q h
        | no far ↦ nowhere k (omega arith) q h
      ],
    ),
  )

  pub first_loop-Found :
      (left b : ℕ)
      → b + left ≡ (m.num_elements + 63) / 64
      → FoundFrom (b * 64) (first_loop m v left b)
  unfolding first_loop
  first_loop-Found zero b e = (miss, refl, inr (refl, refl, λ k p q. absurd (omega arith)))
  first_loop-Found (suc left) b e = rw (get_elem?-get_or m.buckets b 0 (omega (arith, ok.sized))) (
      first_step b _ (first_loop m v left (b + 1)) (omega arith)
        (first_in_bucket-FirstIn v (get_or m.buckets b 0) (m.num_elements - b * 64) small)
        (first_loop-Found left (b + 1) (omega arith)))

  abbrev pub FoundBelow : ℕ → Option Search → Type 0
  FoundBelow hi o = (r : Search) × (o ≡ some r) × Found (λ P. LastIn P 0 hi) r

  last_step :
      (b hi : ℕ) (o : Option ℕ) (rest : Option Search)
      → b * 64 < hi
      → hi ≡ b * 64 + width b
      → LastIn (InBucket b) 0 (width b) o
      → FoundBelow (b * 64) rest
      → FoundBelow hi (elim o [ some i ↦ some (hit (b * 64 + i)) | none ↦ rest ])
  last_step b hi (some i) rest lt top last earlier = (
    hit (b * 64 + i),
    refl,
    inl (
      refl,
      (
        omega arith,
        omega arith,
        bucket-bit_at b i (ground arith) last.2,
        λ k p q h.
            last.3 (k - b * 64) (omega arith) (omega arith)
              (bit_at-bucket b k (omega arith) (ground arith) h),
      ),
    ),
  )
  last_step b hi none rest lt top last (r, e, inl (f, at)) = (
    r,
    e,
    inl (
      f,
      (
        omega arith,
        omega arith,
        at.2,
        λ k p q h. elim (dec_lt k (b * 64)) [
          | yes near ↦ at.3 k p near h
          | no far ↦
              last (k - b * 64) (omega arith) (omega arith)
                (bit_at-bucket b k (omega arith) (ground arith) h)
        ],
      ),
    ),
  )
  last_step b hi none rest lt top last (r, e, inr (f, i, nowhere)) = (
    r,
    e,
    inr (
      f,
      i,
      λ k p q h. elim (dec_lt k (b * 64)) [
        | yes near ↦ nowhere k p near h
        | no far ↦
            last (k - b * 64) (omega arith) (omega arith)
              (bit_at-bucket b k (omega arith) (ground arith) h)
      ],
    ),
  )

  pub last_loop-Found :
      (b hi : ℕ)
      → b ≤ (m.num_elements + 63) / 64
      → hi ≡ min (b * 64) m.num_elements
      → FoundBelow hi (last_loop m v b)
  unfolding last_loop
  last_loop-Found zero hi le top = (miss, refl, inr (refl, refl, λ k p q. absurd (omega arith)))
  last_loop-Found (suc b) hi le top =
      rw (get_elem?-get_or m.buckets b 0 (omega (arith, ok.sized))) (
        last_step b hi _ (last_loop m v b) (omega arith) (ground arith)
          (last_in_bucket-LastIn v (get_or m.buckets b 0) (m.num_elements - b * 64) small)
          (last_loop-Found b (b * 64) (omega arith) (omega arith)))

  pub get-Here : (k : ℕ) → k < m.num_elements → bitmask_get m k ≡ some v → Here k
  get-Here k lt e = ground (arith, bitmask_get-bit_at m k (omega (arith, ok.sized)))

  pub Here-get : (k : ℕ) → k < m.num_elements → Here k → bitmask_get m k ≡ some v
  Here-get k lt h = bitmask_get-bit_at m k (omega (arith, ok.sized)) ∙ ap some h
