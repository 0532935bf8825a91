-- ===== src/Bitmask/Find.antt =====
-- `pumaFirstIndexOfValue` and `pumaLastIndexOfValue`: which index they give.
use puma.Base.{
  ℕ, ◌+◌, ◌/◌, ◌<◌, ◌≡◌, ◌≢◌, arith, true, false, some, ◌⊎◌, inl, inr, get_elem?-get_or,
}
use puma.Word.{ones}
use puma.Bitmask.{
  Bitmask, Search, bitmask_get, first_loop, first_index_of_value, last_loop, last_index_of_value,
}
use puma.Bitmask.Access.{IsBitmask}
use puma.Bitmask.Buckets.{
  FoundFrom, FoundBelow, first_loop-Found, last_loop-Found, get-Here, Here-get,
}

-- `r` reports the first element with the value, or that there is none.
abbrev pub IsFirst : Bitmask → ℕ → Search → Type 0
IsFirst m v r =
    ((r.found ≡ true)
      × (r.index < m.num_elements)
      × (bitmask_get m r.index ≡ some v)
      × ((k : ℕ) → k < r.index → bitmask_get m k ≢ some v))
    ⊎ ((r.found ≡ false)
        × (r.index ≡ ones)
        × ((k : ℕ) → k < m.num_elements → bitmask_get m k ≢ some v))

abbrev pub IsLast : Bitmask → ℕ → Search → Type 0
IsLast m v r =
    ((r.found ≡ true)
      × (r.index < m.num_elements)
      × (bitmask_get m r.index ≡ some v)
      × ((k : ℕ) → r.index < k → k < m.num_elements → bitmask_get m k ≢ some v))
    ⊎ ((r.found ≡ false)
        × (r.index ≡ ones)
        × ((k : ℕ) → k < m.num_elements → bitmask_get m k ≢ some v))

-- On a well-formed mask with at least one element the search for 0 or 1 ends, with no fault, at
-- the least index that holds the value, or reports that no element does.
pub first_index_of_value-IsFirst :
    (m : Bitmask) (v : ℕ)
    → v < 2
    → IsBitmask m
    → 0 < m.num_elements
    → (r : Search) × (first_index_of_value m v ≡ some r) × IsFirst m v r
unfolding first_index_of_value
first_index_of_value-IsFirst m v small ok pos =
    rw (get_elem?-get_or m.buckets 0 0 (omega (arith, ok.sized)))
      (report (first_loop-Found m v small ok ((m.num_elements + 63) / 64) 0 (omega arith)))
  where
    report :
        FoundFrom m v small ok 0 (first_loop m v ((m.num_elements + 63) / 64) 0)
        → (r : Search) × (first_loop m v ((m.num_elements + 63) / 64) 0 ≡ some r) × IsFirst m v r
    report (r, e, inl (f, at)) = (
      r,
      e,
      inl (
        f,
        at.1,
        Here-get m v small ok r.index at.1 at.2,
        λ k p h. at.3 k (omega arith) p (get-Here m v small ok k (omega arith) h),
      ),
    )
    report (r, e, inr (f, i, nowhere)) =
        (r, e, inr (f, i, λ k p h. nowhere k (omega arith) p (get-Here m v small ok k p h)))

-- On a well-formed mask the search for 0 or 1 from the end ends, with no fault, at the greatest
-- index that holds the value, or reports that no element does.
pub last_index_of_value-IsLast :
    (m : Bitmask) (v : ℕ)
    → v < 2
    → IsBitmask m
    → (r : Search) × (last_index_of_value m v ≡ some r) × IsLast m v r
unfolding last_index_of_value
last_index_of_value-IsLast m v small ok = report (
    last_loop-Found m v small ok ((m.num_elements + 63) / 64) m.num_elements (omega arith)
      (omega arith))
  where
    report :
        FoundBelow m v small ok m.num_elements (last_loop m v ((m.num_elements + 63) / 64))
        → (r : Search) × (last_loop m v ((m.num_elements + 63) / 64) ≡ some r) × IsLast m v r
    report (r, e, inl (f, at)) = (
      r,
      e,
      inl (
        f,
        at.1,
        Here-get m v small ok r.index at.1 at.2,
        λ k p q h. at.3 k p q (get-Here m v small ok k q h),
      ),
    )
    report (r, e, inr (f, i, nowhere)) =
        (r, e, inr (f, i, λ k p h. nowhere k (omega arith) p (get-Here m v small ok k p h)))
