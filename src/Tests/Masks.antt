-- ===== src/Tests/Masks.antt =====
-- The theorems on masks at a mask of 70 elements.
use puma.Base.{
  ℕ, ◌+◌, ◌*◌, ◌-◌, ◌≤◌, ◌<◌, ◌≡◌, arith, true, false, none, some, ◌==◌, if◌then◌else◌, inr, ◌%◌,
  length, min, List,
}
use puma.Bitmask.{
  Bitmask, Search, Layout, bitmask_set, bitmask_get, first_index_of_value, last_index_of_value,
  create_bitmask, create_bitmask_for_elem_array, destroy_frees_buckets, bitmask_to_string,
}
use puma.Bitmask.Access.{IsBitmask, bitmask_set-get}
use puma.Bitmask.Find.{IsFirst, IsLast, first_index_of_value-IsFirst, last_index_of_value-IsLast}
use puma.Bitmask.Create.{
  create_bitmask_lem, create_bitmask_for_elem_array_lem, create_bitmask_for_elem_array-none,
}
use puma.Bitmask.Print.{IsPrinted, bitmask_to_string-IsPrinted}

abbrev seventy : Bitmask
seventy = create_bitmask 70 1

seventy-IsBitmask : IsBitmask seventy
seventy-IsBitmask = (create_bitmask_lem 70 1 (omega arith)).0

seventy_size : seventy.num_elements ≡ 70
seventy_size = (create_bitmask_lem 70 1 (omega arith)).1

bitmask_set-get_example :
    (m' : Bitmask) × (bitmask_set seventy 65 0 ≡ some m')
    × IsBitmask m'
    × (m'.num_elements ≡ seventy.num_elements)
    × ((j : ℕ)
        → j < seventy.num_elements
        → bitmask_get m' j ≡ (if j == 65 then some (0 % 2) else bitmask_get seventy j))
bitmask_set-get_example =
    bitmask_set-get seventy 65 0 seventy-IsBitmask (omega (arith, seventy_size))

first_index_of_value-IsFirst_example :
    (r : Search) × (first_index_of_value seventy 1 ≡ some r) × IsFirst seventy 1 r
first_index_of_value-IsFirst_example =
    first_index_of_value-IsFirst seventy 1 (omega arith) seventy-IsBitmask
      (omega (arith, seventy_size))

last_index_of_value-IsLast_example :
    (r : Search) × (last_index_of_value seventy 0 ≡ some r) × IsLast seventy 0 r
last_index_of_value-IsLast_example =
    last_index_of_value-IsLast seventy 0 (omega arith) seventy-IsBitmask

create_bitmask_lem_example :
    IsBitmask (create_bitmask 70 1)
    × ((create_bitmask 70 1).num_elements ≡ 70)
    × ((j : ℕ) → j < 70 → bitmask_get (create_bitmask 70 1) j ≡ some (1 % 2))
    × (destroy_frees_buckets (create_bitmask 70 1) ≡ true)
create_bitmask_lem_example = create_bitmask_lem 70 1 (omega arith)

-- A node of two pages of 4096 bytes, less a header of 152, and elements of 16 bytes.
create_bitmask_for_elem_array_lem_example :
    (l : Layout) × (create_bitmask_for_elem_array 4248 8040 1 16 ≡ some l)
    × IsBitmask l.mask
    × (l.mask.num_elements ≡ l.num_elements)
    × (0 < l.num_elements)
    × ((j : ℕ) → j < l.num_elements → bitmask_get l.mask j ≡ some (1 % 2))
    × (l.array_start ≡ 4248 + length l.mask.buckets * 8)
    × (l.array_start + l.num_elements * 16 ≤ 4248 + 8040)
    × (destroy_frees_buckets l.mask ≡ false)
create_bitmask_for_elem_array_lem_example =
    create_bitmask_for_elem_array_lem 4248 8040 1 16 (omega arith) (omega arith) (omega arith)
      (inr (omega arith))

create_bitmask_for_elem_array-none_example : create_bitmask_for_elem_array 4248 8040 1 8035 ≡ none
create_bitmask_for_elem_array-none_example =
    create_bitmask_for_elem_array-none 4248 8040 1 8035 (omega arith) (omega arith) (omega arith)
      (omega arith) (omega arith)

bitmask_to_string-IsPrinted_example :
    (s : List ℕ) × (bitmask_to_string seventy 10 ≡ some s)
    × (length s ≤ 10)
    × IsPrinted seventy 0 (min seventy.num_elements (10 - 1)) s
bitmask_to_string-IsPrinted_example =
    bitmask_to_string-IsPrinted seventy 10 seventy-IsBitmask (omega arith) (omega arith)
