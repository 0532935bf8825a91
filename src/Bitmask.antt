-- ===== src/Bitmask.antt =====
-- src/internal/bitmask.c: a mask of one bit for each element, in 64-bit buckets, the first element
-- at the highest bit. A read outside `buckets` is a fault. `value` is that of an `int8_t` or
-- `uint8_t` which is not negative.
pub mod Access
pub mod Scan
pub mod Buckets
pub mod Find
pub mod Room
pub mod Create
pub mod Print
use Prim.Native.Nat.{bit_and, bit_or, bit_xor}
use puma.Base.{
  ℕ, zero, suc, ◌+◌, ◌-◌, ◌*◌, ◌/◌, ◌%◌, Bool, true, false, Option, none, some, List, get_elem?,
  set, replicate, length, ◌∷◌, [], assert, ltb, ◌==◌, if◌then◌else◌, ◌>>=◌, ◌>>◌, min,
}
use puma.Word.{ones, u64, sub64, shl, shr, inv}

-- `struct pumaBitmask`.
pub record Bitmask : Type 0 where
  pub buckets : List ℕ
  pub num_elements : ℕ
  pub malloced_buckets : Bool

abbrev pub mask_free : ℕ
mask_free = 1

abbrev pub mask_not_free : ℕ
mask_not_free = 0

pub bitmask_set : Bitmask → ℕ → ℕ → Option Bitmask
bitmask_set bitmask index value = do
  let bucket = index / 64
  let l_offset = 63 - index % 64
  let v = bit_and value 1
  b ← get_elem? bitmask.buckets bucket
  let b1 = bit_or b (shl v l_offset)
  let b2 = bit_and b1 (inv (shl (1 - v) l_offset))
  some (record bitmask { buckets = set bitmask.buckets bucket b2 })

pub bitmask_get : Bitmask → ℕ → Option ℕ
bitmask_get bitmask index = do
  let l_offset = 63 - index % 64
  b ← get_elem? bitmask.buckets (index / 64)
  some (bit_and (shr b l_offset) 1)

-- What a search returns, and what it writes to `*found`.
pub record Search : Type 0 where
  pub index : ℕ
  pub found : Bool

abbrev pub hit : ℕ → Search
hit i = record { index = i; found = true }

abbrev pub miss : Search
miss = record { index = ones; found = false }

-- `maskValue`, after its conversion to `uint64_t`.
pub mask_value : ℕ → ℕ
mask_value value = sub64 (bit_and value 1) 1

-- `numFromBucketOn`, cut to 64, and the mask of the bits that stand for elements.
abbrev pub num_in_bucket : ℕ → ℕ
num_in_bucket from_bucket_on = if ltb from_bucket_on 64 then from_bucket_on else 64

pub bucket_value_mask : ℕ → ℕ
bucket_value_mask from_bucket_on =
    if ltb from_bucket_on 64 then shl ones (64 - from_bucket_on) else ones

-- Some element of the bucket has the value.
pub has_value : ℕ → ℕ → ℕ → Bool
unfolding mask_value bucket_value_mask
has_value value bucket from_bucket_on =
    if bit_and (bit_xor bucket (mask_value value)) (bucket_value_mask from_bucket_on) == 0
    then false
    else true

-- The inner loop of `pumaFirstIndexOfValue` at `i`, with `left` rounds to go.
pub scan_up : ℕ → ℕ → ℕ → ℕ → Option ℕ
scan_up value bucket zero i = none
scan_up value bucket (suc left) i =
    let rest = scan_up value bucket left (i + 1) in
    if bit_and (shr bucket (63 - i)) 1 == value then some i else rest

pub first_in_bucket : ℕ → ℕ → ℕ → Option ℕ
unfolding has_value scan_up
first_in_bucket value bucket from_bucket_on =
    if has_value value bucket from_bucket_on
    then scan_up value bucket (num_in_bucket from_bucket_on) 0
    else none

-- Its outer loop: `bucket * 64 < numElements` holds for `(numElements + 63) / 64` rounds.
pub first_loop : Bitmask → ℕ → ℕ → ℕ → Option Search
first_loop bitmask value zero bucket = some miss
first_loop bitmask value (suc left) bucket =
    let rest = first_loop bitmask value left (bucket + 1) in
    do
      current ← get_elem? bitmask.buckets bucket
      elim (first_in_bucket value current (bitmask.num_elements - bucket * 64)) [
        | some i ↦ some (hit (bucket * 64 + i))
        | none ↦ rest
      ]

-- The first read, of `buckets[0]`, is made also when there is no element.
pub first_index_of_value : Bitmask → ℕ → Option Search
unfolding first_in_bucket first_loop
first_index_of_value bitmask value = do
  _ ← get_elem? bitmask.buckets 0
  first_loop bitmask value ((bitmask.num_elements + 63) / 64) 0

-- The inner loop of `pumaLastIndexOfValue` at bit `i`, with `left` rounds to go.
pub scan_down : ℕ → ℕ → ℕ → ℕ → Option ℕ
scan_down value bucket zero i = none
scan_down value bucket (suc left) i =
    let rest = scan_down value bucket left (i + 1) in
    if bit_and (shr bucket i) 1 == value then some (63 - i) else rest

pub last_in_bucket : ℕ → ℕ → ℕ → Option ℕ
unfolding has_value scan_down
last_in_bucket value bucket from_bucket_on =
    let n = num_in_bucket from_bucket_on in
    if has_value value bucket from_bucket_on then scan_down value bucket n (64 - n) else none

-- `while(bucket-- > 0)`.
pub last_loop : Bitmask → ℕ → ℕ → Option Search
last_loop bitmask value zero = some miss
last_loop bitmask value (suc bucket) =
    let rest = last_loop bitmask value bucket in
    do
      current ← get_elem? bitmask.buckets bucket
      elim (last_in_bucket value current (bitmask.num_elements - bucket * 64)) [
        | some i ↦ some (hit (bucket * 64 + i))
        | none ↦ rest
      ]

pub last_index_of_value : Bitmask → ℕ → Option Search
unfolding last_in_bucket last_loop
last_index_of_value bitmask value = last_loop bitmask value ((bitmask.num_elements + 63) / 64)

pub bitmask_array_size : ℕ → ℕ
bitmask_array_size num_elements = (num_elements + 63) / 64 * 8

-- The byte `~((initialValue & 1) - 1)` and what `memset` of it leaves in a bucket.
abbrev pub initial_byte : ℕ → ℕ
initial_byte initial_value = 255 - (bit_and initial_value 1 + 256 - 1) % 256

pub initial_bucket : ℕ → ℕ
initial_bucket initial_value = initial_byte initial_value * 0x0101010101010101

-- With buckets from `malloc`, which does not fail; their number wraps with the sum.
pub create_bitmask : ℕ → ℕ → Bitmask
unfolding initial_bucket
create_bitmask num_elements initial_value = record {
  buckets = replicate (u64 (num_elements + 63) / 64) (initial_bucket initial_value);
  num_elements = num_elements;
  malloced_buckets = true;
}

-- What `createPumaBitmaskForElemArray` writes: the mask, `*arrayStart` and `*numElements`.
pub record Layout : Type 0 where
  pub mask : Bitmask
  pub array_start : ℕ
  pub num_elements : ℕ

-- The elements that the array has room for beside their buckets, as the code counts them.
pub layout_num_elements : ℕ → ℕ → ℕ
layout_num_elements array_size elem_size =
    let space_per_bucket = u64 (64 * elem_size + 8) in
    let base_num_elements = u64 (64 * (array_size / space_per_bucket)) in
    let space_left = sub64 array_size (u64 (base_num_elements * space_per_bucket) / 64) in
    let extra_elements =
      if ltb (elem_size + 8) space_left then (space_left - 8) / elem_size else 0 in
    base_num_elements + extra_elements

-- The `assert` at the end: what is left behind the buckets holds just these elements.
pub layout_holds : ℕ → ℕ → ℕ → Bool
layout_holds array_size elem_size n = sub64 array_size ((n + 63) / 64 * 8) / elem_size == n

-- `array` is the address of the memory; a failed `assert` is a fault.
pub create_bitmask_for_elem_array : ℕ → ℕ → ℕ → ℕ → Option Layout
unfolding initial_bucket layout_num_elements layout_holds
create_bitmask_for_elem_array array array_size initial_value elem_size = do
  let n = layout_num_elements array_size elem_size
  let num_buckets = (n + 63) / 64
  assert (layout_holds array_size elem_size n)
  some (record {
    mask = record {
      buckets = replicate num_buckets (initial_bucket initial_value);
      num_elements = n;
      malloced_buckets = false;
    };
    array_start = array + num_buckets * 8;
    num_elements = n;
  })

-- Whether `destroyPumaBitmask` calls `free` on the buckets.
pub destroy_frees_buckets : Bitmask → Bool
destroy_frees_buckets bitmask = bitmask.malloced_buckets

-- `pumaBitmaskToString`, from index `i` with `left` rounds to go: the bytes that end up in `buf`,
-- with the 0 at their end. `bufLen - 1` wraps round.
pub to_string_loop : Bitmask → ℕ → ℕ → Option (List ℕ)
to_string_loop bitmask zero i = some (0 ∷ [])
to_string_loop bitmask (suc left) i = do
  v ← bitmask_get bitmask i
  rest ← to_string_loop bitmask left (i + 1)
  some ((b'0' + v) ∷ rest)

pub bitmask_to_string : Bitmask → ℕ → Option (List ℕ)
unfolding bitmask_get to_string_loop
bitmask_to_string bitmask buf_len =
    to_string_loop bitmask (min bitmask.num_elements (sub64 buf_len 1)) 0
