-- ===== src/Bitmask/Room.antt =====
-- The split of a block of `a` bytes into buckets and elements of `e` bytes: the arithmetic of
-- `createPumaBitmaskForElemArray`.
use puma.Base.{
  ℕ, ◌+◌, ◌-◌, ◌*◌, ◌/◌, ◌%◌, ◌^◌, ◌≤◌, ◌<◌, ◌≡◌, ap, arith, true, false, ltb, if◌then◌else◌, ◌⊎◌,
  inl, inr, ◌↔◌, dec_lt, ℕ_discrete,
}
use native.Mathlib.Nat.{div-add-mod', add-mul-div_right, le-div_iff_mul-le, div-lt_iff_lt-mul}
use puma.Word.{u64, sub64}
use puma.Bitmask.{layout_num_elements, layout_holds}

abbrev pub space : ℕ → ℕ
space e = 64 * e + 8

-- How many elements a rest of `r` bytes adds, behind whole buckets.
abbrev pub extra : ℕ → ℕ → ℕ
extra e r = if ltb (e + 8) r then (r - 8) / e else 0

module _ (a e : ℕ) (pos : 0 < e) (fits : e ≤ a) (small : a < 2 ^ 56) where
  abbrev pub q : ℕ
  q = a / space e

  abbrev pub r : ℕ
  r = a % space e

  split : q * space e + r ≡ a
  split = div-add-mod' a (space e)

  rest-lt : r < space e
  rest-lt = omega arith

  no_wrap : u64 (space e) ≡ space e
  no_wrap = omega arith

  u64_base : u64 (64 * q) ≡ 64 * q
  u64_base = omega (arith, split)

  u64_used : u64 (64 * q * space e) / 64 ≡ q * space e
  u64_used = omega (arith, split)

  sub64_left : sub64 a (q * space e) ≡ r
  sub64_left = omega (arith, split)

  pub layout_num_elements_lem : layout_num_elements a e ≡ 64 * q + extra e r
  unfolding layout_num_elements
  layout_num_elements_lem = rw (no_wrap, u64_base, u64_used, sub64_left)

  -- With room for more, what is left holds them and one more bucket.
  module _ (room : e + 8 < r) where
    extra_room : extra e r ≡ (r - 8) / e
    extra_room = let t : ltb (e + 8) r ≡ true = ground arith in rw t

    room_bounds : (0 < (r - 8) / e) × ((r - 8) / e < 64) × ((r - 8) / e * e + 8 ≤ r)
    room_bounds = (
      (le-div_iff_mul-le pos).1 (omega arith),
      (div-lt_iff_lt-mul pos).1 (omega (arith, rest-lt)),
      omega (arith, div-add-mod' (r - 8) e),
    )

  extra_full : ¬ (e + 8 < r) → extra e r ≡ 0
  extra_full full = let t : ltb (e + 8) r ≡ false = ground arith in rw t

  within_sum :
      (x : ℕ) → x * e + (x + 63) / 64 * 8 ≤ r → (64 * q + x + 63) / 64 * 8 + (64 * q + x) * e ≤ a
  within_sum x h = omega (arith, split)

  -- Buckets and elements lie within the block.
  pub layout_within : (layout_num_elements a e + 63) / 64 * 8 + layout_num_elements a e * e ≤ a
  layout_within = rw layout_num_elements_lem (
      within_sum (extra e r) (elim (dec_lt (e + 8) r) [
        | yes room ↦ rw (extra_room room) (omega (arith, room_bounds room))
        | no full ↦ rw (extra_full full) (omega arith)
      ]))

  holds_sum :
      (x d : ℕ)
      → (x + 63) / 64 * 8 ≤ r
      → (r - (x + 63) / 64 * 8) / e ≡ d
      → sub64 a ((64 * q + x + 63) / 64 * 8) / e ≡ 64 * q + d
  holds_sum x d h e' =
      let left : sub64 a ((64 * q + x + 63) / 64 * 8) ≡ r - (x + 63) / 64 * 8 + 64 * q * e =
        omega (arith, split) in
      rw (left, add-mul-div_right (r - (x + 63) / 64 * 8) (64 * q) pos, e') (omega arith)

  -- The `assert` holds unless a rest of `e` to `e + 8` bytes is left behind whole buckets.
  pub layout_holds_iff :
      (layout_holds a e (layout_num_elements a e) ≡ true) ↔ ((r < e) ⊎ (e + 8 < r))
  unfolding layout_holds
  layout_holds_iff = rw layout_num_elements_lem (elim (dec_lt (e + 8) r) [
    | yes room ↦
        let (some_more, few, within) = room_bounds room in
        let one : ((r - 8) / e + 63) / 64 * 8 ≡ 8 = omega arith in
        rw (extra_room room, holds_sum ((r - 8) / e) ((r - 8) / e) (omega arith) (rw one))
          (ground arith)
    | no full ↦
        let no_bucket : r - 0 ≡ r = omega arith in
        rw (extra_full full, holds_sum 0 (r / e) (omega arith) (rw no_bucket))
          (ground (arith, div-add-mod' r e, div-lt_iff_lt-mul {x = r} {y = 1} pos))
  ])

  -- A layout that passes the `assert` has an element.
  pub layout_pos : ((r < e) ⊎ (e + 8 < r)) → 0 < 64 * q + extra e r
  layout_pos (inl few) = absurd_zero (ℕ_discrete q 0)
    where
      absurd_zero : Dec (q ≡ 0) → 0 < 64 * q + extra e r
      absurd_zero (yes z) = absurd (omega (arith, split, ap (λ t. t * space e) z))
      absurd_zero (no nz) = omega arith
  layout_pos (inr room) = rw (extra_room room) (omega (arith, room_bounds room))
