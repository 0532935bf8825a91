-- ===== src/Bitmask/Print.antt =====
-- `pumaBitmaskToString`.
use puma.Base.{
  ℕ, zero, suc, ◌+◌, ◌-◌, ◌^◌, ◌≤◌, ◌<◌, ◌≡◌, refl, arith, some, List, [], ◌∷◌, length, get_elem?,
  min,
}
use puma.Word.{sub64}
use puma.Bitmask.{Bitmask, bitmask_get, to_string_loop, bitmask_to_string}
use puma.Bitmask.Access.{IsBitmask, bit_at, bitmask_get-bit_at}

-- `s` holds a character for each element of `[i, i + left)`, then a 0.
pub record IsPrinted (m : Bitmask) (i left : ℕ) (s : List ℕ) : Type 0 where
  pub size : length s ≡ left + 1
  pub digit :
      (k : ℕ)
      → k < left
      → (v : ℕ) × (bitmask_get m (i + k) ≡ some v) × (get_elem? s k ≡ some (b'0' + v))
  pub ended : get_elem? s left ≡ some 0

IsPrinted-cons :
    (m : Bitmask) (i left v : ℕ) (s : List ℕ)
    → bitmask_get m i ≡ some v
    → IsPrinted m (i + 1) left s
    → IsPrinted m i (suc left) ((b'0' + v) ∷ s)
IsPrinted-cons m i left v s read printed = record {
  size = omega (arith, printed.size);
  digit = digit;
  ended = printed.ended;
}
  where
    digit :
        (k : ℕ)
        → k < suc left
        → (v' : ℕ) × (bitmask_get m (i + k) ≡ some v')
          × (get_elem? ((b'0' + v) ∷ s) k ≡ some (b'0' + v'))
    digit zero lt = let here : i + 0 ≡ i = omega arith in (v, rw here read, refl)
    digit (suc k) lt =
        let shifted : i + suc k ≡ i + 1 + k = omega arith in
        rw shifted (printed.digit k (omega arith))

to_string_loop-IsPrinted :
    (m : Bitmask) (left i : ℕ)
    → IsBitmask m
    → i + left ≤ m.num_elements
    → (s : List ℕ) × (to_string_loop m left i ≡ some s) × IsPrinted m i left s
unfolding to_string_loop
to_string_loop-IsPrinted m zero i ok h = (
  0 ∷ [],
  refl,
  record { size = omega arith; digit = λ k lt. absurd (omega arith); ended = refl },
)
to_string_loop-IsPrinted m (suc left) i ok h =
    let read = bitmask_get-bit_at m i (omega (arith, ok.sized)) in
    let (s, e, printed) = to_string_loop-IsPrinted m left (i + 1) ok (omega arith) in
    ((b'0' + bit_at m i) ∷ s, rw (read, e), IsPrinted-cons m i left (bit_at m i) s read printed)

-- With a buffer of `buf_len` bytes, at least one, the print of a well-formed mask does not fault and
-- writes at most `buf_len` bytes: a character `0` or `1` for each element in order, as far as the
-- buffer has room for one 0 more, and that 0.
pub bitmask_to_string-IsPrinted :
    (m : Bitmask) (buf_len : ℕ)
    → IsBitmask m
    → 0 < buf_len
    → buf_len < 2 ^ 64
    → (s : List ℕ) × (bitmask_to_string m buf_len ≡ some s)
      × (length s ≤ buf_len)
      × IsPrinted m 0 (min m.num_elements (buf_len - 1)) s
unfolding bitmask_to_string
bitmask_to_string-IsPrinted m buf_len ok pos small =
    let no_wrap : sub64 buf_len 1 ≡ buf_len - 1 = omega arith in
    rw no_wrap
      (fits (to_string_loop-IsPrinted m (min m.num_elements (buf_len - 1)) 0 ok (omega arith)))
  where
    fits :
        (s : List ℕ) × (to_string_loop m (min m.num_elements (buf_len - 1)) 0 ≡ some s)
          × IsPrinted m 0 (min m.num_elements (buf_len - 1)) s
        → (s : List ℕ) × (to_string_loop m (min m.num_elements (buf_len - 1)) 0 ≡ some s)
          × (length s ≤ buf_len)
          × IsPrinted m 0 (min m.num_elements (buf_len - 1)) s
    fits (s, e, printed) = (s, e, omega (arith, printed.size), printed)
