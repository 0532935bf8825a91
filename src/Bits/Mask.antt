-- ===== src/Bits/Mask.antt =====
-- `x & ~(2 ^ k - 1)`: the multiple of `2 ^ k` at or below `x`.
use Prim.Native.Nat.{bit_and}
use puma.Base.{
  ℕ, zero, suc, ◌+◌, ◌-◌, ◌*◌, ◌/◌, ◌^◌, ◌≤◌, ◌<◌, ◌≡◌, ap, ◌∙◌, arith, ltb, dec_lt, min,
  if◌then◌else◌,
}
use native.Mathlib.Nat.{pow-suc, pow-succ', div-div-eq-div-mul, div-add-mod', pow-le-pow_right}
use puma.Bits.{bit, bit-lt, bit-zero, bit-shl, bit-bit_and, pow_pos}
use puma.Word.{inv, inv-lt, bit-inv, bit_and-le}

-- A number below `2 ^ w` is given by its bits below `w`.
pub eq_of_bits : (w x y : ℕ) → x < 2 ^ w → y < 2 ^ w → ((i : ℕ) → i < w → bit x i ≡ bit y i) → x ≡ y
unfolding bit
eq_of_bits zero x y hx hy same = omega arith
eq_of_bits (suc w) x y hx hy same =
    let half : x / 2 ≡ y / 2 =
      eq_of_bits w (x / 2) (y / 2) (omega (arith, pow-suc 2 w)) (omega (arith, pow-suc 2 w))
        λ i lt. same (suc i) (omega arith) in
    omega (arith, same 0 (omega arith))

bit-low : (k i : ℕ) → bit (2 ^ k - 1) i ≡ (if ltb i k then 1 else 0)
unfolding bit
bit-low zero i = ground (arith, bit-zero i)
bit-low (suc k) zero = ground (arith, pow-suc 2 k, pow_pos k)
bit-low (suc k) (suc i) =
    let half : (2 ^ suc k - 1) / 2 ≡ 2 ^ k - 1 = omega (arith, pow-suc 2 k, pow_pos k) in
    rw half (ground (arith, bit-low k i))

bit-div : (k x i : ℕ) → bit (x / 2 ^ k) i ≡ bit x (i + k)
unfolding bit
bit-div zero x i = let e : i + 0 ≡ i = omega arith in rw e (ap (λ t. bit t i) (omega arith))
bit-div (suc k) x i =
    let halved : x / 2 ^ suc k ≡ x / 2 / 2 ^ k =
      rw (pow-succ' 2 k, div-div-eq-div-mul x 2 (2 ^ k)) in
    let moved : i + suc k ≡ suc (i + k) = omega arith in rw (halved, moved) (bit-div k (x / 2) i)

-- A mask of all but the `k` lowest bits rounds down to a multiple of `2 ^ k`.
pub bit_and-round :
    (k x : ℕ) → k ≤ 64 → x < 2 ^ 64 → bit_and x (inv (2 ^ k - 1)) ≡ x / 2 ^ k * 2 ^ k
bit_and-round k x few small =
    eq_of_bits 64 (bit_and x (inv (2 ^ k - 1))) (x / 2 ^ k * 2 ^ k)
      (omega (arith, bit_and-le x (inv (2 ^ k - 1)), inv-lt (2 ^ k - 1)))
      (omega (arith, div-add-mod' x (2 ^ k)))
      λ i lt. elim (dec_lt i k) [
        | yes low ↦ ground (arith, facts i lt)
        | no high ↦
            let moved : i - k + k ≡ i = omega arith in
            ground (arith, facts i lt, bit-div k x (i - k), ap (λ t. bit x t) moved)
      ]
  where
    facts :
        (i : ℕ)
        → i < 64
        → (bit (bit_and x (inv (2 ^ k - 1))) i ≡ min (bit x i) (1 - (if ltb i k then 1 else 0)))
          × (bit (x / 2 ^ k * 2 ^ k) i ≡ (if ltb i k then 0 else bit (x / 2 ^ k) (i - k)))
          × (bit x i < 2)
    facts i lt = (
      bit-bit_and x (inv (2 ^ k - 1)) i
          ∙ ap (λ t. min (bit x i) t)
              (bit-inv (2 ^ k - 1) i (omega (arith, pow-le-pow_right {n = 2} (omega arith) few)) lt
                ∙ ap (λ t. 1 - t) (bit-low k i)),
      bit-shl k (x / 2 ^ k) i,
      bit-lt x i,
    )
