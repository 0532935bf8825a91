-- ===== src/Bits.antt =====
-- The bits of a number, and what the operators `|`, `&`, `^`, `~`, `<<` do to each of them.
pub mod Step
pub mod Mask
use puma.Base.{
  ℕ, zero, suc, ◌+◌, ◌-◌, ◌*◌, ◌/◌, ◌%◌, ◌^◌, ◌≤◌, ◌<◌, min, max, ◌≡◌, refl, ap, ◌∙◌, arith,
}
use puma.Base.{if◌then◌else◌, ltb, ◌==◌}
use Prim.Native.Nat.{bit_and, bit_or, bit_xor}
use native.Mathlib.Nat.{pow-suc, one-le-pow, div-div-eq-div-mul, div-add-mod', mul_comm, pow-succ'}
use Step.{bit_or_step, bit_and_step, bit_xor_step}

-- Bit `i` of `x`, bit 0 the lowest.
unfoldable pub bit : ℕ → ℕ → ℕ
bit x zero = x % 2
bit x (suc i) = bit (x / 2) i

pub bit-lt : (x i : ℕ) → bit x i < 2
unfolding bit
bit-lt x zero = omega arith
bit-lt x (suc i) = bit-lt (x / 2) i

pub bit-zero : (i : ℕ) → bit 0 i ≡ 0
unfolding bit
bit-zero zero = refl
bit-zero (suc i) = bit-zero i

pub bit-bit_or : (a b i : ℕ) → bit (bit_or a b) i ≡ max (bit a i) (bit b i)
unfolding bit
bit-bit_or a b zero = omega (arith, bit_or_step a b)
bit-bit_or a b (suc i) =
    let e : bit_or a b / 2 ≡ bit_or (a / 2) (b / 2) = omega (arith, bit_or_step a b) in
    let ih = bit-bit_or (a / 2) (b / 2) i in omega (arith, ih, ap (λ t. bit t i) e)

pub bit-bit_and : (a b i : ℕ) → bit (bit_and a b) i ≡ min (bit a i) (bit b i)
unfolding bit
bit-bit_and a b zero = omega (arith, bit_and_step a b)
bit-bit_and a b (suc i) =
    let e : bit_and a b / 2 ≡ bit_and (a / 2) (b / 2) = omega (arith, bit_and_step a b) in
    let ih = bit-bit_and (a / 2) (b / 2) i in omega (arith, ih, ap (λ t. bit t i) e)

pub bit-bit_xor : (a b i : ℕ) → bit (bit_xor a b) i ≡ (bit a i + bit b i) % 2
unfolding bit
bit-bit_xor a b zero = omega (arith, bit_xor_step a b)
bit-bit_xor a b (suc i) =
    let e : bit_xor a b / 2 ≡ bit_xor (a / 2) (b / 2) = omega (arith, bit_xor_step a b) in
    let ih = bit-bit_xor (a / 2) (b / 2) i in omega (arith, ih, ap (λ t. bit t i) e)

-- Arithmetic of `2 ^ k`.
pub pow_pos : (k : ℕ) → 0 < 2 ^ k
pow_pos k = one-le-pow k 2 (omega arith)

mod_double : (p x : ℕ) → 0 < p → x % (p * 2) ≡ x / 2 % p * 2 + x % 2
mod_double p x pos =
    let q : x / 2 / p ≡ x / (p * 2) = div-div-eq-div-mul x 2 p ∙ ap (λ t. x / t) (mul_comm 2 p) in
    let whole : x / (p * 2) * (p * 2) ≡ x / 2 / p * p * 2 = rw (← q) (omega arith) in
    omega (arith, div-add-mod' x (p * 2), div-add-mod' (x / 2) p, whole)

pub bit-mod : (w x i : ℕ) → bit (x % 2 ^ w) i ≡ (if ltb i w then bit x i else 0)
unfolding bit
bit-mod zero x i = ground (arith, bit-zero i)
bit-mod (suc w) x zero = ground (arith, mod_double (2 ^ w) x, pow-suc 2 w, pow_pos w)
bit-mod (suc w) x (suc i) =
    let e : x % 2 ^ suc w / 2 ≡ x / 2 % 2 ^ w =
      ground (arith, mod_double (2 ^ w) x, pow-suc 2 w, pow_pos w) in
    rw e (ground (arith, bit-mod w (x / 2) i))

mul-pow-suc : (x k : ℕ) → x * 2 ^ suc k ≡ x * 2 ^ k * 2
mul-pow-suc x k = omega (arith, ap (λ (t : ℕ). x * t) (pow-suc 2 k))

pub bit-shl : (k x i : ℕ) → bit (x * 2 ^ k) i ≡ (if ltb i k then 0 else bit x (i - k))
unfolding bit
bit-shl zero x i = ground arith
bit-shl (suc k) x zero = ground (arith, mul-pow-suc x k)
bit-shl (suc k) x (suc i) =
    let e : x * 2 ^ suc k / 2 ≡ x * 2 ^ k = omega (arith, mul-pow-suc x k) in
    rw e (ground (arith, bit-shl k x i))

-- `~x` in `w` bits.
pub bit-not : (w x i : ℕ) → x < 2 ^ w → i < w → bit (2 ^ w - 1 - x) i ≡ 1 - bit x i
unfolding bit
bit-not zero x i h lt = absurd (omega arith)
bit-not (suc w) x zero h lt = omega (arith, pow-suc 2 w)
bit-not (suc w) x (suc i) h lt =
    let e : (2 ^ suc w - 1 - x) / 2 ≡ 2 ^ w - 1 - x / 2 = omega (arith, pow-suc 2 w) in
    rw e (bit-not w (x / 2) i (omega (arith, pow-suc 2 w)) (omega arith))

-- A number with no bit set below `w` and none above is 0.
pub eq_zero_of_bits : (w x : ℕ) → x < 2 ^ w → ((i : ℕ) → i < w → bit x i ≡ 0) → x ≡ 0
unfolding bit
eq_zero_of_bits zero x h z = omega arith
eq_zero_of_bits (suc w) x h z =
    let half : x / 2 ≡ 0 =
      eq_zero_of_bits w (x / 2) (omega (arith, pow-suc 2 w)) (λ i lt. z (suc i) (omega arith)) in
    omega (arith, z 0 (omega arith))

-- The shift and the test of the lowest bit.
pub bit-div-pow : (k x : ℕ) → x / 2 ^ k % 2 ≡ bit x k
unfolding bit
bit-div-pow zero x = omega arith
bit-div-pow (suc k) x =
    let halved : x / 2 ^ suc k ≡ x / 2 / 2 ^ k =
      rw (pow-succ' 2 k, div-div-eq-div-mul x 2 (2 ^ k)) in
    rw halved (bit-div-pow k (x / 2))

-- A number of one bit.
pub bit_single : (v i : ℕ) → v < 2 → bit v i ≡ (if i == 0 then v else 0)
unfolding bit
bit_single v zero h = omega arith
bit_single v (suc i) h = let e : v / 2 ≡ 0 = omega arith in rw e (ground (arith, bit-zero i))
