-- ===== src/Word.antt =====
-- `size_t` and `uint64_t`: words of 64 bits as numbers, with the wrap of each operation written
-- out, and the bits of the results.
use Prim.Native.Nat.{bit_and}
use puma.Base.{
  ℕ, zero, suc, ◌+◌, ◌-◌, ◌*◌, ◌/◌, ◌%◌, ◌^◌, ◌≤◌, ◌<◌, ◌≡◌, refl, ◌∙◌, arith, true, ltb,
  if◌then◌else◌,
}
use puma.Bits.{bit, bit-mod, bit-shl, bit-zero, bit-not, bit-div-pow}
use puma.Bits.Step.{bit_and_step}

abbrev pub word_mod : ℕ
word_mod = 2 ^ 64

-- `(size_t)-1` and `(uint64_t)-1`.
abbrev pub ones : ℕ
ones = 2 ^ 64 - 1

abbrev pub u64 : ℕ → ℕ
u64 n = n % 2 ^ 64

-- `a - b`, which wraps round below 0.
abbrev pub sub64 : ℕ → ℕ → ℕ
sub64 a b = (a + 2 ^ 64 - b) % 2 ^ 64

-- `x << k` and `x >> k` for `k < 64`, and `~x`.
unfoldable pub shl : ℕ → ℕ → ℕ
shl x k = x * 2 ^ k % 2 ^ 64

unfoldable pub shr : ℕ → ℕ → ℕ
shr x k = x / 2 ^ k

unfoldable pub inv : ℕ → ℕ
inv x = 2 ^ 64 - 1 - x

pub shl-lt : (x k : ℕ) → shl x k < word_mod
unfolding shl
shl-lt x k = omega arith

pub inv-lt : (x : ℕ) → inv x < word_mod
unfolding inv
inv-lt x = omega arith

pub bit-shl64 : (x k i : ℕ) → i < 64 → bit (shl x k) i ≡ (if ltb i k then 0 else bit x (i - k))
unfolding shl
bit-shl64 x k i h =
    let top : ltb i 64 ≡ true = ground arith in bit-mod 64 (x * 2 ^ k) i ∙ rw top (bit-shl k x i)

pub bit-inv : (x i : ℕ) → x < word_mod → i < 64 → bit (inv x) i ≡ 1 - bit x i
unfolding inv
bit-inv x i h lt = bit-not 64 x i h lt

bit_and-zero : (k y : ℕ) → y ≤ k → bit_and y 0 ≡ 0
bit_and-zero k zero h = refl
bit_and-zero zero (suc y) h = absurd (omega arith)
bit_and-zero (suc k) (suc y) h =
    omega (arith, bit_and_step (suc y) 0, bit_and-zero k (suc y / 2) (omega arith))

-- `x & 1`.
pub bit_and-one : (x : ℕ) → bit_and x 1 ≡ x % 2
bit_and-one x = omega (arith, bit_and_step x 1, bit_and-zero (x / 2) (x / 2) (omega arith))

-- `(x >> k) & 1` is bit `k`.
pub shr-bit : (x k : ℕ) → bit_and (shr x k) 1 ≡ bit x k
unfolding shr
shr-bit x k = bit_and-one (x / 2 ^ k) ∙ bit-div-pow k x

bit_and-le_fuel : (k a b : ℕ) → b ≤ k → bit_and a b ≤ b
bit_and-le_fuel zero a b h =
    let e : b ≡ 0 = omega arith in rw e (omega (arith, bit_and-zero a a (omega arith)))
bit_and-le_fuel (suc k) a zero h = omega (arith, bit_and-zero a a (omega arith))
bit_and-le_fuel (suc k) a (suc b) h =
    omega (arith, bit_and_step a (suc b), bit_and-le_fuel k (a / 2) (suc b / 2) (omega arith))

pub bit_and-le : (a b : ℕ) → bit_and a b ≤ b
bit_and-le a b = bit_and-le_fuel b a b (omega arith)

pub bit-ones : (i : ℕ) → i < 64 → bit ones i ≡ 1
unfolding inv
bit-ones i h = ground (arith, bit-inv 0 i, bit-zero i)
