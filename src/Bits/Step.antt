-- ===== src/Bits/Step.antt =====
-- The native operations `bit_or`, `bit_and` and `bit_xor`, one digit at a time: the lowest digits
-- are joined, and the halves go on. The count of digits that `digits` runs on is dropped.
use Prim.Native.Nat.{bit_and, bit_or, bit_xor, digits, differ}
use Prim.Native.Nat.{bit_and-bitwise, bit_or-bitwise, bit_xor-bitwise}
use puma.Base.{ℕ, zero, suc, ◌+◌, ◌*◌, ◌/◌, ◌%◌, ◌≤◌, min, max, ◌≡◌, refl, ◌⊎◌, inl, inr, arith}

module _ (rest : ℕ → ℕ) (join : ℕ → ℕ → ℕ) where
  digits-zero : (k b : ℕ) → digits rest join k 0 b ≡ rest b
  digits-zero zero b = refl
  digits-zero (suc _) b = refl

  -- Any two counts that reach `a` give one result.
  digits_agree :
      (j : ℕ) {k : ℕ} (a b : ℕ) → a ≤ j → a ≤ k → digits rest join k a b ≡ digits rest join j a b
  digits_agree j {k} zero b p q = rw (digits-zero j b, digits-zero k b)
  digits_agree zero (suc a) b p q = absurd (omega arith)
  digits_agree (suc j) {k = zero} (suc a) b p q = absurd (omega arith)
  digits_agree (suc j) {k = suc k} (suc a) b p q =
      rw (digits_agree j {k = k} (suc a / 2) (b / 2) (omega arith) (omega arith))

  digits-suc :
      (a b : ℕ)
      → digits rest join (suc a) (suc a) b
        ≡ digits rest join (suc a / 2) (suc a / 2) (b / 2) * 2 + join (suc a % 2) (b % 2)
  digits-suc a b =
      rw (digits_agree (suc a / 2) {k = a} (suc a / 2) (b / 2) (omega arith) (omega arith))

pub bit_or_step : (x y : ℕ) → bit_or x y ≡ max (x % 2) (y % 2) + 2 * bit_or (x / 2) (y / 2)
bit_or_step zero y = simp bit_or-bitwise (omega arith)
bit_or_step (suc x) y = simp bit_or-bitwise (omega (arith, digits-suc (λ r. r) max x y))

pub bit_and_step : (x y : ℕ) → bit_and x y ≡ min (x % 2) (y % 2) + 2 * bit_and (x / 2) (y / 2)
bit_and_step zero y = simp bit_and-bitwise (omega arith)
bit_and_step (suc x) y = simp bit_and-bitwise (omega (arith, digits-suc (λ r. 0) min x y))

pub digit-cases : (x : ℕ) → (x % 2 ≡ 0) ⊎ (x % 2 ≡ 1)
digit-cases x = omega arith

differ_digits : (a b : ℕ) → differ (a % 2) (b % 2) ≡ (a + b) % 2
differ_digits a b = elim (digit-cases a) [
  | inl p ↦ rw p (omega arith)
  | inr p ↦ elim (digit-cases b) [
    | inl q ↦ rw (p, q) (omega arith)
    | inr q ↦ rw (p, q) (omega arith)
  ]
]

pub bit_xor_step : (a b : ℕ) → bit_xor a b ≡ bit_xor (a / 2) (b / 2) * 2 + (a + b) % 2
bit_xor_step zero b = simp bit_xor-bitwise (omega arith)
bit_xor_step (suc a) b =
    rw (← differ_digits (suc a) b) (simp bit_xor-bitwise (digits-suc (λ r. r) differ a b))
