-- ===== src/ThreadPool/Family.antt =====
-- How many of the first `n` threads are in some state.
use puma.Base.{ℕ, zero, suc, ◌+◌, ◌≤◌, ◌<◌, ◌≡◌, ◌≢◌, refl, arith, ℕ_discrete}
use puma.Memory.{update}

-- A test on states: 1 or 0.
pub record IsTest {ℓ} {A : Type ℓ} (w : A → ℕ) : Type ℓ where
  pub small : (a : A) → w a ≤ 1

module _ {ℓ} {A : Type ℓ} (w : A → ℕ) where
  pub how_many : ℕ → (ℕ → A) → ℕ
  how_many zero f = 0
  how_many (suc n) f = w (f n) + how_many n f

  pub how_many-same :
      (n : ℕ) (f g : ℕ → A) → ((i : ℕ) → i < n → w (f i) ≡ w (g i)) → how_many n f ≡ how_many n g
  unfolding how_many
  how_many-same zero f g same = refl
  how_many-same (suc n) f g same =
      let rest = how_many-same n f g (λ i lt. same i (omega arith)) in
      let here = same n (omega arith) in omega (arith, rest, here)

  pub how_many-update :
      (n i : ℕ) (f : ℕ → A) (a : A)
      → i < n
      → how_many n (update f i a) + w (f i) ≡ how_many n f + w a
  unfolding how_many
  how_many-update zero i f a lt = absurd (omega arith)
  how_many-update (suc n) i f a lt = elim (ℕ_discrete i n) [
    | yes last ↦
        let rest = how_many-same n (update f i a) f (λ j below. ground arith) in
        ground (arith, rest)
    | no ne ↦ let rest = how_many-update n i f a (omega arith) in ground (arith, rest)
  ]

  pub how_many-none : (n : ℕ) (f : ℕ → A) → ((i : ℕ) → i < n → w (f i) ≡ 0) → how_many n f ≡ 0
  unfolding how_many
  how_many-none zero f each = refl
  how_many-none (suc n) f each =
      let rest = how_many-none n f (λ i lt. each i (omega arith)) in
      let here = each n (omega arith) in omega (arith, rest, here)

  module _ (test : IsTest w) where
    pub how_many-le : (n : ℕ) (f : ℕ → A) → how_many n f ≤ n
    unfolding how_many
    how_many-le zero f = omega arith
    how_many-le (suc n) f =
        let rest = how_many-le n f in let here = test.small (f n) in omega (arith, rest, here)

    pub how_many-all : (n : ℕ) (f : ℕ → A) → how_many n f ≡ n → (i : ℕ) → i < n → w (f i) ≡ 1
    unfolding how_many
    how_many-all zero f all i lt = absurd (omega arith)
    how_many-all (suc n) f all i lt =
        let most = how_many-le n f in
        let here = test.small (f n) in
        elim (ℕ_discrete i n) [
          | yes last ↦ ground (arith, most, here)
          | no ne ↦ how_many-all n f (omega (arith, most, here)) i (omega arith)
        ]

    -- All but thread `i`.
    pub how_many-others :
        (n i : ℕ) (f : ℕ → A)
        → i < n
        → w (f i) ≡ 0
        → n ≤ how_many n f + 1
        → (j : ℕ) → j < n
        → i ≢ j
        → w (f j) ≡ 1
    unfolding how_many
    how_many-others zero i f lt here all j below ne = absurd (omega arith)
    how_many-others (suc n) i f lt here all j below ne =
        let most = how_many-le n f in
        let at_n = test.small (f n) in
        elim (ℕ_discrete i n) [
          | yes last ↦
              let none_here : w (f n) ≡ 0 = ground (arith, last, here) in
              how_many-all n f (omega (arith, most, none_here)) j (omega arith)
          | no ne_i ↦
              let rest_i = how_many-all n f in
              let not_all : how_many n f ≢ n =
                λ e. let one = rest_i e i (omega arith) in omega (arith, one, here) in
              elim (ℕ_discrete j n) [
                | yes last ↦ ground (arith, most, at_n, not_all)
                | no ne_j ↦
                    how_many-others n i f (omega arith) here (omega (arith, at_n)) j (omega arith)
                      ne
              ]
        ]

    pub some_other : (n : ℕ) (f : ℕ → A) → how_many n f < n → (i : ℕ) × (i < n) × (w (f i) ≡ 0)
    unfolding how_many
    some_other zero f less = absurd (omega arith)
    some_other (suc n) f less =
        let here = test.small (f n) in
        elim (ℕ_discrete (w (f n)) 0) [
          | yes e ↦ (n, omega arith, e)
          | no ne ↦ let (i, lt, e) = some_other n f (omega (arith, here)) in (i, omega arith, e)
        ]
