-- ===== src/Balance/Shape.antt =====
-- What a transfer keeps of a chain: the addresses of its nodes, and which of them are active and how
-- they are counted.
use puma.Base.{
  ℕ, suc, ◌+◌, ◌≡◌, refl, sym, ap, ◌∙◌, arith, Bool, true, false, List, [], ◌∷◌, ◌==◌, ◌||◌, ◌++◌,
  length, Option, some,
}
use puma.Memory.{Ptr, Node}
use puma.Node.Chain.{Cells, first_of, Linked, has, Apart, total_elements}
use puma.Balance.Segment.{last_of, at_last, mapped, IsCounted}

abbrev pub addresses : Cells → List Ptr
addresses [] = []
addresses ((p, n) ∷ rest) = p ∷ addresses rest

abbrev pub Alike : Cells → Cells → Type 0
Alike xs ys = addresses xs ≡ addresses ys

abbrev pub is_among : Ptr → List Ptr → Bool
is_among q [] = false
is_among q (p ∷ rest) = (p == q) || is_among q rest

has-is_among : (q : Ptr) (cells : Cells) → has q cells ≡ is_among q (addresses cells)
has-is_among q [] = refl
has-is_among q ((p, n) ∷ rest) = ap (λ b. (p == q) || b) (has-is_among q rest)

pub has-Alike : (q : Ptr) (xs ys : Cells) → Alike xs ys → has q xs ≡ has q ys
has-Alike q xs ys same = has-is_among q xs ∙ ap (is_among q) same ∙ sym (has-is_among q ys)

abbrev pub Distinct : List Ptr → Type 0
Distinct [] = Unit
Distinct (p ∷ rest) = (is_among p rest ≡ false) × Distinct rest

Apart-Distinct : (cells : Cells) → Apart cells → Distinct (addresses cells)
Apart-Distinct [] apart = tt
Apart-Distinct ((p, n) ∷ rest) (new, apart) =
    (sym (has-is_among p rest) ∙ new, Apart-Distinct rest apart)

Distinct-Apart : (cells : Cells) → Distinct (addresses cells) → Apart cells
Distinct-Apart [] distinct = tt
Distinct-Apart ((p, n) ∷ rest) (new, distinct) =
    (has-is_among p rest ∙ new, Distinct-Apart rest distinct)

pub Apart-Alike : (xs ys : Cells) → Alike xs ys → Apart ys → Apart xs
Apart-Alike xs ys same apart = Distinct-Apart xs (rw same (Apart-Distinct ys apart))

abbrev last_address : List Ptr → Ptr → Ptr
last_address [] before = before
last_address (p ∷ rest) before = last_address rest p

last_of-last_address :
    (cells : Cells) (before : Ptr) → last_of cells before ≡ last_address (addresses cells) before
last_of-last_address [] before = refl
last_of-last_address ((p, n) ∷ rest) before = last_of-last_address rest p

pub last_of-Alike :
    (before : Ptr) (xs ys : Cells) → Alike xs ys → last_of xs before ≡ last_of ys before
last_of-Alike before xs ys same =
    last_of-last_address xs before
    ∙ ap (λ l. last_address l before) same
    ∙ sym (last_of-last_address ys before)

length-addresses : (cells : Cells) → length cells ≡ length (addresses cells)
length-addresses [] = refl
length-addresses ((p, n) ∷ rest) = ap suc (length-addresses rest)

pub length-Alike : (xs ys : Cells) → Alike xs ys → length xs ≡ length ys
length-Alike xs ys same = length-addresses xs ∙ ap length same ∙ sym (length-addresses ys)

pub at_last-Alike : (g : Node → Node) (cells : Cells) → Alike (at_last g cells) cells
at_last-Alike g [] = refl
at_last-Alike g ((p, n) ∷ rest) = ap (λ l. p ∷ l) (at_last-Alike g rest)

pub mapped-Alike : (f : ℕ → Node → Node) (i : ℕ) (cells : Cells) → Alike (mapped f i cells) cells
mapped-Alike f i [] = refl
mapped-Alike f i ((p, n) ∷ rest) = ap (λ l. p ∷ l) (mapped-Alike f (i + 1) rest)

pub at_last-IsCounted :
    (g : Node → Node) (i : ℕ) (cells : Cells)
    → ((n : Node) → (g n).active ≡ n.active)
    → ((n : Node) → (g n).index ≡ n.index)
    → IsCounted i cells
    → IsCounted i (at_last g cells)
at_last-IsCounted g i [] on at counted = tt
at_last-IsCounted g i ((p, n) ∷ []) on at (active, here, counted) = (on n ∙ active, at n ∙ here, tt)
at_last-IsCounted g i ((p, n) ∷ (p', n') ∷ rest) on at (active, here, counted) =
    (active, here, at_last-IsCounted g (i + 1) ((p', n') ∷ rest) on at counted)

-- Whatever the indexes were, they are now those from `i` on.
pub mapped-IsCounted :
    (f : ℕ → Node → Node) (i j : ℕ) (cells : Cells)
    → ((k : ℕ) (n : Node) → (f k n).active ≡ n.active)
    → ((k : ℕ) (n : Node) → (f k n).index ≡ k)
    → IsCounted j cells
    → IsCounted i (mapped f i cells)
mapped-IsCounted f i j [] on at counted = tt
mapped-IsCounted f i j ((p, n) ∷ rest) on at (active, here, counted) =
    (on i n ∙ active, at i n, mapped-IsCounted f (i + 1) (j + 1) rest on at counted)

pub mapped-kept :
    (f : ℕ → Node → Node) (i j : ℕ) (cells : Cells)
    → ((k : ℕ) (n : Node) → (f k n).active ≡ n.active)
    → ((k : ℕ) (n : Node) → (f k n).index ≡ n.index)
    → IsCounted j cells
    → IsCounted j (mapped f i cells)
mapped-kept f i j [] on at counted = tt
mapped-kept f i j ((p, n) ∷ rest) on at (active, here, counted) =
    (on i n ∙ active, at i n ∙ here, mapped-kept f (i + 1) (j + 1) rest on at counted)

pub IsCounted-++ :
    (i : ℕ) (xs ys : Cells) → IsCounted i (xs ++ ys) → IsCounted i xs × IsCounted (i + length xs) ys
IsCounted-++ i [] ys counted = let e : i + 0 ≡ i = omega arith in (tt, rw e counted)
IsCounted-++ i ((p, n) ∷ xs) ys (active, here, counted) =
    let (left, right) = IsCounted-++ (i + 1) xs ys counted in
    let e : i + suc (length xs) ≡ i + 1 + length xs = omega arith in
    ((active, here, left), rw e right)

pub ++-IsCounted :
    (i : ℕ) (xs ys : Cells) → IsCounted i xs → IsCounted (i + length xs) ys → IsCounted i (xs ++ ys)
++-IsCounted i [] ys left right = let e : i + 0 ≡ i = omega arith in rw e at right
++-IsCounted i ((p, n) ∷ xs) ys (active, here, left) right =
    let e : i + suc (length xs) ≡ i + 1 + length xs = omega arith in
    (active, here, ++-IsCounted (i + 1) xs ys left (rw e at right))

pub last-IsCounted :
    (m : Ptr → Option Node) (before after p : Ptr) (n : Node) (rest : Cells) (i : ℕ)
    → Linked m before ((p, n) ∷ rest) after
    → IsCounted i ((p, n) ∷ rest)
    → (x : Node) × (m (last_of rest p) ≡ some x)
      × (x.index + 1 ≡ i + suc (length rest))
      × (x.active ≡ true)
      × (x.next ≡ after)
last-IsCounted m before after p n [] i (at_p, live, back, forward, others) (active, here, counted) =
    (n, at_p, omega (arith, here), active, forward)
last-IsCounted m before after p n ((p', n') ∷ rest) i (at_p, live, back, forward, others)
      (active, here, counted) =
    let (x, at_x, index, on, next_x) = last-IsCounted m p after p' n' rest (i + 1) others counted in
    (x, at_x, omega (arith, index), on, next_x)

first_of-++ :
    (xs ys : Cells) (after : Ptr) → first_of (xs ++ ys) after ≡ first_of xs (first_of ys after)
first_of-++ [] ys after = refl
first_of-++ (c ∷ xs) ys after = refl

pub Linked-++ :
    (m : Ptr → Option Node) (before after : Ptr) (xs ys : Cells)
    → Linked m before (xs ++ ys) after
    → Linked m before xs (first_of ys after) × Linked m (last_of xs before) ys after
Linked-++ m before after [] ys linked = (tt, linked)
Linked-++ m before after ((p, n) ∷ xs) ys (at_p, live, back, forward, others) =
    let (left, right) = Linked-++ m p after xs ys others in
    ((at_p, live, back, forward ∙ first_of-++ xs ys after, left), right)

pub ++-Linked :
    (m : Ptr → Option Node) (before after : Ptr) (xs ys : Cells)
    → Linked m before xs (first_of ys after)
    → Linked m (last_of xs before) ys after
    → Linked m before (xs ++ ys) after
++-Linked m before after [] ys left right = right
++-Linked m before after ((p, n) ∷ xs) ys (at_p, live, back, forward, others) right = (
  at_p,
  live,
  back,
  forward ∙ sym (first_of-++ xs ys after),
  ++-Linked m p after xs ys others right,
)

pub total_elements-at_last :
    (g : Node → Node) (cells : Cells)
    → ((n : Node) → (g n).num_elements ≡ n.num_elements)
    → total_elements (at_last g cells) ≡ total_elements cells
total_elements-at_last g [] kept = refl
total_elements-at_last g ((p, n) ∷ []) kept = ap (λ k. k + 0) (kept n)
total_elements-at_last g ((p, n) ∷ c ∷ rest) kept =
    ap (λ k. n.num_elements + k) (total_elements-at_last g (c ∷ rest) kept)

pub total_elements-mapped :
    (f : ℕ → Node → Node) (i : ℕ) (cells : Cells)
    → ((k : ℕ) (n : Node) → (f k n).num_elements ≡ n.num_elements)
    → total_elements (mapped f i cells) ≡ total_elements cells
total_elements-mapped f i [] kept = refl
total_elements-mapped f i ((p, n) ∷ rest) kept =
    let later = total_elements-mapped f (i + 1) rest kept in
    let here = kept i n in omega (arith, later, here)

pub total_elements-++ :
    (xs ys : Cells) → total_elements (xs ++ ys) ≡ total_elements xs + total_elements ys
total_elements-++ [] ys = omega arith
total_elements-++ ((p, n) ∷ xs) ys = let later = total_elements-++ xs ys in omega (arith, later)

pub length-++ : (xs ys : Cells) → length (xs ++ ys) ≡ length xs + length ys
length-++ [] ys = omega arith
length-++ (c ∷ xs) ys = let later = length-++ xs ys in omega (arith, later)

pub last_of-++ :
    (xs ys : Cells) (before : Ptr) → last_of (xs ++ ys) before ≡ last_of ys (last_of xs before)
last_of-++ [] ys before = refl
last_of-++ ((p, n) ∷ xs) ys before = last_of-++ xs ys p
