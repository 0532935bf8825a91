-- ===== src/Balance/Segment.antt =====
-- A chain of nodes under the updates that a transfer makes: of one node elsewhere, of its last node,
-- and of each of its nodes in turn.
use puma.Base.{
  ℕ, zero, suc, ◌+◌, ◌<◌, ◌≡◌, ◌≢◌, refl, sym, ap, ◌∙◌, arith, true, false, none, some, Option, [],
  ◌∷◌, ◌==◌, length, ℕ_discrete, ◌⊎◌, inl, inr, Option-cases,
}
use puma.Memory.{Ptr, null, Node, Memory, M, update, load}
use puma.Node.Chain.{Cells, first_of, Linked, Linked-frame, has, Apart}
use puma.Balance.{each_node, back_up, count_loop}

abbrev pub last_of : Cells → (before : Ptr) → Ptr
last_of [] before = before
last_of ((p, n) ∷ rest) before = last_of rest p

abbrev pub if_last : (Node → Node) → Node → (rest : Cells) → Node
if_last g n [] = g n
if_last g n (c ∷ rest) = n

-- The chain with its last node replaced.
abbrev pub at_last : (Node → Node) → Cells → Cells
at_last g [] = []
at_last g ((p, n) ∷ rest) = (p, if_last g n rest) ∷ at_last g rest

pub has-last_of :
    (p : Ptr) (n : Node) (rest : Cells) (before : Ptr)
    → has (last_of ((p, n) ∷ rest) before) ((p, n) ∷ rest) ≡ true
has-last_of p n [] before = ground arith
has-last_of p n ((p', n') ∷ rest) before =
    let there = has-last_of p' n' rest p in ground (arith, there)

pub update-other {ℓ} :
    {A : Type ℓ} (m : Ptr → Option A) (p q : Ptr) (x : Option A) → p ≢ q → update m p x q ≡ m q
update-other m p q x ne = ground arith

pub Linked-update :
    (m : Ptr → Option Node) (p before after : Ptr) (x : Option Node) (cells : Cells)
    → has p cells ≡ false
    → Linked m before cells after
    → Linked (update m p x) before cells after
Linked-update m p before after x cells new linked =
    Linked-frame m (update m p x) before after cells (λ q at. apart q at) linked
  where
    apart : (q : Ptr) → has q cells ≡ true → update m p x q ≡ m q
    apart q at = elim (ℕ_discrete p q) [
      | yes same ↦ absurd (ground (arith, at, new, ap (λ u. has u cells) same))
      | no ne ↦ ground arith
    ]

-- The last node of a chain is replaced.
pub Linked-last :
    (g : Node → Node) (after' : Ptr) (m : Ptr → Option Node) (before after p : Ptr) (n : Node)
    (rest : Cells)
    → ((x : Node) → (g x).prev ≡ x.prev)
    → ((x : Node) → (g x).next ≡ after')
    → Linked m before ((p, n) ∷ rest) after
    → Apart ((p, n) ∷ rest)
    → (x : Node) × (m (last_of rest p) ≡ some x)
      × (x.next ≡ after)
      × Linked (update m (last_of rest p) (some (g x))) before (at_last g ((p, n) ∷ rest)) after'
Linked-last g after' m before after p n [] same_prev next_g (at_p, live, back, forward, others)
      apart =
    (n, at_p, forward, (ground arith, live, same_prev n ∙ back, next_g n, tt))
Linked-last g after' m before after p n ((p', n') ∷ rest) same_prev next_g
      (at_p, live, back, forward, others) (new, apart) =
    let (x, at_x, next_x, linked) =
      Linked-last g after' m p after p' n' rest same_prev next_g others apart in
    let there = has-last_of p' n' rest p in
    let other : last_of rest p' ≢ p = λ e.
      let at_p : has p ((p', n') ∷ rest) ≡ true =
        ap (λ u. has u ((p', n') ∷ rest)) (sym e) ∙ there in
      cc in
    (
      x,
      at_x,
      next_x,
      (update-other m (last_of rest p') p (some (g x)) other ∙ at_p, live, back, forward, linked),
    )

-- Node `i` of the chain, counted from `i`, becomes `f i` of it.
abbrev pub mapped : (ℕ → Node → Node) → ℕ → Cells → Cells
mapped f i [] = []
mapped f i ((p, n) ∷ rest) = (p, f i n) ∷ mapped f (i + 1) rest

pub first-not-last :
    (p p' : Ptr) (n' : Node) (rest : Cells)
    → has p ((p', n') ∷ rest) ≡ false
    → (p == last_of rest p') ≡ false
first-not-last p p' n' rest new = elim (ℕ_discrete p (last_of rest p')) [
  | yes e ↦
      let there = has-last_of p' n' rest p in
      let at_p : has p ((p', n') ∷ rest) ≡ true = ap (λ u. has u ((p', n') ∷ rest)) e ∙ there in cc
  | no ne ↦ ground (arith, ne)
]

pub one_round :
    (body : ℕ → Ptr → M (Unit {0})) (i fuel : ℕ) (p next end_ : Ptr) (n : Node) (h h1 h' : Memory)
    → body i p h ≡ some (tt, h1)
    → h1.node p ≡ some n
    → (p == end_) ≡ false
    → n.next ≡ next
    → each_node body fuel next end_ (i + 1) h1 ≡ some (tt, h')
    → each_node body (suc fuel) p end_ i h ≡ some (tt, h')
unfolding each_node load
one_round body i fuel p next end_ n h h1 h' done at_p more forward ran =
    rw (done, at_p, more, forward) ran

-- `each_node` with a body that replaces the node.
pub each_node-mapped :
    (f : ℕ → Node → Node) (body : ℕ → Ptr → M (Unit {0}))
    → ((i : ℕ) (p : Ptr) (n : Node) (h : Memory)
        → h.node p ≡ some n
        → body i p h ≡ some (tt, record h { node = update h.node p (some (f i n)) }))
    → ((i : ℕ) (n : Node) → (f i n).prev ≡ n.prev)
    → ((i : ℕ) (n : Node) → (f i n).next ≡ n.next)
    → (before after p : Ptr) (n : Node) (rest : Cells) (i : ℕ) (h : Memory)
    → Linked h.node before ((p, n) ∷ rest) after
    → Apart ((p, n) ∷ rest)
    → (h' : Memory) × (each_node body (suc (length rest)) p (last_of rest p) i h ≡ some (tt, h'))
      × Linked h'.node before (mapped f i ((p, n) ∷ rest)) after
      × (h'.list ≡ h.list)
      × ((q : Ptr) → has q ((p, n) ∷ rest) ≡ false → h'.node q ≡ h.node q)
unfolding each_node load
each_node-mapped f body runs same_prev same_next before after p n [] i h
      (at_p, live, back, forward, others) apart =
    let here : (p == p) ≡ true = ground arith in
    let at_p' : update h.node p (some (f i n)) p ≡ some (f i n) = rw here refl in
    (
      record h { node = update h.node p (some (f i n)) },
      rw (runs i p n h at_p, here) refl,
      (at_p', live, same_prev i n ∙ back, same_next i n ∙ forward, tt),
      refl,
      λ q new. update-other h.node p q (some (f i n)) (λ e. ground (arith, new, e)),
    )
each_node-mapped f body runs same_prev same_next before after p n ((p', n') ∷ rest) i h
      (at_p, live, back, forward, others) (new, apart) =
    let here : (p == p) ≡ true = ground arith in
    let h1 = record h { node = update h.node p (some (f i n)) } in
    let at_p' : h1.node p ≡ some (f i n) = rw here refl in
    let (h', ran, linked, lists, same) =
      each_node-mapped f body runs same_prev same_next p after p' n' rest (i + 1) h1
        (Linked-update h.node p p after (some (f i n)) ((p', n') ∷ rest) new others) apart in
    let more : (p == last_of rest p') ≡ false = first-not-last p p' n' rest new in
    let next_p : (f i n).next ≡ p' = same_next i n ∙ forward in
    (
      h',
      one_round body i (suc (length rest)) p p' (last_of rest p') (f i n) h h1 h'
          (runs i p n h at_p) at_p' more next_p ran,
      (same p new ∙ at_p', live, same_prev i n ∙ back, same_next i n ∙ forward, linked),
      lists,
      λ q new'.
          same q (ground (arith, new'))
          ∙ update-other h.node p q (some (f i n)) (λ e. ground (arith, new', e)),
    )

-- The way back from the last node of a chain to its first.
back_up-suc :
    (k : ℕ) (x p : Ptr) (n : Node) (h : Memory)
    → back_up k x h ≡ some (p, h)
    → h.node p ≡ some n
    → back_up (suc k) x h ≡ some (n.prev, h)
unfolding back_up load
back_up-suc zero x p n h ran at_p = let same : x ≡ p = cc in rw (same, at_p) refl
back_up-suc (suc k) x p n h ran at_p = elim (Option-cases (h.node x)) [
  | inl gone ↦ let stuck : none ≡ some (p, h) = rw gone at ran in ground (arith, stuck)
  | inr (s, at_x) ↦ rw at_x (back_up-suc k s.prev p n h (rw at_x at ran) at_p)
]

pub back_up-first :
    (m_before p after : Ptr) (n : Node) (rest : Cells) (h : Memory)
    → Linked h.node m_before ((p, n) ∷ rest) after
    → back_up (length rest) (last_of rest p) h ≡ some (p, h)
unfolding back_up
back_up-first before p after n [] h linked = refl
back_up-first before p after n ((p', n') ∷ rest) h (at_p, live, back, forward, others) =
    let (at_p', live', back', forward', others') = others in
    back_up-suc (length rest) (last_of rest p') p' n' h (back_up-first p p' after n' rest h others)
      at_p'
    ∙ ap (λ q. some (q, h)) back'

-- Where a count stops: at NULL, or at a node that is not active.
abbrev pub StopsAt : (Ptr → Option Node) → Ptr → Type 0
StopsAt m p =
    ((p == null) ≡ true)
    ⊎ (((p == null) ≡ false) × ((s : Node) × (m p ≡ some s) × (s.active ≡ false)))

-- The nodes of a chain are active, with indexes from `i` on.
abbrev pub IsCounted : ℕ → Cells → Type 0
IsCounted i [] = Unit
IsCounted i ((p, n) ∷ rest) = (n.active ≡ true) × (n.index ≡ i) × IsCounted (i + 1) rest

pub count_loop-IsCounted :
    (cells : Cells) (before after : Ptr) (fuel i : ℕ) (h : Memory)
    → Linked h.node before cells after
    → IsCounted i cells
    → StopsAt h.node after
    → length cells < fuel
    → count_loop fuel (first_of cells after) i h ≡ some (i + length cells, h)
unfolding count_loop load
count_loop-IsCounted cells before after zero i h linked counted stops enough = absurd (omega arith)
count_loop-IsCounted [] before after (suc fuel) i h linked counted (inl stop) enough =
    rw stop (ap (λ k. some (k, h)) (omega arith))
count_loop-IsCounted [] before after (suc fuel) i h linked counted (inr (live, (s, at_s, off)))
      enough =
    rw (live, at_s, off) (ap (λ k. some (k, h)) (omega arith))
count_loop-IsCounted ((p, n) ∷ rest) before after (suc fuel) i h (at_p, live, back, forward, others)
      (on, here, counted) stops enough =
    let same : (n.index == i) ≡ true = ground (arith, here) in
    let rest_counted =
      count_loop-IsCounted rest p after fuel (i + 1) h others counted stops (omega arith) in
    rw (live, at_p, on, same, forward) (rest_counted ∙ ap (λ k. some (k, h)) (omega arith))
