-- ===== src/Set/Create/Lists.antt =====
-- The thread lists of a new set.
use native.Mathlib.Nat.{mul-lt-mul_of_pos_right}
use mathlib.Core.Path.{subst}
use puma.Base.{
  ℕ, zero, suc, ◌+◌, ◌*◌, ◌≤◌, ◌<◌, ◌≡◌, ◌≢◌, refl, ap, ◌∙◌, arith, true, false, none, some, List,
  [], ◌∷◌, ◌==◌, if◌then◌else◌, get_elem?, get_or, set, replicate, length, length-set,
  length-replicate, get_elem?-get_or, get_or-set, ℕ_discrete, dec_lt, inl, inr, Bool-cases,
}
use puma.Memory.{Ptr, null, ThreadList, Memory, update, store_list}
use puma.Util.{Config, get_node_for_element}
use puma.Set.{PumaSet, Domain, execute_on_thread_pool, get_list_for_thread}
use puma.Set.Count.{AllBelow, occurs}
use puma.Set.Create.{
  zero_list, list_addresses, clear_lists, ready_list, setup_thread_lists_worker, create_puma_set,
}

abbrev pub list_at : (p size t : ℕ) → Ptr
list_at p size t = p + t * size

next_at : (p size t : ℕ) → list_at (p + size) size t ≡ list_at p size (suc t)
next_at p size t = grind arith

list_at-ne : (p size t u : ℕ) → 0 < size → t ≢ u → list_at p size t ≢ list_at p size u
list_at-ne p size t u pos ne e = elim (dec_lt t u) [
  | yes lt ↦ let less : t * size < u * size = mul-lt-mul_of_pos_right lt pos in omega arith
  | no ge ↦
      let above : u < t = omega arith in
      let less : u * size < t * size = mul-lt-mul_of_pos_right above pos in omega arith
]

list_at-suc-ne : (p size t : ℕ) → 0 < size → p ≢ list_at p size (suc t)
list_at-suc-ne p size t pos = grind arith

get_elem?-list_addresses :
    (n p size t : ℕ) → t < n → get_elem? (list_addresses n p size) t ≡ some (list_at p size t)
unfolding list_addresses
get_elem?-list_addresses zero p size t lt = absurd (omega arith)
get_elem?-list_addresses (suc n) p size zero lt = ap some (omega arith)
get_elem?-list_addresses (suc n) p size (suc t) lt =
    get_elem?-list_addresses n (p + size) size t (omega arith) ∙ ap some (next_at p size t)

pub get_elem?-list_addresses-none :
    (n p size t : ℕ) → n ≤ t → get_elem? (list_addresses n p size) t ≡ none
unfolding list_addresses
get_elem?-list_addresses-none zero p size t le = refl
get_elem?-list_addresses-none (suc n) p size zero le = absurd (omega arith)
get_elem?-list_addresses-none (suc n) p size (suc t) le =
    get_elem?-list_addresses-none n (p + size) size t (omega arith)

-- Clearing the lists sets no other, and touches nothing else.
pub clear_lists_lem :
    (n p size : ℕ) (h : Memory)
    → 0 < size
    → (h' : Memory) × (clear_lists (list_addresses n p size) h ≡ some (tt, h'))
      × ((t : ℕ) → t < n → h'.list (list_at p size t) ≡ some zero_list)
      × ((q : Ptr) → q < p → h'.list q ≡ h.list q)
unfolding clear_lists list_addresses store_list
clear_lists_lem zero p size h pos = (h, refl, λ t lt. absurd (omega arith), λ q lt. refl)
clear_lists_lem (suc n) p size h pos =
    let h1 = record h { list = update h.list p (some zero_list) } in
    let (h', ran, each, below) = clear_lists_lem n (p + size) size h1 pos in
    (h', ran, cleared h' each below, λ q lt. below q (omega arith) ∙ ground arith)
  where
    cleared :
        (h' : Memory)
        → ((t : ℕ) → t < n → h'.list (list_at (p + size) size t) ≡ some zero_list)
        → ((q : Ptr) → q < p + size → h'.list q ≡ update h.list p (some zero_list) q)
        → (t : ℕ) → t < suc n
        → h'.list (list_at p size t) ≡ some zero_list
    cleared h' each below zero lt =
        let here : list_at p size 0 ≡ p = omega arith in
        rw here (below p (omega arith) ∙ ground arith)
    cleared h' each below (suc t) lt = rw (← next_at p size t) (each t (omega arith))

occurs-AllBelow : (n t : ℕ) (order : List ℕ) → AllBelow n order → n ≤ t → occurs t order ≡ 0
unfolding occurs
occurs-AllBelow n t [] below le = refl
occurs-AllBelow n t (x ∷ rest) below le =
    let ne : (x == t) ≡ false = ground (arith, below.0) in
    rw ne (omega (arith, occurs-AllBelow n t rest below.1 le))

module _ (p size online e : ℕ) (pos : 0 < size) where
  abbrev at : ℕ → Ptr
  at t = list_at p size t

  abbrev dom : Domain
  dom = record { lists_in_domain = list_addresses online p size }

  -- The lists of the domain.
  abbrev Lists : Memory → (ℕ → ThreadList) → Type 0
  Lists h l = (t : ℕ) → t < online → h.list (at t) ≡ some (l t)

  abbrev after_setup : ℕ → (ℕ → ThreadList) → ℕ → ThreadList
  after_setup thread l t = if thread == t then ready_list thread e (l thread) else l t

  one_setup :
      (n thread : ℕ) (xs : List Ptr) (h : Memory) (l : ℕ → ThreadList)
      → thread < n
      → n ≤ online
      → length xs ≡ n
      → Lists h l
      → (h' : Memory) × (setup_thread_lists_worker dom e thread xs h
          ≡ some (set xs thread (at thread), h'))
        × Lists h' (after_setup thread l)
  unfolding setup_thread_lists_worker
  one_setup n thread xs h l lt few size_xs lists =
      let here = lists thread (omega arith) in
      let found = get_elem?-list_addresses online p size thread (omega arith) in
      let within = get_elem?-get_or xs thread null (omega arith) in
      (
        record h { list = update h.list (at thread) (some (ready_list thread e (l thread))) },
        rw (found, here, within),
        λ t below. elim (ℕ_discrete thread t) [
          | yes same ↦ ground (arith, ap at same)
          | no ne ↦ ground (arith, list_at-ne p size thread t pos ne, lists t below)
        ],
      )

  set_up :
      (h' : Memory) (l : ℕ → ThreadList) (x : ℕ) (rest : List ℕ)
      → h'.list (at x)
        ≡ some
            (if occurs x rest == 0 then after_setup x l x else ready_list x e (after_setup x l x))
      → h'.list (at x) ≡ some (if occurs x (x ∷ rest) == 0 then l x else ready_list x e (l x))
  unfolding occurs
  set_up h' l x rest found =
      let same : (x == x) ≡ true = ground arith in
      let some_time : ((1 + occurs x rest) == 0) ≡ false = ground arith in
      elim (Bool-cases (occurs x rest == 0)) [
        | inl z ↦ rw (same, some_time) (rw (z, same) at found)
        | inr more ↦ rw (same, some_time) (rw (more, same) at found)
      ]

  setup_all :
      (order : List ℕ) (n : ℕ) (xs : List Ptr) (h : Memory) (l : ℕ → ThreadList)
      → AllBelow n order
      → n ≤ online
      → length xs ≡ n
      → Lists h l
      → (xs' : List Ptr) × (h' : Memory) × (execute_on_thread_pool
            (setup_thread_lists_worker dom e)
            order
            xs
            h
          ≡ some (xs', h'))
        × (length xs' ≡ n)
        × ((t : ℕ)
            → t < n
            → get_or xs' t null ≡ (if occurs t order == 0 then get_or xs t null else at t))
        × Lists h' (λ t. if occurs t order == 0 then l t else ready_list t e (l t))
  unfolding execute_on_thread_pool occurs
  setup_all [] n xs h l below few size_xs lists = (xs, h, refl, size_xs, λ t lt. refl, lists)
  setup_all (x ∷ rest) n xs h l below few size_xs lists =
      let (h1, ran, lists1) = one_setup n x xs h l below.0 few size_xs lists in
      let (xs', h', ran', size', each, lists') =
        setup_all rest n (set xs x (at x)) h1 (after_setup x l) below.1 few
          (length-set xs x (at x) ∙ size_xs) lists1 in
      (
        xs',
        h',
        rw ran ran',
        size',
        λ t lt. elim (ℕ_discrete x t) [
          | yes same ↦
              ground (arith, each t lt, get_or-set xs x t (at x) null (omega arith), ap at same)
          | no ne ↦ ground (arith, each t lt, get_or-set xs x t (at x) null (omega arith))
        ],
        λ t lt. elim (ℕ_discrete x t) [
          | yes same ↦
              subst
                (λ u.
                  u < online
                  → h'.list (at u)
                    ≡ some (if occurs u (x ∷ rest) == 0 then l u else ready_list u e (l u)))
                same (λ lt'. set_up h' l x rest (lists' x lt')) lt
          | no ne ↦ ground (arith, lists' t lt)
        ],
      )

-- With at least one thread and no more than processors, and memory for the lists from `p` on that is
-- aligned to a node's size: when the threads run their worker in any order in which each occurs, the
-- set has a pool of as many threads, list `t` is that of thread `t` in both of the set's tables,
-- active, with the thread's number and the element size and without nodes or elements, and
-- the lists of the processors without a thread are zero.
pub create_puma_set-lists :
    (c : Config) (size online e n p : ℕ) (order : List ℕ) (splitter : ℕ → ℕ → ℕ) (rest : List Ptr)
    → (h : Memory) → h.fresh ≡ p ∷ rest
    → get_node_for_element c p ≡ p
    → 0 < size
    → 0 < n
    → n ≤ online
    → AllBelow n order
    → ((t : ℕ) → t < n → occurs t order ≢ 0)
    → (s : PumaSet) × (h' : Memory) × (create_puma_set c size online e n order splitter h
        ≡ some (s, h'))
      × (s.pool_threads ≡ n)
      × (s.num_threads ≡ n)
      × ((t : ℕ)
          → t < n
          → (get_elem? s.tid_to_thread_list t ≡ some (list_at p size t))
            × (get_list_for_thread s t h' ≡ some (list_at p size t, h'))
            × (h'.list (list_at p size t) ≡ some (ready_list t e zero_list)))
      × ((t : ℕ) → n ≤ t → t < online → h'.list (list_at p size t) ≡ some zero_list)
unfolding create_puma_set get_list_for_thread
create_puma_set-lists c size online e n p order splitter rest h at_p aligned pos some_thread few
      below each =
    let h1 = record h { fresh = rest } in
    let here : (p == get_node_for_element c p) ≡ true = ground (arith, aligned) in
    let (h2, cleared, zero_lists, _) = clear_lists_lem online p size h1 pos in
    let (xs, h3, ran, size_xs, entries, lists) =
      setup_all p size online e pos order n (replicate n null) h2 (λ t. zero_list) below few
        (length-replicate n null) zero_lists in
    let used : (n == 0) ≡ false = ground arith in
    (
      record {
        pool_threads = if n == 0 then online else n;
        element_size = e;
        domains = record { lists_in_domain = list_addresses online p size } ∷ [];
        num_threads = n;
        tid_to_thread_list = xs;
        auto_balance = true;
        splitter = splitter;
      },
      h3,
      rw (at_p, here, cleared, ran),
      rw used,
      refl,
      λ t lt.
          let seen : (occurs t order == 0) ≡ false = ground (arith, each t lt) in
          (
            get_elem?-get_or xs t null (omega arith) ∙ ap some (entries t lt ∙ rw seen),
            rw (get_elem?-list_addresses online p size t (omega arith)),
            lists t (omega arith) ∙ rw seen,
          ),
      λ t ge lt.
          let unseen : (occurs t order == 0) ≡ true =
            ground (arith, occurs-AllBelow n t order below ge) in
          lists t lt ∙ rw unseen,
    )
