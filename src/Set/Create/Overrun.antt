-- ===== src/Set/Create/Overrun.antt =====
-- A set with fewer lists than its pool has threads.
use puma.Base.{
  ℕ, zero, suc, ◌≤◌, ◌<◌, ◌≡◌, ◌≢◌, refl, ap, ◌∙◌, arith, true, none, some, List, [], ◌∷◌, ◌==◌,
  get_elem?, set, replicate, length, length-set, length-replicate, ℕ_discrete, inl, inr, ◌⊎◌,
  Option-cases,
}
use puma.Memory.{Ptr, null, Memory, update}
use puma.Util.{Config, get_node_for_element}
use puma.Set.{Domain, execute_on_thread_pool}
use puma.Set.Count.{occurs}
use puma.Set.Create.{list_addresses, ready_list, setup_thread_lists_worker, create_puma_set}
use puma.Set.Create.Lists.{get_elem?-list_addresses-none, clear_lists_lem}

get_elem?-past : (xs : List Ptr) (t : ℕ) → length xs ≤ t → get_elem? xs t ≡ none
get_elem?-past [] t le = refl
get_elem?-past (x ∷ xs) zero le = absurd (omega arith)
get_elem?-past (x ∷ xs) (suc t) le = get_elem?-past xs t (omega arith)

module _ (p size online e : ℕ) where
  abbrev dom : Domain
  dom = record { lists_in_domain = list_addresses online p size }

  -- A worker faults, or writes to an entry of the table.
  worker_cases :
      (x : ℕ) (xs : List Ptr) (h : Memory)
      → (setup_thread_lists_worker dom e x xs h ≡ none)
        ⊎ ((ys : List Ptr) × (h' : Memory) × (setup_thread_lists_worker dom e x xs h
              ≡ some (ys, h'))
            × (length ys ≡ length xs))
  unfolding setup_thread_lists_worker
  worker_cases x xs h = elim (Option-cases (get_elem? (list_addresses online p size) x)) [
    | inl no_list ↦ inl (rw no_list)
    | inr (q, found) ↦ elim (Option-cases (h.list q)) [
      | inl missing ↦ inl (rw (found, missing))
      | inr (l, there) ↦ elim (Option-cases (get_elem? xs x)) [
        | inl past ↦ inl (rw (found, there, past))
        | inr (y, within) ↦ inr (
          set xs x q,
          record h { list = update h.list q (some (ready_list x e l)) },
          rw (found, there, within),
          length-set xs x q,
        )
      ]
    ]
  ]

  worker_overruns :
      (t : ℕ) (xs : List Ptr) (h : Memory)
      → (length xs ≤ t) ⊎ (online ≤ t)
      → setup_thread_lists_worker dom e t xs h ≡ none
  unfolding setup_thread_lists_worker
  worker_overruns t xs h (inr past) = rw (get_elem?-list_addresses-none online p size t past)
  worker_overruns t xs h (inl past) =
      elim (Option-cases (get_elem? (list_addresses online p size) t)) [
        | inl no_list ↦ rw no_list
        | inr (q, found) ↦ elim (Option-cases (h.list q)) [
          | inl missing ↦ rw (found, missing)
          | inr (l, there) ↦ rw (found, there, get_elem?-past xs t past)
        ]
      ]

  pool_overruns :
      (order : List ℕ) (t : ℕ) (xs : List Ptr) (h : Memory)
      → occurs t order ≢ 0
      → (length xs ≤ t) ⊎ (online ≤ t)
      → execute_on_thread_pool (setup_thread_lists_worker dom e) order xs h ≡ none
  unfolding execute_on_thread_pool occurs
  pool_overruns [] t xs h runs past = absurd (runs refl)
  pool_overruns (x ∷ rest) t xs h runs past = elim (ℕ_discrete x t) [
    | yes same ↦
        let fails : setup_thread_lists_worker dom e x xs h ≡ none =
          ap (λ u. setup_thread_lists_worker dom e u xs h) same ∙ worker_overruns t xs h past in
        rw fails
    | no ne ↦ elim (worker_cases x xs h) [
      | inl fails ↦ rw fails
      | inr (ys, h', ran, same) ↦
          let runs_later : occurs t rest ≢ 0 = ground (arith, runs) in
          rw ran (pool_overruns rest t ys h' runs_later (rw (← same) at past))
    ]
  ]

-- When the pool runs a thread whose number is not below the number of threads that the set was asked
-- for, as with 0, which makes a pool of one thread for each processor, or not below the number of
-- processors, the creation writes behind a table: it faults.
pub create_puma_set-none :
    (c : Config) (size online e n p t : ℕ) (order : List ℕ) (splitter : ℕ → ℕ → ℕ) (rest : List Ptr)
    → (h : Memory) → h.fresh ≡ p ∷ rest
    → get_node_for_element c p ≡ p
    → 0 < size
    → occurs t order ≢ 0
    → (n ≤ t) ⊎ (online ≤ t)
    → create_puma_set c size online e n order splitter h ≡ none
unfolding create_puma_set
create_puma_set-none c size online e n p t order splitter rest h at_p aligned pos runs past =
    let here : (p == get_node_for_element c p) ≡ true = ground (arith, aligned) in
    let (h2, cleared, _, _) = clear_lists_lem online p size (record h { fresh = rest }) pos in
    rw (
      at_p,
      here,
      cleared,
      pool_overruns p size online e order t (replicate n null) h2 runs
          (rw (← length-replicate n null) at past),
    )
