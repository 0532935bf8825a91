-- ===== src/Balance/Even.antt =====
-- When the balance of the thread lists has nothing to move.
use puma.Base.{
  ℕ, suc, ◌+◌, ◌-◌, ◌/◌, ◌%◌, ◌≤◌, ◌≡◌, ◌≢◌, refl, arith, Bool, true, false, ◌&&◌, some, List, [],
  ◌∷◌, ltb, ◌==◌, length, Bool-cases, inl, inr,
}
use puma.Memory.{Ptr, ThreadList, Memory, load_list}
use puma.Set.{PumaSet}
use puma.Balance.Auto.{
  Plan, one_if, push_list, push_lists, transfer_loop, balance_domains, autobalance_thread_load,
  balance_thread_load,
}
use puma.Balance.Tables.{
  Table, pointers, InMemory, domains_of, AllInMemory, active_lists, active_nodes, all_active_lists,
  sum_threads-active,
}

module _ (share : Ptr → ℕ → ℕ) (avg num_lists : ℕ) where
  -- A list with its share at least, when `above`, or at most.
  abbrev pub IsFair : (above : Bool) → Ptr → ThreadList → Type 0
  IsFair true p l = share p avg ≤ l.num_nodes
  IsFair false p l = l.num_nodes ≤ share p avg

  abbrev pub AllFair : Bool → Table → Type 0
  AllFair above [] = Unit
  AllFair above ((p, l) ∷ rest) = (l.active ≡ true → IsFair above p l) × AllFair above rest

  abbrev pub AllTablesFair : Bool → List Table → Type 0
  AllTablesFair above [] = Unit
  AllTablesFair above (d ∷ rest) = AllFair above d × AllTablesFair above rest

  -- A plan with lists on one of the stacks.
  abbrev one_sided : Bool → (rem : ℕ) → List Ptr → Plan
  one_sided true rem stack = record { rem = rem; pos_stack = stack; neg_stack = [] }
  one_sided false rem stack = record { rem = rem; pos_stack = []; neg_stack = stack }

  push_list-one_sided :
      (above : Bool) (p : Ptr) (l : ThreadList) (rem : ℕ) (stack : List Ptr) (h : Memory)
      → h.list p ≡ some l
      → (l.active ≡ true → IsFair above p l)
      → length stack + one_if l.active ≤ num_lists
      → (rem' : ℕ) × (stack' : List Ptr) × (push_list share num_lists avg p
            (one_sided above rem stack)
            h
          ≡ some (one_sided above rem' stack', h))
        × (length stack' ≤ length stack + one_if l.active)
  unfolding push_list load_list
  push_list-one_sided true p l rem stack h here fair room = elim (Bool-cases l.active) [
    | inr off ↦ (rem, stack, rw (here, off) refl, omega arith)
    | inl on ↦
        let few : ltb (length stack) num_lists ≡ true = ground (arith, on) in
        let enough : ltb l.num_nodes (share p avg) ≡ false = ground (arith, fair on) in
        let rem' = rem - one_if (ltb 0 rem && (l.num_nodes == share p avg + 1)) in
        elim (Bool-cases (ltb (share p avg + one_if (ltb 0 rem')) l.num_nodes)) [
          | inl more ↦ (rem', p ∷ stack, rw (here, on, more, few) refl, ground (arith, on))
          | inr less ↦ (rem', stack, rw (here, on, less, enough) refl, omega arith)
        ]
  ]
  push_list-one_sided false p l rem stack h here fair room = elim (Bool-cases l.active) [
    | inr off ↦ (rem, stack, rw (here, off) refl, omega arith)
    | inl on ↦
        let few : ltb (length stack) num_lists ≡ true = ground (arith, on) in
        let rem' = rem - one_if (ltb 0 rem && (l.num_nodes == share p avg + 1)) in
        let enough : ltb (share p avg + one_if (ltb 0 rem')) l.num_nodes ≡ false =
          ground (arith, fair on) in
        elim (Bool-cases (ltb l.num_nodes (share p avg))) [
          | inl more ↦ (rem', p ∷ stack, rw (here, on, enough, more, few) refl, ground (arith, on))
          | inr less ↦ (rem', stack, rw (here, on, enough, less) refl, omega arith)
        ]
  ]

  push_lists-one_sided :
      (above : Bool) (table : Table) (rem : ℕ) (stack : List Ptr) (h : Memory)
      → InMemory h table
      → AllFair above table
      → length stack + active_lists table ≤ num_lists
      → (rem' : ℕ) × (stack' : List Ptr) × (push_lists share num_lists avg
            (pointers table)
            (one_sided above rem stack)
            h
          ≡ some (one_sided above rem' stack', h))
        × (length stack' ≤ length stack + active_lists table)
  unfolding push_lists
  push_lists-one_sided above [] rem stack h there fair room = (rem, stack, refl, omega arith)
  push_lists-one_sided above ((p, l) ∷ rest) rem stack h (here, there) (fair, fair_rest) room =
      let (rem1, stack1, ran, few) =
        push_list-one_sided above p l rem stack h here fair (omega arith) in
      let (rem2, stack2, ran', few') =
        push_lists-one_sided above rest rem1 stack1 h there fair_rest (omega arith) in
      (rem2, stack2, rw ran ran', omega arith)

  transfer_loop-one_sided :
      (above : Bool) (fuel rem : ℕ) (stack : List Ptr) (h : Memory)
      → (let plan = one_sided above rem stack in
          transfer_loop share avg (suc fuel) plan.pos_stack plan.neg_stack plan.rem h)
        ≡ some (one_sided above rem stack, h)
  unfolding transfer_loop
  transfer_loop-one_sided true fuel rem [] h = refl
  transfer_loop-one_sided true fuel rem (p ∷ stack) h = refl
  transfer_loop-one_sided false fuel rem stack h = refl

  fuel_suc :
      (above : Bool) (rem : ℕ) (stack : List Ptr)
      → (let plan = one_sided above rem stack in length plan.pos_stack + length plan.neg_stack + 1)
        ≡ suc (length stack)
  fuel_suc true rem stack = omega arith
  fuel_suc false rem stack = omega arith

  balance_domains-one_sided :
      (above : Bool) (tables : List Table) (rem : ℕ) (stack : List Ptr) (h : Memory)
      → AllInMemory h tables
      → AllTablesFair above tables
      → length stack + all_active_lists tables ≤ num_lists
      → balance_domains share num_lists avg (domains_of tables) (one_sided above rem stack) h
        ≡ some (tt, h)
  unfolding balance_domains
  balance_domains-one_sided above [] rem stack h there fair room = refl
  balance_domains-one_sided above (d ∷ rest) rem stack h (here, there) (fair, fair_rest) room =
      let (rem1, stack1, ran, few) =
        push_lists-one_sided above d rem stack h here fair (omega arith) in
      rw
        (
          ran,
          fuel_suc above rem1 stack1,
          transfer_loop-one_sided above (length stack1) rem1 stack1 h,
        )
        (balance_domains-one_sided above rest rem1 stack1 h there fair_rest (omega arith))

  balance_domains-fair :
      (above : Bool) (tables : List Table) (rem : ℕ) (h : Memory)
      → AllInMemory h tables
      → AllTablesFair above tables
      → all_active_lists tables ≤ num_lists
      → balance_domains share num_lists avg
          (domains_of tables)
          (record { rem = rem; pos_stack = []; neg_stack = [] })
          h
        ≡ some (tt, h)
  balance_domains-fair true tables rem h there fair room =
      balance_domains-one_sided true tables rem [] h there fair (omega arith)
  balance_domains-fair false tables rem h there fair room =
      balance_domains-one_sided false tables rem [] h there fair (omega arith)

-- With automatic balancing, when the lists of the threads and of the domains are in memory, some
-- thread has an active list, the domains have at most as many active lists as the threads, and no
-- active list of a domain has fewer nodes than its share of the average, or none has more, then the
-- balance ends without a fault and changes nothing in memory.
pub balance_thread_load-fair :
    (share : Ptr → ℕ → ℕ) (above : Bool) (s : PumaSet) (table : Table) (tables : List Table)
    → (h : Memory) → s.auto_balance ≡ true
    → s.num_threads ≡ length table
    → s.tid_to_thread_list ≡ pointers table
    → s.domains ≡ domains_of tables
    → InMemory h table
    → AllInMemory h tables
    → active_lists table ≢ 0
    → all_active_lists tables ≤ active_lists table
    → AllTablesFair share
        (active_nodes table / active_lists table)
        (active_lists table)
        above
        tables
    → balance_thread_load share s h ≡ some (tt, h)
unfolding balance_thread_load autobalance_thread_load
balance_thread_load-fair share above s table tables h auto count in_table domains there there'
      some_list few fair =
    let sums =
      sum_threads-active table s 0 0 0 h
        (λ k j lt e. let j_k : j ≡ k = omega arith in rw (j_k, in_table) refl) there in
    let is_some : (active_lists table == 0) ≡ false = ground arith in
    let e1 : 0 + active_lists table ≡ active_lists table = omega arith in
    let e2 : 0 + active_nodes table ≡ active_nodes table = omega arith in
    let avg = active_nodes table / active_lists table in
    let rem = active_nodes table % active_lists table in
    let balanced =
      balance_domains-fair share avg (active_lists table) above tables rem h there' fair few in
    rw (auto, count, sums, e1, e2, is_some, domains) balanced
