-- ===== src/Balance/Ends.antt =====
-- A balance of the thread lists of a set from its start to its end.
use puma.Base.{
  ℕ, ◌+◌, ◌/◌, ◌%◌, ◌<◌, ◌≤◌, ◌^◌, ◌≡◌, ◌≢◌, refl, sym, ap, ◌∙◌, arith, Bool, true, false, some,
  List, [], ◌∷◌, ◌==◌, length, inl, inr, ◌⊎◌,
}
use puma.Memory.{Ptr, Memory}
use puma.Node.Chain.{Cells, total_elements}
use puma.Set.{PumaSet}
use puma.Balance.Auto.{balance_domains, autobalance_thread_load, balance_thread_load}
use puma.Balance.Tables.{Table, pointers, InMemory, active_lists, active_nodes, sum_threads-active}
use puma.Balance.Shape.{is_among, Distinct}
use puma.Balance.Lists.{AreLists}
use puma.Balance.Stacks.{PosStack, NegStack}
use puma.Balance.Loop.{NoneLost, transfer_loop-Balancing}
use puma.Balance.Push.{is_on, how_many_on}
use puma.Balance.Level.{push_lists-Stacked}

-- The average is of the active lists of the threads.
abbrev pub average : Table → ℕ
average table = active_nodes table / active_lists table

PosStack-among :
    (share : Ptr → ℕ → ℕ) (avg : ℕ) (a b : List Ptr) (on : Ptr → Bool) (pos : List Ptr) (rem : ℕ)
    (cells : Ptr → Cells)
    → ((p : Ptr) → is_among p a ≡ is_among p b)
    → PosStack share avg a on pos rem cells
    → PosStack share avg b on pos rem cells
PosStack-among share avg a b on pos rem cells same stack = record {
  inside = λ p at. sym (same p) ∙ stack.inside p at;
  distinct = stack.distinct;
  above = stack.above;
  nodes = stack.nodes;
  elements = stack.elements;
  others = λ p at. stack.others p (same p ∙ at);
}

NegStack-among :
    (share : Ptr → ℕ → ℕ) (avg : ℕ) (a b : List Ptr) (on : Ptr → Bool) (neg : List Ptr)
    (cells : Ptr → Cells)
    → ((p : Ptr) → is_among p a ≡ is_among p b)
    → NegStack share avg a on neg cells
    → NegStack share avg b on neg cells
NegStack-among share avg a b on neg cells same stack = record {
  inside = λ p at. sym (same p) ∙ stack.inside p at;
  distinct = stack.distinct;
  below = stack.below;
  others = λ p at. stack.others p (same p ∙ at);
}

-- The lists of a domain after a balance: none has more nodes than it gets, up to one, or none has
-- fewer.
abbrev pub IsLevel :
    (share : Ptr → ℕ → ℕ) (avg : ℕ) (ps : List Ptr) (on : Ptr → Bool) (cells : Ptr → Cells) → Type 0
IsLevel share avg ps on cells =
    ((p : Ptr) → is_among p ps ≡ true → on p ≡ true → length (cells p) ≤ share p avg + 1)
    ⊎ ((p : Ptr) → is_among p ps ≡ true → on p ≡ true → share p avg ≤ length (cells p))

stacks-IsLevel :
    (share : Ptr → ℕ → ℕ) (avg : ℕ) (ps : List Ptr) (on : Ptr → Bool) (cells : Ptr → Cells)
    (pos neg : List Ptr) (rem : ℕ)
    → PosStack share avg ps on pos rem cells
    → NegStack share avg ps on neg cells
    → (pos ≡ []) ⊎ (neg ≡ [])
    → IsLevel share avg ps on cells
stacks-IsLevel share avg ps on cells pos neg rem above below (inl empty) =
    inl (λ p in_p is_on_p. above.others p in_p is_on_p (ap (is_among p) empty))
stacks-IsLevel share avg ps on cells pos neg rem above below (inr empty) =
    inr (λ p in_p is_on_p. below.others p in_p is_on_p (ap (is_among p) empty))

-- The stacks are filled with the lists of a domain and then emptied.
balance_domains-AreLists :
    (share : Ptr → ℕ → ℕ) (avg num_lists rem : ℕ) (ps : List Ptr) (owner : Ptr → Ptr)
    (cells : Ptr → Cells) (after : Ptr → Ptr) (h : Memory)
    → ((p : Ptr) → share p avg < 2 ^ 64)
    → how_many_on h ps ≤ num_lists
    → Distinct ps
    → AreLists ps owner cells after h
    → ((p : Ptr)
        → is_among p ps ≡ true
        → (length (cells p) < 2 ^ 64) × (total_elements (cells p) < 2 ^ 64))
    → (h' : Memory) × (owner' : Ptr → Ptr) × (cells' : Ptr → Cells) × (balance_domains share
          num_lists avg
          (record { lists_in_domain = ps } ∷ [])
          (record { rem = rem; pos_stack = []; neg_stack = [] })
          h
        ≡ some (tt, h'))
      × AreLists ps owner' cells' after h'
      × NoneLost ps cells cells'
      × NoneLost ps cells' cells
      × IsLevel share avg ps (is_on h) cells'
unfolding balance_domains
balance_domains-AreLists share avg num_lists rem ps owner cells after h sized few distinct lists
      small =
    let (plan, seen, pushed, (above, below), same) =
      push_lists-Stacked share avg num_lists cells h ps []
        (record { rem = rem; pos_stack = []; neg_stack = [] }) after distinct
        (λ p at. (refl, lists.lists p at, (small p at).0, (small p at).1))
        (
          record {
            inside = λ p at. ground (arith, at);
            distinct = tt;
            above = λ p at. ground (arith, at);
            nodes = λ p at. ground (arith, at);
            elements = λ p at. ground (arith, at);
            others = λ p at on gone. ground (arith, at);
          },
          record {
            inside = λ p at. ground (arith, at);
            distinct = tt;
            below = λ p at. ground (arith, at);
            others = λ p at on gone. ground (arith, at);
          },
        )
        (omega (arith, few), omega (arith, few)) in
    let (h', owner', cells', plan', ran, (lists', above', below'), done, forth, back) =
      transfer_loop-Balancing share avg ps (is_on h) after sized
        (length plan.pos_stack + length plan.neg_stack + 1) plan.pos_stack plan.neg_stack plan.rem
        owner cells h (omega arith)
        (
          lists,
          PosStack-among share avg seen ps (is_on h) plan.pos_stack plan.rem cells same above,
          NegStack-among share avg seen ps (is_on h) plan.neg_stack cells same below,
        ) in
    (
      h',
      owner',
      cells',
      rw (pushed, ran) refl,
      lists',
      forth,
      back,
      stacks-IsLevel share avg ps (is_on h) cells' plan'.pos_stack plan'.neg_stack plan'.rem above'
          below' done,
    )

-- With automatic balancing, in a set of one domain: when the lists of the domain are different, well
-- formed, and have no node in common, and none has what follows one of them as a node; each has fewer
-- than 2 ^ 64 nodes and elements; the threads' lists are in memory, one of them is active at least, and
-- the domain has no more active lists than they are; and the share of each list of the average, which
-- is that of the nodes of the threads' active lists, is less than 2 ^ 64: then the balance ends without
-- a fault. After it the lists of the domain are well formed, with the same behind them, and have no node
-- in common; they have the nodes they had before, and no others; and either no active list has more
-- nodes than its share and one, or none has fewer than its share.
pub balance_thread_load-AreLists :
    (share : Ptr → ℕ → ℕ) (s : PumaSet) (table : Table) (ps : List Ptr) (owner : Ptr → Ptr)
    (cells : Ptr → Cells) (after : Ptr → Ptr) (h : Memory)
    → s.auto_balance ≡ true
    → s.num_threads ≡ length table
    → s.tid_to_thread_list ≡ pointers table
    → s.domains ≡ record { lists_in_domain = ps } ∷ []
    → InMemory h table
    → active_lists table ≢ 0
    → how_many_on h ps ≤ active_lists table
    → Distinct ps
    → AreLists ps owner cells after h
    → ((p : Ptr)
        → is_among p ps ≡ true
        → (length (cells p) < 2 ^ 64) × (total_elements (cells p) < 2 ^ 64))
    → ((p : Ptr) → share p (average table) < 2 ^ 64)
    → (h' : Memory) × (owner' : Ptr → Ptr) × (cells' : Ptr → Cells) × (balance_thread_load share s h
        ≡ some (tt, h'))
      × AreLists ps owner' cells' after h'
      × NoneLost ps cells cells'
      × NoneLost ps cells' cells
      × IsLevel share (average table) ps (is_on h) cells'
unfolding balance_thread_load autobalance_thread_load
balance_thread_load-AreLists share s table ps owner cells after h auto count in_table domains there
      some_list few distinct lists small sized =
    let avg = average table in
    let rem = active_nodes table % active_lists table in
    let (h', owner', cells', ran, lists', forth, back, level) =
      balance_domains-AreLists share avg (active_lists table) rem ps owner cells after h sized few
        distinct lists small in
    let sums =
      sum_threads-active table s 0 0 0 h
        (λ k j lt e. let j_k : j ≡ k = omega arith in rw (j_k, in_table) refl) there in
    let is_some : (active_lists table == 0) ≡ false = ground arith in
    let e1 : 0 + active_lists table ≡ active_lists table = omega arith in
    let e2 : 0 + active_nodes table ≡ active_nodes table = omega arith in
    (
      h',
      owner',
      cells',
      rw (auto, count, sums, e1, e2, is_some, domains) ran,
      lists',
      forth,
      back,
      level,
    )
