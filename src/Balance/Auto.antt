-- ===== src/Balance/Auto.antt =====
-- `_autobalanceThreadLoad` and `_balanceThreadLoad`: how many nodes go from which list to which.
use puma.Base.{
  ℕ, zero, suc, ◌+◌, ◌-◌, ◌*◌, ◌/◌, ◌%◌, Bool, ◌&&◌, not, none, List, [], ◌∷◌, if◌then◌else◌, ltb,
  ◌==◌, assert, get_elem?, length,
}
use puma.Word.{sub64}
use puma.Memory.{Ptr, M, pure, ◌>>=◌, ◌>>◌, lift, load_list}
use puma.Set.{PumaSet, Domain}
use puma.Balance.{transfer_n_nodes}

-- `_min`.
unfoldable pub min_size : ℕ → ℕ → ℕ
min_size a b = (if ltb a b then 1 else 0) * a + (if ltb a b then 0 else 1) * b

-- `avgNodes` and `numLists` after the first loop, from thread `i` on with `left` threads to go.
pub record Totals : Type 0 where
  pub nodes : ℕ
  pub num_lists : ℕ

unfoldable pub sum_threads : PumaSet → (left i : ℕ) → Totals → M Totals
unfolding load_list
sum_threads s zero i t = pure t
sum_threads s (suc left) i t = do
  p ← lift (get_elem? s.tid_to_thread_list i)
  l ← load_list p
  sum_threads s left (i + 1) (record {
    nodes = t.nodes + l.num_nodes * (if l.active then 1 else 0);
    num_lists = t.num_lists + (if l.active then 1 else 0);
  })

-- `rem`, `posStack` and `negStack`, their tops first.
pub record Plan : Type 0 where
  pub rem : ℕ
  pub pos_stack : List Ptr
  pub neg_stack : List Ptr

abbrev pub one_if : Bool → ℕ
one_if b = if b then 1 else 0

-- `share list avg_nodes` is `(size_t)(list->relativeSpeed * avgNodes)`, in floating point.
module _ (share : Ptr → ℕ → ℕ) where
  -- The body of the loop over the lists of a domain. A stack has room for `numLists` lists.
  unfoldable pub push_list : (num_lists avg_nodes : ℕ) → Ptr → Plan → M Plan
  unfolding load_list
  push_list num_lists avg_nodes p plan = do
    l ← load_list p
    let target = share p avg_nodes
    let rem = plan.rem - one_if (ltb 0 plan.rem && (l.num_nodes == target + 1))
    if not l.active
        then pure plan
        else if ltb (target + one_if (ltb 0 rem)) l.num_nodes
        then (do
          lift (assert (ltb (length plan.pos_stack) num_lists))
          pure (record plan { rem = rem; pos_stack = p ∷ plan.pos_stack }))
        else if ltb l.num_nodes target
        then (do
          lift (assert (ltb (length plan.neg_stack) num_lists))
          pure (record plan { rem = rem; neg_stack = p ∷ plan.neg_stack }))
        else pure (record plan { rem = rem })

  unfoldable pub push_lists : (num_lists avg_nodes : ℕ) → List Ptr → Plan → M Plan
  push_lists num_lists avg_nodes [] plan = pure plan
  push_lists num_lists avg_nodes (p ∷ rest) plan = do
    plan' ← push_list num_lists avg_nodes p plan
    push_lists num_lists avg_nodes rest plan'

  -- A round of the loop that empties the stacks, on their tops.
  unfoldable pub transfer_round :
      (avg_nodes : ℕ) → (p q : Ptr) → (pos neg : List Ptr) → (rem : ℕ) → M Plan
  unfolding load_list min_size
  transfer_round avg_nodes p q pos neg rem = do
    lp ← load_list p
    lq ← load_list q
    let pos_avg = share p avg_nodes + one_if (ltb 0 rem)
    let neg_avg = share q avg_nodes
    transfer_n_nodes (min_size (sub64 neg_avg lq.num_nodes) (sub64 lp.num_nodes pos_avg)) p q
    lp' ← load_list p
    lq' ← load_list q
    let pos_is_target = lp'.num_nodes == pos_avg
    let neg_is_target = lq'.num_nodes == neg_avg
    pure (record {
      rem = rem - one_if (ltb 0 rem && pos_is_target);
      pos_stack = if pos_is_target then pos else p ∷ pos;
      neg_stack = if neg_is_target then neg else q ∷ neg;
    })

  -- Each round takes one list off a stack at least: it runs on as many rounds as there are lists on the
  -- stacks, and one more.
  unfoldable pub transfer_loop : (avg_nodes : ℕ) → ℕ → (pos neg : List Ptr) → (rem : ℕ) → M Plan
  transfer_loop avg_nodes zero pos neg rem = λ _. none
  transfer_loop avg_nodes (suc fuel) [] neg rem =
      pure (record { rem = rem; pos_stack = []; neg_stack = neg })
  transfer_loop avg_nodes (suc fuel) (p ∷ pos) [] rem =
      pure (record { rem = rem; pos_stack = p ∷ pos; neg_stack = [] })
  transfer_loop avg_nodes (suc fuel) (p ∷ pos) (q ∷ neg) rem = do
    plan ← transfer_round avg_nodes p q pos neg rem
    transfer_loop avg_nodes fuel plan.pos_stack plan.neg_stack plan.rem

  -- The loop over the domains.
  unfoldable pub balance_domains : (num_lists avg_nodes : ℕ) → List Domain → Plan → M (Unit {0})
  unfolding push_lists transfer_loop
  balance_domains num_lists avg_nodes [] plan = pure tt
  balance_domains num_lists avg_nodes (d ∷ rest) plan = do
    pushed ← push_lists num_lists avg_nodes d.lists_in_domain plan
    plan' ←
        transfer_loop avg_nodes (length pushed.pos_stack + length pushed.neg_stack + 1)
          pushed.pos_stack pushed.neg_stack pushed.rem
    balance_domains num_lists avg_nodes rest plan'

  -- `_autobalanceThreadLoad`. A division by 0 is a fault.
  unfoldable pub autobalance_thread_load : PumaSet → M (Unit {0})
  unfolding sum_threads balance_domains
  autobalance_thread_load s = do
    t ← sum_threads s s.num_threads 0 (record { nodes = 0; num_lists = 0 })
    lift (assert (not (t.num_lists == 0)))
    balance_domains t.num_lists (t.nodes / t.num_lists) s.domains
        (record { rem = t.nodes % t.num_lists; pos_stack = []; neg_stack = [] })

  -- `_balanceThreadLoad`.
  unfoldable pub balance_thread_load : PumaSet → M (Unit {0})
  unfolding autobalance_thread_load
  balance_thread_load s = if s.auto_balance then autobalance_thread_load s else pure tt
