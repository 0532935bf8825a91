-- ===== src/Balance/Tables.antt =====
-- The thread lists that a balance goes over, and their sums.
use puma.Base.{ℕ, suc, ◌+◌, ◌*◌, ◌<◌, ◌≡◌, arith, Option, some, List, [], ◌∷◌, get_elem?, length}
use puma.Memory.{Ptr, ThreadList, Memory, load_list}
use puma.Set.{PumaSet, Domain}
use puma.Balance.Auto.{Totals, sum_threads, one_if}

-- Thread lists with their addresses.
abbrev pub Table : Type 0
Table = List (Ptr × ThreadList)

abbrev pub pointers : Table → List Ptr
pointers [] = []
pointers ((p, l) ∷ rest) = p ∷ pointers rest

abbrev pub InMemory : Memory → Table → Type 0
InMemory h [] = Unit
InMemory h ((p, l) ∷ rest) = (h.list p ≡ some l) × InMemory h rest

abbrev pub domains_of : List Table → List Domain
domains_of [] = []
domains_of (d ∷ rest) = record { lists_in_domain = pointers d } ∷ domains_of rest

abbrev pub AllInMemory : Memory → List Table → Type 0
AllInMemory h [] = Unit
AllInMemory h (d ∷ rest) = InMemory h d × AllInMemory h rest

-- The active lists, and their nodes.
abbrev pub active_lists : Table → ℕ
active_lists [] = 0
active_lists ((p, l) ∷ rest) = one_if l.active + active_lists rest

abbrev pub active_nodes : Table → ℕ
active_nodes [] = 0
active_nodes ((p, l) ∷ rest) = l.num_nodes * one_if l.active + active_nodes rest

abbrev pub all_active_lists : List Table → ℕ
all_active_lists [] = 0
all_active_lists (d ∷ rest) = active_lists d + all_active_lists rest

abbrev pub totals : (nodes num_lists : ℕ) → Memory → Option (Totals × Memory)
totals nodes num_lists h = some (record { nodes = nodes; num_lists = num_lists }, h)

pub sum_threads-active :
    (table : Table) (s : PumaSet) (i nodes num_lists : ℕ) (h : Memory)
    → ((k j : ℕ)
        → k < length table
        → j ≡ i + k
        → get_elem? s.tid_to_thread_list j ≡ get_elem? (pointers table) k)
    → InMemory h table
    → sum_threads s (length table) i (record { nodes = nodes; num_lists = num_lists }) h
      ≡ totals (nodes + active_nodes table) (num_lists + active_lists table) h
unfolding sum_threads load_list
sum_threads-active [] s i nodes num_lists h at there = same (omega arith) (omega arith)
  where
    same : {a b c d : ℕ} → a ≡ b → c ≡ d → totals a c h ≡ totals b d h
    same e e' = cc
sum_threads-active ((p, l) ∷ rest) s i nodes num_lists h at (here, there) =
    let found : get_elem? s.tid_to_thread_list i ≡ some p = at 0 i (omega arith) (omega arith) in
    let later =
      sum_threads-active rest s (i + 1) (nodes + l.num_nodes * one_if l.active)
        (num_lists + one_if l.active) h (λ k j lt e. at (suc k) j (omega arith) (omega arith))
        there in
    let e1 : nodes + l.num_nodes * one_if l.active + active_nodes rest
        ≡ nodes + (l.num_nodes * one_if l.active + active_nodes rest) =
      omega arith in
    let e2 : num_lists + one_if l.active + active_lists rest
        ≡ num_lists + (one_if l.active + active_lists rest) =
      omega arith in
    rw (found, here) (rw (e1, e2) at later)
