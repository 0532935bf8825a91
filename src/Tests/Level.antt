-- ===== src/Tests/Level.antt =====
-- The theorem on a balance from its start to its end, for a list of two nodes and one of none.
use mathlib.Core.Path.{subst}
use puma.Base.{
  ◌<◌, ◌^◌, ◌≡◌, ◌≢◌, refl, sym, arith, true, false, none, some, [], ◌∷◌, ◌==◌, if◌then◌else◌,
  length, ℕ_discrete, inl,
}
use puma.Memory.{Ptr, null, ThreadList, Memory}
use puma.Node.Chain.{Cells, has, Apart, total_elements}
use puma.Set.{PumaSet}
use puma.Balance.Auto.{balance_thread_load}
use puma.Balance.Tables.{Table}
use puma.Balance.Shape.{is_among}
use puma.Balance.Transfer.{IsList}
use puma.Balance.Lists.{AreLists}
use puma.Balance.Loop.{NoneLost}
use puma.Balance.Push.{is_on}
use puma.Balance.Ends.{average, IsLevel, balance_thread_load-AreLists}
use puma.Tests.Nodes.{a_list}
use puma.Tests.Runs.{one_thread}
use puma.Tests.Transfer.{first_node, second_node, from_list}

abbrev empty_list : ThreadList
empty_list = record a_list { head = null; tail = null; num_elements = 0; num_nodes = 0 }

abbrev uneven : Memory
uneven = record {
  node = λ p. if p == 8192 then some first_node else if p == 16384 then some second_node else none;
  list = λ p. if p == 7 then some from_list else if p == 9 then some empty_list else none;
  elem = λ p. 0;
  fresh = [];
}

abbrev two_threads : PumaSet
two_threads = record one_thread {
  domains = record { lists_in_domain = 7 ∷ 9 ∷ [] } ∷ [];
  num_threads = 2;
  tid_to_thread_list = 7 ∷ 9 ∷ [];
  auto_balance = true;
}

abbrev table : Table
table = (7, from_list) ∷ (9, empty_list) ∷ []

abbrev two_cells : Cells
two_cells = (8192, first_node) ∷ (16384, second_node) ∷ []

abbrev cells : Ptr → Cells
cells p = if p == 7 then two_cells else []

-- What holds of both lists.
both : (P : Ptr → Type 0) → P 7 → P 9 → (p : Ptr) → is_among p (7 ∷ 9 ∷ []) ≡ true → P p
both P seven nine p at = elim (ℕ_discrete p 7) [
  | yes e ↦ subst P (sym e) seven
  | no other ↦ subst P (sym (is_nine other)) nine
]
  where
    is_nine : p ≢ 7 → p ≡ 9
    is_nine other = ground (arith, at, other)

uneven-AreLists : AreLists (7 ∷ 9 ∷ []) (λ r. 7) cells (λ p. null) uneven
uneven-AreLists = record {
  lists =
      both (λ p. (l : ThreadList) × IsList uneven p l (cells p) null)
        (
          from_list,
          record {
            in_list = refl;
            linked = (refl, refl, refl, refl, (refl, refl, refl, refl, tt));
            head = refl;
            tail = refl;
            nodes = refl;
            elements = refl;
            counted = (refl, refl, (refl, refl, tt));
            stops = inl refl;
          },
        )
        (
          empty_list,
          record {
            in_list = refl;
            linked = tt;
            head = refl;
            tail = refl;
            nodes = refl;
            elements = refl;
            counted = tt;
            stops = inl refl;
          },
        );
  apart = both (λ p. Apart (cells p)) (refl, (refl, tt)) tt;
  owned = λ p r in_p.
      both (λ p. has r (cells p) ≡ true → 7 ≡ p) (λ at. refl) (λ at. ground (arith, at)) p in_p;
  outside = λ p q in_p in_q. both (λ q. has null (cells q) ≡ false) refl refl q in_q;
}

balance_thread_load-AreLists_example :
    (h' : Memory) × (owner' : Ptr → Ptr) × (cells' : Ptr → Cells) × (balance_thread_load
        (λ p avg. avg)
        two_threads
        uneven
      ≡ some (tt, h'))
    × AreLists (7 ∷ 9 ∷ []) owner' cells' (λ p. null) h'
    × NoneLost (7 ∷ 9 ∷ []) cells cells'
    × NoneLost (7 ∷ 9 ∷ []) cells' cells
    × IsLevel (λ p avg. avg) (average table) (7 ∷ 9 ∷ []) (is_on uneven) cells'
balance_thread_load-AreLists_example =
    balance_thread_load-AreLists (λ p avg. avg) two_threads table (7 ∷ 9 ∷ []) (λ r. 7) cells
      (λ p. null) uneven refl refl refl refl (refl, (refl, tt)) (λ e. omega (arith, e))
      (omega arith) (refl, (refl, tt)) uneven-AreLists
      (both (λ p. (length (cells p) < 2 ^ 64) × (total_elements (cells p) < 2 ^ 64))
        (omega arith, omega arith) (omega arith, omega arith))
      (λ p. omega arith)
