-- ===== src/Tests/Balance.antt =====
-- The theorems on the balance of thread lists for a set of one thread.
use puma.Base.{◌≡◌, refl, arith, true, some, [], ◌∷◌}
use puma.Set.{PumaSet}
use puma.Balance.Auto.{balance_thread_load}
use puma.Balance.Tables.{Table}
use puma.Balance.Even.{balance_thread_load-fair}
use puma.Tests.Nodes.{a_list, a_memory}
use puma.Tests.Runs.{one_thread}

abbrev balanced : PumaSet
balanced = record one_thread { auto_balance = true }

abbrev table : Table
table = (7, a_list) ∷ []

balance_thread_load-fair_example :
    balance_thread_load (λ p avg. avg) balanced a_memory ≡ some (tt, a_memory)
balance_thread_load-fair_example =
    balance_thread_load-fair (λ p avg. avg) true balanced table (table ∷ []) a_memory refl refl refl
      refl (refl, tt) ((refl, tt), tt) (λ e. omega (arith, e)) (omega arith)
      (((λ on. omega arith), tt), tt)
