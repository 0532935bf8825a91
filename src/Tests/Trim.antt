-- ===== src/Tests/Trim.antt =====
-- The theorems on inactive nodes behind a node with one of 70 places in use.
use puma.Base.{◌≡◌, ◌≢◌, refl, arith, false, none, some, ◌==◌, if◌then◌else◌}
use puma.Memory.{Ptr, null, Node, Memory, update}
use puma.Node.{trim}
use puma.Node.Trim.{IsBehind, trim-last, trim-cut_off}
use puma.Tests.Nodes.{config, a_node, a_list, a_memory}

abbrev before : Node
before = record a_node { next = 16384 }

-- The inactive node, with `r` behind it.
abbrev between : Ptr → Node
between r = record a_node { prev = 8192; next = r; active = false; num_elements = 0; index = 1 }

abbrev last_node : Node
last_node = record a_node { prev = 16384; active = false; num_elements = 0; index = 2 }

abbrev three_nodes : Ptr → Memory
three_nodes r = record a_memory {
  node =
      update (update (update (λ p. none) 24576 (some last_node)) 16384 (some (between r))) 8192
        (some before);
}

linked : (r : Ptr) → IsBehind 8192 16384 before (between r) a_list (three_nodes r)
linked r = record {
  at_p = refl;
  at_q = refl;
  in_list = refl;
  behind = refl;
  back = refl;
  p_live = refl;
  q_live = refl;
  other = omega arith;
}

trim-last_example :
    (h' : Memory) × (trim config 8192 (three_nodes null) ≡ some (tt, h'))
    × (h'.node 16384 ≡ none)
    × (h'.node 8192 ≡ some (record before { next = null }))
    × ((o : Ptr) → o ≢ 8192 → o ≢ 16384 → h'.node o ≡ (three_nodes null).node o)
    × (h'.list
        ≡ update a_memory.list 7 (
            some (record a_list {
              tail = if 16384 == 8192 then 8192 else 8192;
              head = if 16384 == 8192 then null else 8192;
            })))
trim-last_example =
    trim-last config 8192 16384 before (between null) a_list (three_nodes null) (linked null)
      (omega arith) refl refl

trim-cut_off_example :
    (h' : Memory) × (trim config 8192 (three_nodes 24576) ≡ some (tt, h'))
    × (h'.node 16384 ≡ none)
    × (h'.node 8192 ≡ some (record before { next = null }))
    × (h'.node 24576 ≡ some (record last_node { prev = 8192 }))
    × ((o : Ptr) → o ≢ 8192 → o ≢ 16384 → o ≢ 24576 → h'.node o ≡ (three_nodes 24576).node o)
trim-cut_off_example =
    trim-cut_off config 8192 16384 24576 before (between 24576) last_node a_list (three_nodes 24576)
      (linked 24576) (omega arith) refl refl refl refl (omega arith) (omega arith)
