-- ===== src/Tests/Transfer.antt =====
-- The theorem on a transfer at a list of two nodes, the second of which goes to a list of one.
use puma.Base.{◌≡◌, ◌≢◌, refl, arith, true, false, none, some, [], ◌∷◌, ◌==◌, if◌then◌else◌, inl}
use puma.Memory.{Ptr, null, Node, ThreadList, Memory}
use puma.Node.Chain.{Cells, has}
use puma.Balance.{transfer_n_nodes}
use puma.Balance.Transfer.{IsList}
use puma.Balance.Transfer.Whole.{transfer_n_nodes-IsList}
use puma.Tests.Nodes.{a_node, a_list}

abbrev pub first_node : Node
first_node = record a_node { next = 16384 }

abbrev pub second_node : Node
second_node = record a_node { prev = 8192; index = 1 }

abbrev other_node : Node
other_node = record a_node { thread_list = 9 }

abbrev pub from_list : ThreadList
from_list = record a_list { tail = 16384; num_elements = 2; num_nodes = 2 }

abbrev to_list : ThreadList
to_list = record a_list { head = 24576; tail = 24576 }

abbrev two_lists : Memory
two_lists = record {
  node = λ p.
      if p == 8192
      then some first_node
      else if p == 16384
      then some second_node
      else if p == 24576
      then some other_node
      else none;
  list = λ p. if p == 7 then some from_list else if p == 9 then some to_list else none;
  elem = λ p. 0;
  fresh = [];
}

abbrev all_nodes : Cells
all_nodes = (8192, first_node) ∷ (16384, second_node) ∷ (24576, other_node) ∷ []

from_list-IsList :
    IsList two_lists 7 from_list ((8192, first_node) ∷ (16384, second_node) ∷ []) null
from_list-IsList = record {
  in_list = refl;
  linked = (refl, refl, refl, refl, (refl, refl, refl, refl, tt));
  head = refl;
  tail = refl;
  nodes = refl;
  elements = refl;
  counted = (refl, refl, (refl, refl, tt));
  stops = inl refl;
}

to_list-IsList : IsList two_lists 9 to_list ((24576, other_node) ∷ []) null
to_list-IsList = record {
  in_list = refl;
  linked = (refl, refl, refl, refl, tt);
  head = refl;
  tail = refl;
  nodes = refl;
  elements = refl;
  counted = (refl, refl, tt);
  stops = inl refl;
}

transfer_n_nodes-IsList_example :
    (h' : Memory) × (f' : ThreadList) × (t' : ThreadList) × (transfer_n_nodes 1 7 9 two_lists
      ≡ some (tt, h'))
    × IsList h' 7 f' ((8192, record first_node { next = null }) ∷ []) null
    × IsList h' 9 t'
        ((24576, record other_node { next = 16384; dirty = true })
          ∷ (16384, record second_node { prev = 24576; next = null; index = 1; thread_list = 9 })
          ∷ [])
        null
    × ((q : Ptr) → q ≢ 7 → q ≢ 9 → h'.list q ≡ two_lists.list q)
    × ((q : Ptr) → has q all_nodes ≡ false → null ≢ q → null ≢ q → h'.node q ≡ two_lists.node q)
transfer_n_nodes-IsList_example =
    transfer_n_nodes-IsList 7 9 null null 16384 second_node [] ((8192, first_node) ∷ [])
      ((24576, other_node) ∷ []) from_list to_list two_lists (λ e. omega (arith, e))
      from_list-IsList to_list-IsList (refl, (refl, (refl, tt))) refl refl (omega arith)
