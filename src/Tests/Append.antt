-- ===== src/Tests/Append.antt =====
-- The theorems on new nodes for elements of 100 bytes, on an empty list and behind a tail.
use puma.Base.{◌+◌, ◌<◌, ◌≡◌, refl, arith, true, none, some, ◌==◌, if◌then◌else◌, inr, [], ◌∷◌}
use puma.Memory.{Ptr, null, Node, ThreadList, Memory, update}
use puma.Node.{append_puma_node}
use puma.Node.Filled.{IsFilled}
use puma.Node.Create.{IsBlock, Fits}
use puma.Node.Append.{append_puma_node-empty, append_puma_node-behind}
use puma.Tests.Nodes.{config, a_node, a_list, a_memory}

fresh_pages-IsBlock : IsBlock config 16384
fresh_pages-IsBlock = record {
  bits = 13;
  base = 2;
  few = omega arith;
  sized = refl;
  aligned = refl;
  top = omega arith;
  header = omega arith;
  small = omega arith;
}

hundred_bytes-Fits : Fits config 100
hundred_bytes-Fits = record {
  some_bytes = omega arith;
  fits = omega arith;
  rest = inr (omega arith);
}

abbrev empty_list : ThreadList
empty_list = record a_list { head = null; tail = null; num_elements = 0; num_nodes = 0 }

abbrev empty_memory : Memory
empty_memory = record {
  node = λ p. none;
  list = update (λ p. none) 7 (some empty_list);
  elem = λ p. 0;
  fresh = 16384 ∷ [];
}

append_puma_node-empty_example :
    (n : Node) × (h' : Memory) × (append_puma_node config 7 100 empty_memory ≡ some (16384, h'))
    × IsFilled config 16384 n
    × (n.num_elements ≡ 0)
    × (0 < n.capacity)
    × (n.active ≡ true)
    × (n.next ≡ null)
    × (n.prev ≡ null)
    × (n.thread_list ≡ 7)
    × ((q : Ptr) → h'.node q ≡ (if 16384 == q then some n else empty_memory.node q))
    × ((q : Ptr)
        → h'.list q ≡ (
            if 7 == q
            then some (record empty_list {
              tail = 16384;
              head = if null == null then 16384 else null;
              num_nodes = 1;
            })
            else empty_memory.list q))
append_puma_node-empty_example =
    append_puma_node-empty config 7 16384 100 empty_list [] empty_memory refl refl refl
      fresh_pages-IsBlock hundred_bytes-Fits

abbrev more_memory : Memory
more_memory = record a_memory { fresh = 16384 ∷ [] }

append_puma_node-behind_example :
    (n : Node) × (h' : Memory) × (append_puma_node config 7 100 more_memory ≡ some (16384, h'))
    × IsFilled config 16384 n
    × (n.num_elements ≡ 0)
    × (0 < n.capacity)
    × (n.active ≡ true)
    × (n.next ≡ null)
    × (n.prev ≡ 8192)
    × (n.index ≡ 0 + 1)
    × (n.thread_list ≡ 7)
    × ((q : Ptr)
        → h'.node q ≡ (
            if 16384 == q
            then some n
            else (if 8192 == q then some (record a_node { next = 16384 }) else more_memory.node q)))
    × ((q : Ptr)
        → h'.list q ≡ (
            if 7 == q
            then some (record a_list { tail = 16384; num_nodes = 0 + 1 + 1 })
            else more_memory.list q))
append_puma_node-behind_example =
    append_puma_node-behind config 7 16384 100 a_list a_node [] more_memory refl refl refl refl refl
      (omega arith) refl refl (omega arith) fresh_pages-IsBlock hundred_bytes-Fits
