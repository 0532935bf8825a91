-- ===== src/Tests/Nodes.antt =====
-- The theorems on nodes at a node of two pages with 70 places of 100 bytes, the first one in use.
use puma.Base.{
  ℕ, zero, suc, ◌+◌, ◌-◌, ◌≤◌, ◌<◌, ◌^◌, ◌≡◌, ◌≢◌, refl, arith, true, false, none, some, ◌==◌,
  if◌then◌else◌, ◌⊎◌, [], ◌∷◌, get_or,
}
use puma.Bits.{bit}
use puma.Word.{ones}
use puma.Bitmask.{Bitmask, bitmask_get, mask_free, mask_not_free}
use puma.Bitmask.Access.{IsBitmask, bitmask_get-bit_at}
use puma.Memory.{Ptr, null, Node, ThreadList, Memory, M, update}
use puma.Util.{Config, get_element, get_node_for_element, get_index_of_element_on_node}
use puma.Util.Address.{IsPlaced, get_element-node-index}
use puma.Node.{alloc_element_on_node, free_element_on_node, trim}
use puma.Node.Invariant.{used, IsNode}
use puma.Node.Elements.{with_node, alloc_element_on_node_lem, free_element_on_node_lem}
use puma.Kernel.{run_kernel_on_node}
use puma.Node.Filled.{IsCompact, IsFilled}
use puma.Alloc.{pumalloc_on_thread_list}
use puma.Alloc.Filled.{pumalloc_on_thread_list-IsFilled}
use puma.Kernel.OnNode.{visit, run_kernel_on_node_lem, run_kernel_on_node-IsCompact}

abbrev pub config : Config
config = record { page_size = 4096; node_pages = 2; header_size = 152 }

abbrev pub first_used : Bitmask
first_used = record {
  buckets = (2 ^ 63 - 1) ∷ ones ∷ [];
  num_elements = 70;
  malloced_buckets = false;
}

abbrev pub a_node : Node
a_node = record {
  element_size = 100;
  page_unit = 4096;
  block_size = 8192;
  num_pages = 2;
  element_array = 8360;
  num_elements = 1;
  capacity = 70;
  first_known_free = 1;
  next = null;
  prev = null;
  free_mask = first_used;
  dirty = false;
  active = true;
  index = 0;
  thread_list = 7;
}

abbrev pub a_list : ThreadList
a_list = record {
  head = 8192;
  tail = 8192;
  num_elements = 1;
  num_nodes = 1;
  active = true;
  numa_domain = 0;
  element_size = 100;
  tid = 0;
}

abbrev pub a_memory : Memory
a_memory = record {
  node = update (λ p. none) 8192 (some a_node);
  list = update (λ p. none) 7 (some a_list);
  elem = λ p. 0;
  fresh = [];
}

first_used_words : (i : ℕ) → get_or first_used.buckets i 0 < 2 ^ 64
first_used_words zero = omega arith
first_used_words (suc zero) = omega arith
first_used_words (suc (suc i)) = omega arith

pub first_used-IsBitmask : IsBitmask first_used
first_used-IsBitmask = record { sized = refl; words = first_used_words }

a_node-IsPlaced : IsPlaced config 8192 a_node
a_node-IsPlaced = record {
  bits = 13;
  base = 1;
  few = omega arith;
  sized = refl;
  aligned = refl;
  top = omega arith;
  some_bytes = omega arith;
  after = omega arith;
  within = omega arith;
}

pub a_node-IsNode : IsNode config 8192 a_node
unfolding used bit
a_node-IsNode = record {
  placed = a_node-IsPlaced;
  mask = first_used-IsBitmask;
  covers = refl;
  counted = refl;
}

pub element_used : bitmask_get first_used 0 ≡ some 0
unfolding bit
element_used = bitmask_get-bit_at first_used 0 (omega arith)

element_free : bitmask_get first_used 1 ≡ some 1
unfolding bit
element_free = bitmask_get-bit_at first_used 1 (omega arith)

get_element-node-index_example :
    (8192 ≤ get_element a_node 3)
    × (get_element a_node 3 + 100 ≤ 8192 + 8192)
    × (get_node_for_element config (get_element a_node 3) ≡ 8192)
    × (get_index_of_element_on_node (get_element a_node 3) a_node ≡ 3)
get_element-node-index_example =
    get_element-node-index config 8192 a_node 3 a_node-IsPlaced (omega arith)

alloc_element_on_node_lem_example :
    (mask : Bitmask) × (alloc_element_on_node config 8192 (get_element a_node 1) a_memory
      ≡ some (
        tt,
        with_node a_memory 8192
            (record a_node { free_mask = mask; num_elements = 1 + 1 })
            (record a_list { num_elements = 1 + 1 }),
      ))
    × IsNode config 8192 (record a_node { free_mask = mask; num_elements = 1 + 1 })
    × ((j : ℕ)
        → j < 70
        → bitmask_get mask j ≡ (if j == 1 then some mask_not_free else bitmask_get first_used j))
alloc_element_on_node_lem_example =
    alloc_element_on_node_lem config 8192 a_node a_list 1 a_memory refl refl a_node-IsNode
      (omega arith) refl element_free

free_element_on_node_lem_example :
    (n' : Node) × (h' : Memory) × (free_element_on_node config (get_element a_node 0) 8192 a_memory
      ≡ trim config 8192 h')
    × (h'.list ≡ update a_memory.list 7 (some (record a_list { num_elements = 1 - 1 })))
    × ((q : Ptr) → h'.node q ≡ (if 8192 == q then some n' else a_memory.node q))
    × IsNode config 8192 n'
    × (n' ≡ record a_node { free_mask = n'.free_mask; num_elements = 1 - 1; dirty = true })
    × ((j : ℕ)
        → j < 70
        → bitmask_get n'.free_mask j
          ≡ (if j == 0 then some mask_free else bitmask_get first_used j))
free_element_on_node_lem_example =
    free_element_on_node_lem config 8192 a_node a_list 0 a_memory refl refl a_node-IsNode
      (omega arith) element_used (omega arith) (omega arith)

-- A kernel that writes to its element.
abbrev touch : Ptr → M (Unit {0})
touch e h = some (tt, record h { elem = update h.elem e 1 })

run_kernel_on_node_lem_example :
    (k : ℕ) × (h' : Memory) × (k ≤ 1)
    × (visit touch a_node k 0 a_memory ≡ some (tt, h'))
    × (run_kernel_on_node touch 8192 0 1 a_memory ≡ some (0 + k, h'))
    × ((j : ℕ) → j < k → bitmask_get first_used j ≡ some mask_not_free)
    × ((k ≡ 1) ⊎ (bitmask_get first_used k ≡ some mask_free))
run_kernel_on_node_lem_example =
    run_kernel_on_node_lem config touch 8192 a_node 0 1 a_memory a_node-IsNode (omega arith)
      (λ e h at. (record h { elem = update h.elem e 1 }, refl, at)) refl (omega arith)

pub a_node-IsCompact : IsCompact a_node
a_node-IsCompact zero lt = element_used
a_node-IsCompact (suc j) lt = absurd (omega arith)

run_kernel_on_node-IsCompact_example :
    (h' : Memory) × (visit touch a_node 1 0 a_memory ≡ some (tt, h'))
    × (run_kernel_on_node touch 8192 0 1 a_memory ≡ some (0 + 1, h'))
run_kernel_on_node-IsCompact_example =
    run_kernel_on_node-IsCompact config touch 8192 a_node 0 1 a_memory a_node-IsNode (omega arith)
      a_node-IsCompact (λ e h at. (record h { elem = update h.elem e 1 }, refl, at)) refl
      (omega arith)

pub a_node-IsFilled : IsFilled config 8192 a_node
a_node-IsFilled = record { node = a_node-IsNode; compact = a_node-IsCompact; next = refl }

pumalloc_on_thread_list-IsFilled_example :
    (n' : Node) × (h' : Memory) × (pumalloc_on_thread_list config 7 a_memory
      ≡ some (get_element a_node 1, h'))
    × (h'.node 8192 ≡ some n')
    × (h'.list 7 ≡ some (record a_list { num_elements = 1 + 1 }))
    × IsFilled config 8192 n'
    × (n' ≡ record a_node {
      free_mask = n'.free_mask;
      first_known_free = 1 + 1;
      active = true;
      num_elements = 1 + 1;
    })
    × ((q : Ptr) → q ≢ 8192 → h'.node q ≡ a_memory.node q)
    × ((q : Ptr) → q ≢ 7 → h'.list q ≡ a_memory.list q)
    × ((j : ℕ)
        → j < 70
        → bitmask_get n'.free_mask j
          ≡ (if j == 1 then some mask_not_free else bitmask_get first_used j))
pumalloc_on_thread_list-IsFilled_example =
    pumalloc_on_thread_list-IsFilled config 7 a_list a_node a_memory refl refl refl refl refl
      a_node-IsFilled (omega arith)
