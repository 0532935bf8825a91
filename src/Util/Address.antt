-- ===== src/Util/Address.antt =====
-- Elements of a node have distinct addresses in its block, from which the node is found again.
use puma.Base.{ℕ, ◌+◌, ◌-◌, ◌*◌, ◌/◌, ◌^◌, ◌≤◌, ◌<◌, ◌≡◌, ap, sym, ◌∙◌, arith, ◌==◌, if◌then◌else◌}
use native.Mathlib.Nat.{
  add-mul-div_right, div-add-mod', mul-div_cancel, div-eq_of_lt, mod-lt, mod-eq_of_lt,
}
use puma.Bits.{pow_pos}
use puma.Bits.Mask.{bit_and-round}
use puma.Word.{u64, sub64}
use puma.Memory.{Ptr, Node}
use puma.Util.{
  Config, node_size, get_smallest_containing_pages, get_element, get_index_of_element_on_node,
  get_node_for_element,
}

-- A node at `p` whose block is `2 ^ bits` bytes, aligned to its size, and holds its elements.
pub record IsPlacedAt (c : Config) (p : Ptr) (size array capacity : ℕ) : Type 0 where
  pub bits : ℕ
  pub base : ℕ
  pub few : bits ≤ 64
  pub sized : node_size c ≡ 2 ^ bits
  pub aligned : p ≡ base * 2 ^ bits
  pub top : p + 2 ^ bits ≤ 2 ^ 64
  pub some_bytes : 0 < size
  pub after : p ≤ array
  pub within : array + capacity * size ≤ p + 2 ^ bits

abbrev pub IsPlaced : Config → Ptr → Node → Type 0
IsPlaced c p n = IsPlacedAt c p n.element_size n.element_array n.capacity

element-lt :
    (n : Node) (i : ℕ)
    → i < n.capacity
    → i * n.element_size + n.element_size ≤ n.capacity * n.element_size
element-lt n i h = grind arith

-- An element of a placed node lies in the node's block; its node is found from its address alone,
-- and its index from its address and the node.
pub get_element-node-index :
    (c : Config) (p : Ptr) (n : Node) (i : ℕ)
    → IsPlaced c p n
    → i < n.capacity
    → (p ≤ get_element n i)
      × (get_element n i + n.element_size ≤ p + node_size c)
      × (get_node_for_element c (get_element n i) ≡ p)
      × (get_index_of_element_on_node (get_element n i) n ≡ i)
unfolding get_element get_node_for_element get_index_of_element_on_node
get_element-node-index c p n i placed lt =
    let room = element-lt n i lt in
    let e = i * n.element_size + n.element_array in
    let offset : e - p < 2 ^ bits = omega (arith, room) in
    let e_sum : e ≡ (e - p) + base * 2 ^ bits = omega arith in
    let e_div : e / 2 ^ bits ≡ base =
      ap (λ t. t / 2 ^ bits) e_sum
      ∙ add-mul-div_right (e - p) base (pow_pos bits)
      ∙ ap (λ t. t + base) (div-eq_of_lt offset)
      ∙ omega arith in
    let diff : sub64 e n.element_array ≡ i * n.element_size = omega (arith, room) in
    (
      omega arith,
      omega (arith, room),
      rw (sized, bit_and-round bits e few (omega (arith, room)), e_div) (sym aligned),
      rw (diff, mul-div_cancel i some_bytes),
    )
  where
    open placed use {bits, base, few, sized, aligned, top, some_bytes, after, within}

abbrev round_up : ℕ → ℕ → ℕ
round_up size p = size / p * p + (if size / p * p == size then 0 else 1) * p

round_up_lem :
    (size p : ℕ)
    → 0 < p
    → (size ≤ round_up size p)
      × (round_up size p < size + p)
      × ((m : ℕ) × (round_up size p ≡ m * p))
round_up_lem size p pos = (
  ground (arith, div-add-mod' size p, mod-lt size pos),
  ground (arith, div-add-mod' size p, mod-lt size pos),
  (size / p + (if size / p * p == size then 0 else 1), ground arith),
)

-- With pages of `2 ^ k` bytes, and a size that leaves room for a page below `2 ^ 64`: the least
-- multiple of the page size that holds `size` bytes.
pub get_smallest_containing_pages_lem :
    (k page_size size : ℕ)
    → k ≤ 64
    → page_size ≡ 2 ^ k
    → size + page_size ≤ 2 ^ 64
    → (size ≤ get_smallest_containing_pages page_size size)
      × (get_smallest_containing_pages page_size size < size + page_size)
      × ((m : ℕ) × (get_smallest_containing_pages page_size size ≡ m * page_size))
unfolding get_smallest_containing_pages
get_smallest_containing_pages_lem k page_size size few pages small =
    let (holds, least, whole) = round_up_lem size (2 ^ k) (pow_pos k) in
    let no_wrap : u64 (round_up size (2 ^ k)) ≡ round_up size (2 ^ k) =
      mod-eq_of_lt (omega (arith, pow_pos k)) in
    rw (pages, bit_and-round k size few (omega (arith, pow_pos k)), no_wrap) (holds, least, whole)
