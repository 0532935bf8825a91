-- ===== src/Node/Create.antt =====
-- A new node: its block, and what it holds.
use native.Mathlib.Nat.{mul-div_cancel}
use puma.Base.{
  ℕ, zero, suc, ◌+◌, ◌-◌, ◌*◌, ◌/◌, ◌^◌, ◌≤◌, ◌<◌, ◌≡◌, refl, ap, ◌∙◌, sym, arith, true, false,
  some, ◌⊎◌,
}
use puma.Bits.{pow_pos}
use puma.Bits.Mask.{bit_and-round}
use puma.Word.{sub64}
use puma.Bitmask.{Bitmask, Layout, create_bitmask_for_elem_array, mask_free}
use puma.Bitmask.Access.{bit_at, bitmask_get-bit_at}
use puma.Bitmask.Create.{rest_bytes, create_bitmask_for_elem_array_lem}
use puma.Memory.{Ptr, null, Node}
use puma.Util.{Config, node_size, get_node_for_element}
use puma.Node.Invariant.{used}
use puma.Node.Filled.{IsFilled}

-- A block as `posix_memalign` gives it for a node: aligned to its size, a power of two, in the address
-- space, and with room for the header.
pub record IsBlock (c : Config) (p : Ptr) : Type 0 where
  pub bits : ℕ
  pub base : ℕ
  pub few : bits ≤ 64
  pub sized : node_size c ≡ 2 ^ bits
  pub aligned : p ≡ base * 2 ^ bits
  pub top : p + 2 ^ bits ≤ 2 ^ 64
  pub header : c.header_size ≤ node_size c
  pub small : node_size c < 2 ^ 56

-- What is left of a node's block behind its header.
abbrev pub array_size : Config → ℕ
array_size c = node_size c - c.header_size

-- An element size for which the elements of a node can be laid out.
pub record Fits (c : Config) (e : ℕ) : Type 0 where
  pub some_bytes : 0 < e
  pub fits : e ≤ array_size c
  pub rest : (rest_bytes (array_size c) e < e) ⊎ (e + 8 < rest_bytes (array_size c) e)

used-none : (m : Bitmask) (k : ℕ) → ((j : ℕ) → j < k → bit_at m j ≡ 1) → used m k ≡ 0
unfolding used
used-none m zero each = refl
used-none m (suc k) each =
    ground (arith, used-none m k (λ j lt. each j (omega arith)), each k (omega arith))

abbrev pub new_node : Config → (list tail : Ptr) → (index e : ℕ) → Layout → Node
new_node c list tail index e layout = record {
  element_size = e;
  page_unit = c.page_size * ((e + c.page_size - 1) / c.page_size);
  block_size = node_size c;
  num_pages = node_size c / c.page_size;
  element_array = layout.array_start;
  num_elements = 0;
  capacity = layout.num_elements;
  first_known_free = 0;
  next = null;
  prev = tail;
  free_mask = layout.mask;
  dirty = false;
  active = true;
  index = index;
  thread_list = list;
}

module _ (c : Config) (p : Ptr) (block : IsBlock c p) where
  open block use {bits, base, few, sized, aligned, top, header, small}

  pub block_found : get_node_for_element c p ≡ p
  unfolding get_node_for_element
  block_found =
      let whole : p / 2 ^ bits ≡ base =
        ap (λ t. t / 2 ^ bits) aligned ∙ mul-div_cancel base (pow_pos bits) in
      rw (sized, bit_and-round bits p few (omega (arith, pow_pos bits)), whole) (sym aligned)

  pub array_bytes : sub64 (node_size c) c.header_size ≡ array_size c
  array_bytes = omega arith

  pub new_node-IsFilled :
      (list tail : Ptr) (index e : ℕ)
      → Fits c e
      → (l : Layout) × (create_bitmask_for_elem_array (p + c.header_size) (array_size c) mask_free e
          ≡ some l)
        × IsFilled c p (new_node c list tail index e l)
        × (0 < l.num_elements)
  new_node-IsFilled list tail index e fit =
      let (l, made, ok, size, pos, each, start, inside, _) =
        create_bitmask_for_elem_array_lem (p + c.header_size) (array_size c) mask_free e
          fit.some_bytes fit.fits (omega arith) fit.rest in
      (
        l,
        made,
        record {
          node = record {
            placed = record {
              bits = bits;
              base = base;
              few = few;
              sized = sized;
              aligned = aligned;
              top = top;
              some_bytes = fit.some_bytes;
              after = omega (arith, start);
              within = omega (arith, inside);
            };
            mask = ok;
            covers = size;
            counted = sym (
                used-none l.mask l.num_elements λ j lt.
                  ground (
                    arith,
                    each j lt,
                    bitmask_get-bit_at l.mask j (omega (arith, ok.sized, size)),
                  ));
          };
          compact = λ j lt. absurd (omega arith);
          next = refl;
        },
        pos,
      )
