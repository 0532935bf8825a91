-- ===== src/StaticVar.antt =====
-- src/pumastaticvar.c: thread-local data that lives until all of it is deleted. The state is that of
-- one thread: its two keys, its nodes, and the addresses that `numalloc_on_node` will return.
pub mod Space
use puma.Base.{
  ℕ, zero, suc, ◌+◌, Bool, Option, none, some, List, [], ◌∷◌, not, leb, ◌==◌, if◌then◌else◌,
}
use puma.Word.{u64, sub64}
use puma.Memory.{Ptr, null, update}
use puma.Util.{Config, get_smallest_containing_pages, get_node_for_element}

-- `struct pumaStaticNode`, and its size.
pub record StaticNode : Type 0 where
  pub next_free : Ptr
  pub used : ℕ
  pub block_size : ℕ
  pub next : Ptr
  pub prev : Ptr

abbrev pub static_header : ℕ
static_header = 40

-- The values of `_staticHeadKey` and `_staticTailKey` are `head` and `tail`.
pub record Statics : Type 0 where
  pub node : Ptr → Option StaticNode
  pub head : Ptr
  pub tail : Ptr
  pub fresh : List Ptr

abbrev pub S : Type 0 → Type 0
S A = Statics → Option (A × Statics)

abbrev pub pure : {A : Type 0} → A → S A
pure a s = some (a, s)

abbrev pub and_then : {A B : Type 0} → Option (A × Statics) → (A → S B) → Option (B × Statics)
and_then none k = none
and_then (some (a, s)) k = k a s

infixl 5 ◌>>=◌
abbrev pub ◌>>=◌ : {A : Type 0} → {B : Type 0} → S A → (A → S B) → S B
◌>>=◌ first next = λ s. and_then (first s) next

infixl 5 ◌>>◌
abbrev pub ◌>>◌ : {B : Type 0} → S (Unit {0}) → S B → S B
first >> next = first >>= λ done. next

abbrev pub get_state : S Statics
get_state s = some (s, s)

abbrev pub load_at : Option StaticNode → S StaticNode
load_at none s = none
load_at (some n) s = some (n, s)

abbrev pub load : Ptr → S StaticNode
load p s = load_at (s.node p) s

abbrev pub store : Ptr → StaticNode → S (Unit {0})
store p n s = some (tt, record s { node = update s.node p (some n) })

-- `numalloc_on_node`: the next address that `posix_memalign` gives, with its `assert` that the address
-- is aligned to a node's size, where a page's alignment was asked for.
abbrev pub take_fresh : Config → List Ptr → S Ptr
take_fresh c [] s = none
take_fresh c (p ∷ rest) s =
    if p == get_node_for_element c p then some (p, record s { fresh = rest }) else none

abbrev pub set_keys : Ptr → S (Unit {0})
set_keys p s = some (tt, record s { head = p; tail = p })

-- `_appendStaticNode`; it sets no key.
pub append_static_node : Config → (prev : Ptr) (node_size : ℕ) → S Ptr
append_static_node c prev node_size = do
  s ← get_state
  ret ← take_fresh c s.fresh
  store ret (record {
    next_free = ret + static_header;
    used = 0;
    block_size = u64 (node_size + static_header);
    next = null;
    prev = prev;
  })
  if prev == null
      then pure ret
      else do p ← load prev; store prev (record p { next = ret }); pure ret

-- `_tailHasSpace`: the size of the block counts the header, `used` does not.
pub tail_has_space : ℕ → S Bool
tail_has_space size = do s ← get_state; t ← load s.tail; pure (leb size (sub64 t.block_size t.used))

-- The node that `pumallocStaticLocal` takes: the one that the tail key names, or a new one.
pub static_node_for : Config → (size : ℕ) → S Ptr
unfolding append_static_node tail_has_space
static_node_for c size = do
  s ← get_state
  let pages = get_smallest_containing_pages c.page_size size
  if s.head == null then (append_static_node c null pages >>= λ p. set_keys p) else pure tt
  s' ← get_state
  space ← tail_has_space size
  if space then pure s'.tail else append_static_node c s'.tail pages

-- The end of `pumallocStaticLocal`, on the node taken.
pub take_bytes : (node : Ptr) (size : ℕ) → S Ptr
take_bytes node size = do
  t ← load node
  store node (record t { next_free = t.next_free + size; used = u64 (t.used + size) })
  pure t.next_free

-- `pumallocStaticLocal`.
pub pumalloc_static_local : Config → (size : ℕ) → S Ptr
unfolding static_node_for take_bytes
pumalloc_static_local c size = do node ← static_node_for c size; take_bytes node size

-- `pumaDeleteStaticData`: the blocks from `head` on are freed, on fuel, and the keys are made anew.
pub delete_loop : ℕ → Ptr → S (Unit {0})
delete_loop zero p = λ _. none
delete_loop (suc fuel) p = if p == null then pure tt else do
  n ← load p
  (λ s. some (tt, record s { node = update s.node p none })) >> delete_loop fuel n.next

pub delete_static_data : ℕ → S (Unit {0})
unfolding delete_loop
delete_static_data fuel = do s ← get_state; delete_loop fuel s.head; set_keys null
