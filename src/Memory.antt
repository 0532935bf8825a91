-- ===== src/Memory.antt =====
-- The memory that the library's functions share: nodes, thread lists and the bytes of elements, each
-- at its address, and the monad of functions over it. include/internal/pumanode.h and
-- include/internal/pumathreadlist.h; the fields that no function reads are left out.
use puma.Base.{ℕ, Bool, Option, none, some, List, ◌==◌, if◌then◌else◌}
use puma.Bitmask.{Bitmask}

abbrev pub Ptr : Type 0
Ptr = ℕ

abbrev pub null : Ptr
null = 0

-- `struct pumaNode`.
pub record Node : Type 0 where
  pub element_size : ℕ
  pub page_unit : ℕ
  pub block_size : ℕ
  pub num_pages : ℕ
  pub element_array : Ptr
  pub num_elements : ℕ
  pub capacity : ℕ
  pub first_known_free : ℕ
  pub next : Ptr
  pub prev : Ptr
  pub free_mask : Bitmask
  pub dirty : Bool
  pub active : Bool
  pub index : ℕ
  pub thread_list : Ptr

-- `struct pumaThreadList`, less its run times.
pub record ThreadList : Type 0 where
  pub head : Ptr
  pub tail : Ptr
  pub num_elements : ℕ
  pub num_nodes : ℕ
  pub active : Bool
  pub numa_domain : ℕ
  pub element_size : ℕ
  pub tid : ℕ

-- `elem` gives the value of the element at an address. `fresh` holds the addresses that
-- `posix_memalign` will return, in order: it stands for the C library's allocator.
pub record Memory : Type 0 where
  pub node : Ptr → Option Node
  pub list : Ptr → Option ThreadList
  pub elem : Ptr → ℕ
  pub fresh : List Ptr

-- `none` is a fault: a read through NULL or a dangling pointer, or a failed `assert`.
abbrev pub M : Type 0 → Type 0
M A = Memory → Option (A × Memory)

abbrev pub pure : {A : Type 0} → A → M A
pure a h = some (a, h)

abbrev pub and_then : {A B : Type 0} → Option (A × Memory) → (A → M B) → Option (B × Memory)
and_then none k = none
and_then (some (a, h)) k = k a h

-- A result that leaves memory alone.
abbrev pub attach : {A : Type 0} → Option A → Memory → Option (A × Memory)
attach none h = none
attach (some a) h = some (a, h)

infixl 5 ◌>>=◌
abbrev pub ◌>>=◌ : {A : Type 0} → {B : Type 0} → M A → (A → M B) → M B
◌>>=◌ first next = λ h. and_then (first h) next

infixl 5 ◌>>◌
abbrev pub ◌>>◌ : {B : Type 0} → M (Unit {0}) → M B → M B
first >> next = first >>= λ done. next

abbrev pub lift : {A : Type 0} → Option A → M A
lift o h = attach o h

abbrev pub when : Bool → M (Unit {0}) → M (Unit {0})
when b m = if b then m else pure tt

abbrev pub update {ℓ} : {A : Type ℓ} → (Ptr → A) → Ptr → A → Ptr → A
update f p v q = if p == q then v else f q

-- `*p` for a node and for a thread list.
unfoldable pub load : Ptr → M Node
load p h = attach (h.node p) h

unfoldable pub store : Ptr → Node → M (Unit {0})
store p n h = some (tt, record h { node = update h.node p (some n) })

unfoldable pub load_list : Ptr → M ThreadList
load_list p h = attach (h.list p) h

unfoldable pub store_list : Ptr → ThreadList → M (Unit {0})
store_list p l h = some (tt, record h { list = update h.list p (some l) })

-- `free` of a node's block.
unfoldable pub release : Ptr → M (Unit {0})
release p h = some (tt, record h { node = update h.node p none })

-- `memcpy` of one element.
unfoldable pub copy_element : (to from : Ptr) → M (Unit {0})
copy_element to from h = some (tt, record h { elem = update h.elem to (h.elem from) })
