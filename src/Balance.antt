-- ===== src/Balance.antt =====
-- src/internal/pumabalance.c, in the build without NUMA: nodes are moved between thread lists so that
-- each list has its share of them. Without NUMA `_moveNodeDomains` does nothing.
pub mod Auto
pub mod Tables
pub mod Even
pub mod Segment
pub mod Shape
pub mod Moved
pub mod Splice
pub mod Front
pub mod Transfer
pub mod Lists
pub mod Between
pub mod Stacks
pub mod Round
pub mod Loop
pub mod Push
pub mod Level
pub mod Ends
use puma.Base.{
  ℕ, zero, suc, ◌+◌, ◌-◌, ◌*◌, ◌/◌, ◌%◌, Bool, true, false, ◌&&◌, not, none, some, List, [], ◌∷◌,
  if◌then◌else◌, ltb, leb, ◌==◌, assert, get_elem?,
}
use puma.Word.{sub64}
use puma.Memory.{
  Ptr, null, Node, ThreadList, Memory, M, pure, ◌>>=◌, ◌>>◌, lift, when, load, store, load_list,
  store_list,
}
use puma.Set.{PumaSet, Domain}

-- `while(!done) { done = (start == end); …; start = start->next; }`, the body told how many rounds
-- went before it. It runs on fuel: the number of nodes from `start` to `end`.
unfoldable pub each_node :
    (ℕ → Ptr → M (Unit {0})) → ℕ → (start end_ : Ptr) → (i : ℕ) → M (Unit {0})
each_node body zero start end_ i = λ _. none
each_node body (suc fuel) start end_ i = do
  body i start
  n ← load start
  if start == end_ then pure tt else each_node body fuel n.next end_ (i + 1)

-- `_indexNodes`.
pub set_index : (index : ℕ) → Ptr → M (Unit {0})
unfolding load store
set_index index p = do n ← load p; store p (record n { index = index })

pub index_nodes : ℕ → (start end_ : Ptr) → M (Unit {0})
unfolding load set_index each_node
index_nodes fuel start end_ = do
  s ← load start
  if s.prev == null
      then each_node set_index fuel start end_ 0
      else do p ← load s.prev; each_node set_index fuel start end_ (p.index + 1)

-- `_moveNodeThreadLists`.
pub set_thread_list : Ptr → ℕ → Ptr → M (Unit {0})
unfolding load store
set_thread_list list i p = do n ← load p; store p (record n { thread_list = list })

pub move_node_thread_lists : ℕ → (start end_ list : Ptr) → M (Unit {0})
unfolding set_thread_list each_node
move_node_thread_lists fuel start end_ list = each_node (set_thread_list list) fuel start end_ 0

-- `_updatenumElements`.
pub move_count : (from to : Ptr) → ℕ → Ptr → M (Unit {0})
unfolding load load_list store_list
move_count from to i p = do
  n ← load p
  f ← load_list from
  store_list from (record f { num_elements = sub64 f.num_elements n.num_elements })
  t ← load_list to
  store_list to (record t { num_elements = t.num_elements + n.num_elements })

pub update_num_elements : ℕ → (start end_ from to : Ptr) → M (Unit {0})
unfolding move_count each_node
update_num_elements fuel start end_ from to = each_node (move_count from to) fuel start end_ 0

-- `_countNodes` at `c` after `n` nodes. A list with more active nodes than the fuel has more than it
-- counts, for which the callers' `assert` fails as well.
unfoldable pub count_loop : ℕ → (c : Ptr) → (n : ℕ) → M ℕ
count_loop zero c n = λ _. none
count_loop (suc fuel) c n = if c == null then pure n else do
  node ← load c
  if not node.active
      then pure n
      else do lift (assert (node.index == n)); count_loop fuel node.next (n + 1)

unfoldable pub count_nodes : Ptr → M ℕ
unfolding load_list count_loop
count_nodes list = do l ← load_list list; count_loop (l.num_nodes + 2) l.head 0

-- `assert(l->numNodes == _countNodes(l))`.
pub assert_counted : Ptr → M (Unit {0})
unfolding load_list count_nodes
assert_counted list = do n ← count_nodes list; l ← load_list list; lift (assert (l.num_nodes == n))

-- `for(size_t i = 1; i < n; ++i) start = start->prev;`, with `left` rounds to go.
pub back_up : (left : ℕ) → Ptr → M Ptr
back_up zero start = pure start
back_up (suc left) start = do s ← load start; back_up left s.prev

-- `p->next = v;` and `p->prev = v;`.
pub set_next : (p v : Ptr) → M (Unit {0})
unfolding load store
set_next p v = do n ← load p; store p (record n { next = v })

pub set_prev : (p v : Ptr) → M (Unit {0})
unfolding load store
set_prev p v = do n ← load p; store p (record n { prev = v })

-- The nodes from `start` to `end` are put behind the active nodes of the list `to`.
pub splice_behind : (start end_ to_tail : Ptr) → M (Unit {0})
unfolding load store set_next set_prev
splice_behind start end_ to_tail = do
  t ← load to_tail
  set_next end_ t.next
  when (not (t.next == null)) (set_prev t.next end_)
  t' ← load to_tail
  store to_tail (record t' { next = start; dirty = true })
  set_prev start to_tail

-- They are put in front of the list `to`, which has no active node.
pub splice_in_front : (start end_ to to_tail : Ptr) → M (Unit {0})
unfolding load store load_list store_list set_next set_prev
splice_in_front start end_ to to_tail = do
  l ← load_list to
  store_list to (record l { head = start })
  set_next end_ to_tail
  when (not (to_tail == null)) do
    e ← load end_
    t ← load to_tail
    store to_tail (record t { prev = end_; index = e.index + 1 })
  set_prev start null

-- What is left of the list `from` is linked with the inactive nodes that stood behind its tail.
pub close_from : (from from_tail_next : Ptr) → M (Unit {0})
unfolding load store load_list store_list set_next set_prev
close_from from from_tail_next = do
  f ← load_list from
  if f.tail == null
      then (do
        store_list from (record f { head = from_tail_next; tail = from_tail_next })
        when (not (from_tail_next == null))
            do s ← load from_tail_next; store from_tail_next (record s { prev = null; index = 0 }))
      else (do
        set_next f.tail from_tail_next
        when (not (from_tail_next == null)) (set_prev from_tail_next f.tail))

pub is_active_tail : Ptr → M Bool
unfolding load
is_active_tail tail = if tail == null then pure false else do t ← load tail; pure t.active

-- `_transferNNodes`.
pub transfer_n_nodes : (n : ℕ) (from to : Ptr) → M (Unit {0})
transfer_n_nodes n from to = do
  lift (assert (ltb 0 n))
  f0 ← load_list from
  lift (assert (leb n f0.num_nodes))
  assert_counted to
  assert_counted from
  let end_ = f0.tail
  e ← load end_
  let from_tail_next = e.next
  start ← back_up (n - 1) end_
  s ← load start
  f ← load_list from
  store_list from (record f { tail = s.prev })
  t ← load_list to
  active ← is_active_tail t.tail
  if active then splice_behind start end_ t.tail else splice_in_front start end_ to t.tail
  t' ← load_list to
  store_list to (record t' { tail = end_ })
  close_from from from_tail_next
  index_nodes n start end_
  move_node_thread_lists n start end_ to
  update_num_elements n start end_ from to
  f2 ← load_list from
  store_list from (record f2 { num_nodes = f2.num_nodes - n })
  t2 ← load_list to
  store_list to (record t2 { num_nodes = t2.num_nodes + n })
  assert_counted to
  assert_counted from
