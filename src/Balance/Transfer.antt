-- ===== src/Balance/Transfer.antt =====
-- When a thread list is well formed, and the steps of `_transferNNodes` one after another.
pub mod Stages
pub mod Closed
pub mod After
pub mod Outside
pub mod Whole
use mathlib.Core.Path.{subst}
use puma.Base.{
  ℕ, zero, suc, ◌+◌, ◌-◌, ◌<◌, ◌≤◌, ◌^◌, ◌≡◌, ◌≢◌, refl, sym, ap, ◌∙◌, arith, Bool, true, false,
  not, none, some, Option, List, [], ◌∷◌, ◌==◌, ◌||◌, ◌++◌, ltb, leb, assert, if◌then◌else◌, length,
  inl, inr,
}
use puma.Memory.{
  Ptr, null, Node, ThreadList, Memory, M, pure, ◌>>=◌, ◌>>◌, lift, update, load, store, load_list,
  store_list,
}
use puma.Node.Chain.{
  Cells, first_of, Linked, Linked-frame, has, has-++, Apart, Apart-++, total_elements,
}
use puma.Balance.{
  each_node, move_count, count_loop, count_nodes, assert_counted, back_up, is_active_tail,
  splice_behind, splice_in_front, close_from, index_nodes, move_node_thread_lists,
  update_num_elements, transfer_n_nodes,
}
use puma.Balance.Segment.{
  last_of, if_last, mapped, update-other, StopsAt, IsCounted, count_loop-IsCounted, back_up-first,
}

-- The tail of a list: its last active node, or else the node behind.
abbrev pub tail_of : Cells → (after : Ptr) → Ptr
tail_of [] after = after
tail_of ((p, n) ∷ rest) after = last_of rest p

-- The thread list at `p` is the chain of these nodes, all active and counted, and behind them
-- is NULL or a node that is not active.
pub record IsList (h : Memory) (p : Ptr) (l : ThreadList) (cells : Cells) (after : Ptr)
    : Type 0 where
  pub in_list : h.list p ≡ some l
  pub linked : Linked h.node null cells after
  pub head : l.head ≡ first_of cells after
  pub tail : l.tail ≡ tail_of cells after
  pub nodes : l.num_nodes ≡ length cells
  pub elements : l.num_elements ≡ total_elements cells
  pub counted : IsCounted 0 cells
  pub stops : StopsAt h.node after

pub assert_counted-IsList :
    (h : Memory) (p : Ptr) (l : ThreadList) (cells : Cells) (after : Ptr)
    → IsList h p l cells after
    → assert_counted p h ≡ some (tt, h)
unfolding assert_counted count_nodes load_list
assert_counted-IsList h p l cells after i =
    let counts =
      count_loop-IsCounted cells null after (l.num_nodes + 2) 0 h i.linked i.counted i.stops
        (omega (arith, i.nodes)) in
    let same : (l.num_nodes == (0 + length cells)) ≡ true = ground (arith, i.nodes) in
    rw (i.in_list, i.head, counts, i.in_list, same) refl

pub ltb-true : (x y : ℕ) → x < y → ltb x y ≡ true
ltb-true x y lt = ground arith

pub leb-true : (x y : ℕ) → x ≤ y → leb x y ≡ true
leb-true x y le = ground arith

pub transfer-runs :
    (n : ℕ) (from to : Ptr) (f t t' f2 t2 : ThreadList) (e s : Node)
    (end_ behind start to_tail : Ptr) (active : Bool)
    → (h h1 h2 h3 h4 h5 h6 h7 h8 h9 : Memory) → ltb 0 n ≡ true
    → h.list from ≡ some f
    → leb n f.num_nodes ≡ true
    → assert_counted to h ≡ some (tt, h)
    → assert_counted from h ≡ some (tt, h)
    → f.tail ≡ end_
    → h.node end_ ≡ some e
    → e.next ≡ behind
    → back_up (n - 1) end_ h ≡ some (start, h)
    → h.node start ≡ some s
    → store_list from (record f { tail = s.prev }) h ≡ some (tt, h1)
    → h1.list to ≡ some t
    → t.tail ≡ to_tail
    → is_active_tail to_tail h1 ≡ some (active, h1)
    → (if active then splice_behind start end_ to_tail else splice_in_front start end_ to to_tail)
        h1
      ≡ some (tt, h2)
    → h2.list to ≡ some t'
    → store_list to (record t' { tail = end_ }) h2 ≡ some (tt, h3)
    → close_from from behind h3 ≡ some (tt, h4)
    → index_nodes n start end_ h4 ≡ some (tt, h5)
    → move_node_thread_lists n start end_ to h5 ≡ some (tt, h6)
    → update_num_elements n start end_ from to h6 ≡ some (tt, h7)
    → h7.list from ≡ some f2
    → store_list from (record f2 { num_nodes = f2.num_nodes - n }) h7 ≡ some (tt, h8)
    → h8.list to ≡ some t2
    → store_list to (record t2 { num_nodes = t2.num_nodes + n }) h8 ≡ some (tt, h9)
    → assert_counted to h9 ≡ some (tt, h9)
    → assert_counted from h9 ≡ some (tt, h9)
    → transfer_n_nodes n from to h ≡ some (tt, h9)
unfolding transfer_n_nodes load load_list
transfer-runs n from to f t t' f2 t2 e s end_ behind start to_tail active h h1 h2 h3 h4 h5 h6 h7 h8
      h9 some_n at_from enough count_to count_from tail at_end behind_end backed at_start stored
      at_to to_end is_active spliced at_to' stored' closed ran_index ran_move ran_update at_from'
      stored2 at_to2 stored3 count_to' count_from' =
    rw
      (
        some_n, at_from, enough, count_to, count_from, tail, at_end, behind_end, backed, at_start,
        at_from, stored, at_to, to_end, is_active, spliced, at_to', stored', closed, ran_index,
        ran_move, ran_update, at_from', stored2, at_to2, stored3, count_to',
      )
      count_from'
