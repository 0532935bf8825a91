-- ===== src/Kernel.antt =====
-- src/pumakernel.c: a kernel is run on the elements of a node and of a thread's list. A kernel with
-- its extra data is a command that takes the address of an element.
pub mod OnNode
pub mod Thread
use puma.Base.{ℕ, zero, suc, ◌+◌, ◌*◌, Bool, true, false, ◌&&◌, not, none, if◌then◌else◌, ltb, ◌==◌}
use puma.Word.{sub64}
use puma.Bitmask.{bitmask_get, mask_free}
use puma.Memory.{
  Ptr, null, Node, ThreadList, Memory, M, pure, ◌>>=◌, ◌>>◌, lift, when, load, load_list,
}
use puma.Util.{Config, get_element}
use puma.Node.{cleanup_node}

-- The test of the loop of `_runKernelOnNode`; `i - skippedElements` wraps round.
abbrev pub goes_on : (original capacity done num_elements i skipped : ℕ) → Bool
goes_on original capacity done num_elements i skipped =
    ltb (sub64 i skipped) original && ltb i capacity && ltb done num_elements

-- Its loop at `i`; a round on a free element counts it and stays at `i`.
pub run_kernel_loop :
    (Ptr → M (Unit {0})) → Ptr → (done num_elements original : ℕ) → ℕ → (i skipped : ℕ) → M ℕ
run_kernel_loop kernel node done num_elements original zero i skipped = λ _. none
run_kernel_loop kernel node done num_elements original (suc fuel) i skipped = do
  n ← load node
  if not (goes_on original n.capacity done num_elements i skipped) then pure i else do
    value ← lift (bitmask_get n.free_mask i)
    if value == mask_free
        then run_kernel_loop kernel node done num_elements original fuel i (skipped + 1)
        else (do
          kernel (get_element n i)
          run_kernel_loop kernel node done num_elements original fuel (i + 1) skipped)

-- `_runKernelOnNode`: returns the new `*elementsDone`. The loop goes forward at most `capacity`
-- times, and stays at most once more than that.
pub run_kernel_on_node : (Ptr → M (Unit {0})) → Ptr → (done num_elements : ℕ) → M ℕ
unfolding run_kernel_loop load
run_kernel_on_node kernel node done num_elements = do
  n ← load node
  i ← run_kernel_loop kernel node done num_elements n.num_elements (2 * n.capacity + 2) 0 0
  pure (done + i)

module _ (c : Config) where
  -- The loop of `_runKernelThread` at `current`, which a dirty node is compacted in. It runs on fuel.
  pub run_nodes_loop :
      (Ptr → M (Unit {0})) → (list : Ptr) → ℕ → (current : Ptr) (done total : ℕ) → M ℕ
  run_nodes_loop kernel list zero current done total = λ _. none
  run_nodes_loop kernel list (suc fuel) current done total =
      if current == null then pure done else do
        n ← load current
        if not (n.active && ltb done total) then pure done else do
          when n.dirty (cleanup_node c current list)
          done' ← run_kernel_on_node kernel current done total
          n' ← load current
          run_nodes_loop kernel list fuel n'.next done' total

  -- `_runKernelThread` on the list of the thread, less the run times that it keeps: at most
  -- `numNodes` nodes are active.
  pub run_kernel_thread : (Ptr → M (Unit {0})) → (list : Ptr) → M ℕ
  unfolding run_kernel_on_node run_nodes_loop load_list
  run_kernel_thread kernel list = do
    l ← load_list list
    run_nodes_loop kernel list (l.num_nodes + 2) l.head 0 l.num_elements
