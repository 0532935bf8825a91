-- ===== src/Kernel/Thread.antt =====
-- `_runKernelThread` on a list of compact nodes visits every element of the list.
use puma.Base.{
  ℕ, zero, suc, ◌+◌, ◌≤◌, ◌<◌, ◌^◌, ◌≡◌, refl, sym, ap, ◌∙◌, arith, true, false, some, Option, [],
  ◌∷◌, length, ◌==◌, ltb, Bool-cases, dec_lt, ◌⊎◌, inl, inr,
}
use mathlib.Core.Path.{subst}
use puma.Memory.{Ptr, null, Node, ThreadList, Memory, M, pure, ◌>>◌, load}
use puma.Util.{Config, get_element}
use puma.Node.Invariant.{IsNode}
use puma.Node.Filled.{IsCompact}
use puma.Node.Chain.{Cells, first_of, Linked, total_elements}
use puma.Kernel.{run_kernel_on_node, run_nodes_loop, run_kernel_thread}
use puma.Kernel.OnNode.{visit, KeepsNode, run_kernel_on_node-IsCompact}

-- An active node as a clean-up leaves it, with no clean-up due.
pub record IsReady (c : Config) (p : Ptr) (n : Node) : Type 0 where
  pub node : IsNode c p n
  pub compact : IsCompact n
  pub active : n.active ≡ true
  pub clean : n.dirty ≡ false
  pub small : n.capacity < 2 ^ 63

abbrev pub AllReady : Config → Cells → Type 0
AllReady c [] = Unit
AllReady c ((p, n) ∷ rest) = IsReady c p n × AllReady c rest

-- The kernel on the elements of each node in turn.
unfoldable pub visit_all : (Ptr → M (Unit {0})) → Cells → M (Unit {0})
visit_all kernel [] = pure tt
visit_all kernel ((p, n) ∷ rest) = visit kernel n n.num_elements 0 >> visit_all kernel rest

-- A kernel that does not fault, and allocates and frees no element.
abbrev pub KeepsNodes : (Ptr → M (Unit {0})) → Type 0
KeepsNodes kernel =
    (e : Ptr) (h : Memory) → (h' : Memory) × (kernel e h ≡ some (tt, h')) × (h'.node ≡ h.node)

-- A pointer at which the loop can stop.
abbrev pub Stops : (Ptr → Option Node) → Ptr → Type 0
Stops m after =
    ((after == null) ≡ true) ⊎ (((after == null) ≡ false) × ((s : Node) × (m after ≡ some s)))

module _ (kernel : Ptr → M (Unit {0})) (keeps : KeepsNodes kernel) where
  visit-KeepsNodes :
      (n : Node) (k i : ℕ) (h : Memory)
      → (h' : Memory) × (visit kernel n k i h ≡ some (tt, h')) × (h'.node ≡ h.node)
  unfolding visit
  visit-KeepsNodes n zero i h = (h, refl, refl)
  visit-KeepsNodes n (suc k) i h =
      let (h1, ran, same) = keeps (get_element n i) h in
      let (h2, rest, same') = visit-KeepsNodes n k (i + 1) h1 in (h2, rw ran rest, same' ∙ same)

  keeps_node : (p : Ptr) (n : Node) → KeepsNode kernel p n
  keeps_node p n e h at =
      let (h', ran, same) = keeps e h in (h', ran, ap (λ (m : Ptr → Option Node). m p) same ∙ at)

  visit_all-none :
      (cells : Cells) (h : Memory)
      → total_elements cells ≡ 0
      → visit_all kernel cells h ≡ some (tt, h)
  unfolding visit_all visit
  visit_all-none [] h e = refl
  visit_all-none ((p, n) ∷ rest) h e =
      let here : n.num_elements ≡ 0 = omega arith in rw here (visit_all-none rest h (omega arith))

  module _ (c : Config) (list after : Ptr) where
    one_round :
        (p next : Ptr) (n : Node) (fuel done more total : ℕ) (h h1 h3 : Memory)
        → h.node p ≡ some n
        → (p == null) ≡ false
        → n.active ≡ true
        → n.dirty ≡ false
        → ltb done total ≡ true
        → run_kernel_on_node kernel p done total h ≡ some (more, h1)
        → h1.node p ≡ some n
        → n.next ≡ next
        → run_nodes_loop c kernel list fuel next more total h1 ≡ some (total, h3)
        → run_nodes_loop c kernel list (suc fuel) p done total h ≡ some (total, h3)
    unfolding run_nodes_loop load
    one_round p next n fuel done more total h h1 h3 at_p live active clean is_more ran still forward
          went =
        rw (live, at_p, active, is_more, clean, ran, still, forward) went

    run_nodes_loop-visit_all :
        (cells : Cells) (before : Ptr) (fuel done total : ℕ) (h : Memory)
        → Linked h.node before cells after
        → AllReady c cells
        → Stops h.node after
        → length cells < fuel
        → done + total_elements cells ≡ total
        → (h' : Memory) × (visit_all kernel cells h ≡ some (tt, h'))
          × (run_nodes_loop c kernel list fuel (first_of cells after) done total h
              ≡ some (total, h'))
    unfolding run_nodes_loop visit_all load
    run_nodes_loop-visit_all cells before zero done total h linked ready stops enough e =
        absurd (omega arith)
    run_nodes_loop-visit_all [] before (suc fuel) done total h linked ready (inl stop) enough e =
        let d : done ≡ total = omega arith in (h, refl, rw (stop, d))
    run_nodes_loop-visit_all [] before (suc fuel) done total h linked ready (inr (live, (s, at)))
          enough e =
        let d : done ≡ total = omega arith in
        let all : ltb done total ≡ false = ground arith in
        elim (Bool-cases s.active) [
          | inl on ↦ (h, refl, rw (live, at, on, all) (ap (λ x. some (x, h)) d))
          | inr off ↦ (h, refl, rw (live, at, off) (ap (λ x. some (x, h)) d))
        ]
    run_nodes_loop-visit_all ((p, n) ∷ rest) before (suc fuel) done total h linked ready stops
          enough e =
        let (at_p, live, back, forward, others) = linked in
        let now = ready.0 in
        elim (dec_lt done total) [
          | yes more ↦
              let is_more : ltb done total ≡ true = ground arith in
              let (h1, visited, ran) =
                run_kernel_on_node-IsCompact c kernel p n done total h now.node now.small
                  now.compact (keeps_node p n) at_p more in
              let (h2, visited', same) = visit-KeepsNodes n n.num_elements 0 h in
              let e12 : h2 ≡ h1 = cc in
              let same1 : h1.node ≡ h.node = ap (λ (x : Memory). x.node) (sym e12) ∙ same in
              let (h3, all, went) =
                run_nodes_loop-visit_all rest p fuel (done + n.num_elements) total h1
                  (subst (λ (m : Ptr → Option Node). Linked m p rest after) (sym same1) others)
                  ready.1 (subst (λ (m : Ptr → Option Node). Stops m after) (sym same1) stops)
                  (omega arith) (omega arith) in
              (
                h3,
                rw visited all,
                one_round p (first_of rest after) n fuel done (done + n.num_elements) total h h1 h3
                    at_p live now.active now.clean is_more ran (ap (λ m. m p) same1 ∙ at_p) forward
                    went,
              )
          | no none_left ↦
              let d : done ≡ total = omega arith in
              let is_done : ltb done total ≡ false = ground arith in
              (
                h,
                visit_all-none ((p, n) ∷ rest) h (omega arith),
                rw (live, at_p, now.active, is_done) (ap (λ x. some (x, h)) d),
              )
        ]

-- On a list whose nodes, up to a `next` of NULL or of some further node, are active, compact and
-- not dirty, which counts the elements of all of them and at least as many nodes: with a kernel that
-- does not fault and neither allocates nor frees, `_runKernelThread` ends within its fuel, does what
-- the kernel does on every element of every node, once each and in order, and counts them all.
pub run_kernel_thread-visit_all :
    (c : Config) (kernel : Ptr → M (Unit {0})) (list after : Ptr) (l : ThreadList) (cells : Cells)
    → (h : Memory) → KeepsNodes kernel
    → h.list list ≡ some l
    → Linked h.node null cells after
    → l.head ≡ first_of cells after
    → AllReady c cells
    → Stops h.node after
    → length cells ≤ l.num_nodes
    → l.num_elements ≡ total_elements cells
    → (h' : Memory) × (visit_all kernel cells h ≡ some (tt, h'))
      × (run_kernel_thread c kernel list h ≡ some (l.num_elements, h'))
unfolding run_kernel_thread
run_kernel_thread-visit_all c kernel list after l cells h keeps in_list linked head ready stops few
      all =
    let (h', visited, ran) =
      run_nodes_loop-visit_all kernel keeps c list after cells null (l.num_nodes + 2) 0
        l.num_elements h linked ready stops (omega arith) (omega arith) in
    (h', visited, rw (in_list, head) ran)
