-- ===== src/Run/Whole.antt =====
-- `runKernelList` runs every kernel on every element of every thread's list.
use puma.Base.{
  ℕ, suc, ◌<◌, ◌≡◌, refl, sym, ap, ◌∙◌, arith, Option, some, List, [], ◌∷◌, length, set, get_elem?,
  get_or, get_elem?-get_or, length-set, length-replicate, replicate,
}
use mathlib.Core.Path.{subst}
use puma.Memory.{Ptr, null, Node, ThreadList, Memory, M, load_list}
use puma.Util.{Config}
use puma.Node.Chain.{Cells, Linked}
use puma.Kernel.Thread.{Stops, visit_all, KeepsNodes, run_kernel_thread-visit_all}
use puma.Set.{PumaSet, execute_on_thread_pool}
use puma.Set.Count.{AllBelow}
use puma.ExtraData.{ExtraKernelData, empty_kernel_data, if_given}
use puma.Balance.Auto.{balance_thread_load}
use puma.Run.{
  PumaKernel, run_kernel_current, run_kernels, run_kernel_worker, cleanup_kernel_worker,
  run_kernel_list,
}
use puma.Run.Visit.{
  Same, Same-trans, Keeps, visit_all-Keeps, visit_kernels, visit_thread, destroy_threads, visit_set,
  ThreadReady, UserKeeps,
}

module _ (c : Config) (share : Ptr → ℕ → ℕ) (s : PumaSet) (g : Memory) where
  current_visits :
      (kernel : PumaKernel) (x : Ptr) (thread : ℕ) (cells : Cells) (h : Memory)
      → ((e : Ptr) → Keeps (kernel e x))
      → ThreadReady c s g thread cells
      → Same g h
      → (n : ℕ) × (h' : Memory) × (visit_all (λ e. kernel e x) cells h ≡ some (tt, h'))
        × (run_kernel_current c share s kernel x thread h ≡ some (n, h'))
        × Same g h'
  unfolding run_kernel_current load_list
  current_visits kernel x thread cells h keeps ready same =
      let keeps_nodes : KeepsNodes (λ e. kernel e x) =
        λ e h. let (_, h', ran, kept) = keeps e h in (h', ran, kept.nodes) in
      let here : h.list ready.list ≡ some ready.l =
        ap (λ (f : Ptr → Option ThreadList). f ready.list) same.lists ∙ ready.in_list in
      let linked =
        subst (λ (m : Ptr → Option Node). Linked m null cells ready.after) (sym same.nodes)
          ready.linked in
      let stops =
        subst (λ (m : Ptr → Option Node). Stops m ready.after) (sym same.nodes) ready.stops in
      let (h', visited, ran) =
        run_kernel_thread-visit_all c (λ e. kernel e x) ready.list ready.after ready.l cells h
          keeps_nodes here linked ready.head ready.ready stops ready.few ready.all in
      let (_, h2, visited', kept) = visit_all-Keeps (λ e. kernel e x) keeps cells h in
      let e12 : h2 ≡ h' = cc in
      (
        ready.l.num_elements,
        h',
        visited,
        rw (ready.at_list h, here, ready.domain) ran,
        Same-trans same (subst (λ h3. Same h h3) e12 kept),
      )

  -- Two commands that end in the same result and memory, with the nodes and lists of `g`.
  abbrev Agree : {A : Type 0} → (A → Type 0) → M A → M A → Memory → Type 0
  Agree {A} P m m' h =
      (a : A) × (h' : Memory) × (m h ≡ some (a, h')) × (m' h ≡ some (a, h')) × Same g h' × P a

  kernels_visit :
      (kernels : List PumaKernel) (x : Ptr) (thread : ℕ) (cells : Cells) (h : Memory)
      → ((k : ℕ) (f : PumaKernel) → get_elem? kernels k ≡ some f → (e y : Ptr) → Keeps (f e y))
      → ThreadReady c s g thread cells
      → Same g h
      → Agree
          (λ _. Unit {0})
          (visit_kernels kernels x cells)
          (run_kernels c share s kernels x thread)
          h
  unfolding run_kernels visit_kernels
  kernels_visit [] x thread cells h keeps ready same = (tt, h, refl, refl, same, tt)
  kernels_visit (kernel ∷ rest) x thread cells h keeps ready same =
      let (n, h1, visited, ran, same1) =
        current_visits kernel x thread cells h (λ e. keeps 0 kernel refl e x) ready same in
      let (_, h2, visited2, ran2, same2, _) =
        kernels_visit rest x thread cells h1 (λ k f e. keeps (suc k) f e) ready same1 in
      (tt, h2, rw visited visited2, rw ran ran2, same2, tt)

  module _ (kernels : List PumaKernel) (d : ExtraKernelData) (cells : ℕ → Cells)
      (user : UserKeeps kernels d) (num_threads : ℕ)
      (ready : (t : ℕ) → t < num_threads → ThreadReady c s g t (cells t)) where
    worker_visits :
        (thread : ℕ) (xs : List Ptr) (h : Memory)
        → thread < num_threads
        → length xs ≡ num_threads
        → Same g h
        → Agree
            (λ ys. length ys ≡ num_threads)
            (visit_thread kernels d cells thread xs)
            (run_kernel_worker c share s kernels d thread xs)
            h
    unfolding run_kernel_worker visit_thread
    worker_visits thread xs h lt size same =
        let (x, h1, made, kept) = user.make d.constructor_data h in
        let (_, h2, visited, ran, same2, _) =
          kernels_visit kernels x thread (cells thread) h1 user.kernel (ready thread lt)
            (Same-trans same kept) in
        let (_, h3, reduced, kept3) = user.thread_reduce x h2 in
        let within = get_elem?-get_or xs thread null (omega arith) in
        (
          set xs thread x,
          h3,
          rw (made, visited, reduced),
          rw (made, within, ran, reduced),
          Same-trans same2 kept3,
          length-set xs thread x ∙ size,
        )

    pool_visits :
        (order : List ℕ) (xs : List Ptr) (h : Memory)
        → AllBelow num_threads order
        → length xs ≡ num_threads
        → Same g h
        → Agree
            (λ ys. length ys ≡ num_threads)
            (execute_on_thread_pool (visit_thread kernels d cells) order xs)
            (execute_on_thread_pool (run_kernel_worker c share s kernels d) order xs)
            h
    unfolding execute_on_thread_pool
    pool_visits [] xs h below size same = (xs, h, refl, refl, same, size)
    pool_visits (t ∷ rest) xs h below size same =
        let (ys, h1, visited, ran, same1, size1) = worker_visits t xs h below.0 size same in
        let (zs, h2, visited2, ran2, same2, size2) = pool_visits rest ys h1 below.1 size1 same1 in
        (zs, h2, rw visited visited2, rw ran ran2, same2, size2)

    pool_destroys :
        (order : List ℕ) (xs : List Ptr) (h : Memory)
        → AllBelow num_threads order
        → length xs ≡ num_threads
        → (h' : Memory) × (destroy_threads d xs order h ≡ some (tt, h'))
          × (execute_on_thread_pool (cleanup_kernel_worker c share d) order xs h ≡ some (xs, h'))
          × Same h h'
    unfolding execute_on_thread_pool cleanup_kernel_worker destroy_threads
    pool_destroys [] xs h below size = (h, refl, refl, record { nodes = refl; lists = refl })
    pool_destroys (t ∷ rest) xs h below size =
        let (_, h1, gone, kept) = user.destroy (get_or xs t null) h in
        let (h2, gone2, ran2, kept2) = pool_destroys rest xs h1 below.1 size in
        let within = get_elem?-get_or xs t null (omega arith) in
        (h2, rw gone gone2, rw (within, gone) ran2, Same-trans kept kept2)

-- After the balancing of the load, with the list of every thread ready for kernels, and functions of
-- the user that do not fault and neither allocate nor free: in whatever orders the threads of the
-- set run the two workers, `runKernelList` ends with no fault, and does what the reference does: each
-- thread of the order makes its extra data, every kernel in turn on every element of the thread's
-- nodes, and the thread's reduction; then the data of all threads are reduced, and destroyed. The
-- nodes and the lists are those after the balancing.
pub run_kernel_list-visit_set :
    (c : Config) (share : Ptr → ℕ → ℕ) (s : PumaSet) (h g : Memory)
    → (kernels : List PumaKernel) (details : Option ExtraKernelData) (cells : ℕ → Cells)
    → (order cleanup_order : List ℕ) → balance_thread_load share s h ≡ some (tt, g)
    → UserKeeps kernels (if_given details empty_kernel_data)
    → ((t : ℕ) → t < s.num_threads → ThreadReady c s g t (cells t))
    → AllBelow s.num_threads order
    → AllBelow s.num_threads cleanup_order
    → (h' : Memory) × (visit_set kernels
          (if_given details empty_kernel_data)
          cells
          s.num_threads
          order
          cleanup_order
          g
        ≡ some (tt, h'))
      × (run_kernel_list c share s kernels details order cleanup_order h ≡ some (tt, h'))
      × Same g h'
unfolding run_kernel_list visit_set
run_kernel_list-visit_set c share s h g kernels details cells order cleanup_order balanced user
      ready below below' =
    let d = if_given details empty_kernel_data in
    let (xs, h1, visited, ran, same, size) =
      pool_visits c share s g kernels d cells user s.num_threads ready order
        (replicate s.num_threads null) g below (length-replicate s.num_threads null)
        (record { nodes = refl; lists = refl }) in
    let (_, h2, reduced, kept) = user.reduce d.ret_value xs h1 in
    let (h3, gone, cleaned, kept') =
      pool_destroys c share s g kernels d cells user s.num_threads ready cleanup_order xs h2 below'
        size in
    (
      h3,
      rw (visited, reduced) gone,
      rw (balanced, ran, reduced, cleaned),
      Same-trans same (Same-trans kept kept'),
    )
