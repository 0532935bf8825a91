-- ===== src/Run/Visit.antt =====
-- What a run of a list of kernels on a set amounts to: the elements of each thread, in order.
use puma.Base.{
  ℕ, zero, suc, ◌+◌, ◌≤◌, ◌≡◌, refl, ◌∙◌, some, List, [], ◌∷◌, length, set, get_elem?, get_or,
  replicate,
}
use puma.Memory.{Ptr, null, Node, ThreadList, Memory, M, pure, ◌>>=◌, ◌>>◌}
use puma.Util.{Config, get_element}
use puma.Node.Chain.{Cells, first_of, Linked, total_elements}
use puma.Kernel.OnNode.{visit}
use puma.Kernel.Thread.{AllReady, Stops, visit_all}
use puma.Set.{PumaSet, get_list_for_thread, execute_on_thread_pool}
use puma.ExtraData.{ExtraKernelData}
use puma.Run.{PumaKernel}

-- The same nodes and thread lists.
pub record Same (g h : Memory) : Type 0 where
  pub nodes : h.node ≡ g.node
  pub lists : h.list ≡ g.list

pub Same-trans : {f g h : Memory} → Same f g → Same g h → Same f h
Same-trans a b = record { nodes = b.nodes ∙ a.nodes; lists = b.lists ∙ a.lists }

-- A command that does not fault and leaves nodes and thread lists alone.
abbrev pub Keeps : {A : Type 0} → M A → Type 0
Keeps {A} m = (h : Memory) → (a : A) × (h' : Memory) × (m h ≡ some (a, h')) × Same h h'

pub Keeps-bind :
    {A B : Type 0} (m : M A) (k : A → M B) → Keeps m → ((a : A) → Keeps (k a)) → Keeps (m >>= k)
Keeps-bind m k keeps then_ h =
    let (a, h1, ran, same) = keeps h in
    let (b, h2, ran', same') = then_ a h1 in (b, h2, rw ran ran', Same-trans same same')

pub Keeps-pure : {A : Type 0} (a : A) → Keeps (pure a)
Keeps-pure a h = (a, h, refl, record { nodes = refl; lists = refl })

module _ (kernel : Ptr → M (Unit {0})) (keeps : (e : Ptr) → Keeps (kernel e)) where
  pub visit-Keeps : (n : Node) (k i : ℕ) → Keeps (visit kernel n k i)
  unfolding visit
  visit-Keeps n zero i = Keeps-pure tt
  visit-Keeps n (suc k) i =
      Keeps-bind (kernel (get_element n i)) (λ _. visit kernel n k (i + 1))
        (keeps (get_element n i)) λ _. visit-Keeps n k (i + 1)

  pub visit_all-Keeps : (cells : Cells) → Keeps (visit_all kernel cells)
  unfolding visit_all
  visit_all-Keeps [] = Keeps-pure tt
  visit_all-Keeps ((p, n) ∷ rest) =
      Keeps-bind (visit kernel n n.num_elements 0) (λ _. visit_all kernel rest)
        (visit-Keeps n n.num_elements 0) λ _. visit_all-Keeps rest

-- What a run means: on each thread in turn the extra data are made, each kernel is run on every element
-- of the thread's nodes, and the data are reduced; then all are reduced, and then destroyed.
unfoldable pub visit_kernels : List PumaKernel → (extra_data : Ptr) → Cells → M (Unit {0})
visit_kernels [] x cells = pure tt
visit_kernels (kernel ∷ rest) x cells =
    visit_all (λ e. kernel e x) cells >> visit_kernels rest x cells

unfoldable pub visit_thread :
    List PumaKernel → ExtraKernelData → (ℕ → Cells) → (thread : ℕ) → List Ptr → M (List Ptr)
visit_thread kernels d cells thread extra_data = do
  x ← d.extra_data_constructor d.constructor_data
  visit_kernels kernels x (cells thread)
  d.extra_data_thread_reduce x
  pure (set extra_data thread x)

unfoldable pub destroy_threads : ExtraKernelData → List Ptr → (order : List ℕ) → M (Unit {0})
destroy_threads d xs [] = pure tt
destroy_threads d xs (thread ∷ rest) =
    d.extra_data_destructor (get_or xs thread null) >> destroy_threads d xs rest

unfoldable pub visit_set :
    List PumaKernel
    → ExtraKernelData
    → (ℕ → Cells)
    → (num_threads : ℕ) → (order cleanup_order : List ℕ) → M (Unit {0})
unfolding visit_thread destroy_threads execute_on_thread_pool
visit_set kernels d cells num_threads order cleanup_order = do
  xs ← execute_on_thread_pool (visit_thread kernels d cells) order (replicate num_threads null)
  d.extra_data_reduce d.ret_value xs
  destroy_threads d xs cleanup_order

-- The list of a thread, with the chain of its nodes, all ready for kernels.
pub record ThreadReady (c : Config) (s : PumaSet) (h : Memory) (thread : ℕ) (cells : Cells)
    : Type 0 where
  pub list : Ptr
  pub l : ThreadList
  pub after : Ptr
  pub at_list : (g : Memory) → get_list_for_thread s thread g ≡ some (list, g)
  pub in_list : h.list list ≡ some l
  pub domain : l.numa_domain ≡ 0
  pub linked : Linked h.node null cells after
  pub head : l.head ≡ first_of cells after
  pub ready : AllReady c cells
  pub stops : Stops h.node after
  pub few : length cells ≤ l.num_nodes
  pub all : l.num_elements ≡ total_elements cells

-- Functions of the user that do not fault, and allocate and free no element.
pub record UserKeeps (kernels : List PumaKernel) (d : ExtraKernelData) : Type 0 where
  pub kernel : (k : ℕ) (f : PumaKernel) → get_elem? kernels k ≡ some f → (e x : Ptr) → Keeps (f e x)
  pub make : (x : Ptr) → Keeps (d.extra_data_constructor x)
  pub thread_reduce : (x : Ptr) → Keeps (d.extra_data_thread_reduce x)
  pub reduce : (r : Ptr) (xs : List Ptr) → Keeps (d.extra_data_reduce r xs)
  pub destroy : (x : Ptr) → Keeps (d.extra_data_destructor x)
