-- ===== src/Run.antt =====
-- src/pumakernel.c: a list of kernels is run on every thread of a set, each with its extra data.
pub mod Visit
pub mod Whole
use puma.Base.{
  ℕ, zero, suc, ◌+◌, Bool, true, false, Option, none, some, List, [], ◌∷◌, ◌==◌, if◌then◌else◌,
  assert, get_elem?, set, replicate,
}
use puma.Memory.{Ptr, null, Memory, M, pure, ◌>>=◌, ◌>>◌, lift, load_list}
use puma.Util.{Config}
use puma.Kernel.{run_kernel_thread}
use puma.Set.{PumaSet, get_list_for_thread, execute_on_thread_pool}
use puma.ExtraData.{ExtraKernelData, empty_kernel_data, if_given}
use puma.Balance.Auto.{balance_thread_load}

-- `pumaKernel`: a function of an element and the extra data.
abbrev pub PumaKernel : Type 0
PumaKernel = (element extra_data : Ptr) → M (Unit {0})

-- `share` is that of `_autobalanceThreadLoad`.
module _ (c : Config) (share : Ptr → ℕ → ℕ) where
  -- `_runKernelThread` on thread `thread`; `_getCurrentNumaDomain` is 0.
  unfoldable pub run_kernel_current : PumaSet → PumaKernel → (extra_data : Ptr) → (thread : ℕ) → M ℕ
  unfolding get_list_for_thread load_list
  run_kernel_current s kernel extra_data thread = do
    list ← get_list_for_thread s thread
    l ← load_list list
    lift (assert (l.numa_domain == 0))
    run_kernel_thread c (λ e. kernel e extra_data) list

  unfoldable pub run_kernels :
      PumaSet → List PumaKernel → (extra_data : Ptr) → (thread : ℕ) → M (Unit {0})
  run_kernels s [] extra_data thread = pure tt
  run_kernels s (kernel ∷ rest) extra_data thread = do
    _ ← run_kernel_current s kernel extra_data thread
    run_kernels s rest extra_data thread

  -- `runKernelCurrentThread`.
  unfoldable pub run_kernel_current_thread :
      PumaSet → PumaKernel → ExtraKernelData → (thread : ℕ) → M (Unit {0})
  unfolding balance_thread_load run_kernel_current
  run_kernel_current_thread s kernel d thread = do
    balance_thread_load share s
    extra_data ← d.extra_data_constructor d.constructor_data
    _ ← run_kernel_current s kernel extra_data thread
    d.extra_data_thread_reduce extra_data
    d.extra_data_destructor extra_data

  -- `_runKernelWorker`; the workers write to the array `extraData`, each at its thread's number.
  unfoldable pub run_kernel_worker :
      PumaSet → List PumaKernel → ExtraKernelData → (thread : ℕ) → List Ptr → M (List Ptr)
  unfolding run_kernels
  run_kernel_worker s kernels d thread extra_data = do
    x ← d.extra_data_constructor d.constructor_data
    _ ← lift (get_elem? extra_data thread)
    run_kernels s kernels x thread
    d.extra_data_thread_reduce x
    pure (set extra_data thread x)

  -- `_cleanupKernelWorker`.
  unfoldable pub cleanup_kernel_worker : ExtraKernelData → (thread : ℕ) → List Ptr → M (List Ptr)
  cleanup_kernel_worker d thread extra_data = do
    x ← lift (get_elem? extra_data thread)
    d.extra_data_destructor x
    pure extra_data

  -- `runKernelList`. `order` and `cleanup_order` are those in which the threads of the pool run the two
  -- workers. What the array holds at first is not known, and is `null` here.
  unfoldable pub run_kernel_list :
      PumaSet
      → List PumaKernel
      → Option ExtraKernelData
      → (order cleanup_order : List ℕ) → M (Unit {0})
  unfolding balance_thread_load execute_on_thread_pool run_kernel_worker cleanup_kernel_worker
  run_kernel_list s kernels details order cleanup_order = do
    balance_thread_load share s
    let d = if_given details empty_kernel_data
    extra_data ←
        execute_on_thread_pool (run_kernel_worker s kernels d) order (replicate s.num_threads null)
    d.extra_data_reduce d.ret_value extra_data
    _ ← execute_on_thread_pool (cleanup_kernel_worker d) cleanup_order extra_data
    pure tt

  -- `runKernel`.
  unfoldable pub run_kernel :
      PumaSet → PumaKernel → Option ExtraKernelData → (order cleanup_order : List ℕ) → M (Unit {0})
  unfolding run_kernel_list
  run_kernel s kernel details order cleanup_order =
      run_kernel_list s (kernel ∷ []) details order cleanup_order
