-- ===== src/ExtraData.antt =====
-- src/extradata.c and include/extradata.h: the extra data that a kernel run gives to its kernels. A
-- function of the user is a command on memory; a NULL pointer to a function is `none`.
use puma.Base.{Option, none, some, List, ◌==◌, if◌then◌else◌}
use puma.Memory.{Ptr, null, M, pure}

-- `struct pumaExtraKernelData`.
pub record ExtraKernelData : Type 0 where
  pub extra_data_constructor : (constructor_data : Ptr) → M Ptr
  pub constructor_data : Ptr
  pub extra_data_destructor : (data_ : Ptr) → M (Unit {0})
  pub extra_data_thread_reduce : (data_ : Ptr) → M (Unit {0})
  pub extra_data_reduce : (ret_value : Ptr) → (data_ : List Ptr) → M (Unit {0})
  pub ret_value : Ptr

-- `emptyKernelData`, with its functions that do nothing.
abbrev pub empty_kernel_data : ExtraKernelData
empty_kernel_data = record {
  extra_data_constructor = λ c. pure null;
  constructor_data = null;
  extra_data_destructor = λ d. pure tt;
  extra_data_thread_reduce = λ d. pure tt;
  extra_data_reduce = λ r d. pure tt;
  ret_value = null;
}

abbrev pub if_given {ℓ} : {A : Type ℓ} → Option A → A → A
if_given none x = x
if_given (some y) x = y

abbrev pub if_not_null : Ptr → Ptr → Ptr
if_not_null p x = if p == null then x else p

-- `initKernelData`.
unfoldable pub init_kernel_data :
    Option (Ptr → M Ptr)
    → Ptr
    → Option (Ptr → M (Unit {0}))
    → Option (Ptr → M (Unit {0}))
    → Option (Ptr → List Ptr → M (Unit {0}))
    → Ptr
    → ExtraKernelData
init_kernel_data make constructor_data destroy thread_reduce reduce ret_value = record {
  extra_data_constructor = if_given make empty_kernel_data.extra_data_constructor;
  constructor_data = if_not_null constructor_data empty_kernel_data.constructor_data;
  extra_data_destructor = if_given destroy empty_kernel_data.extra_data_destructor;
  extra_data_thread_reduce = if_given thread_reduce empty_kernel_data.extra_data_thread_reduce;
  extra_data_reduce = if_given reduce empty_kernel_data.extra_data_reduce;
  ret_value = if_not_null ret_value empty_kernel_data.ret_value;
}
