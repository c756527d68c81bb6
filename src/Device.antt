-- ===== src/Device.antt =====
-- fibers/device.c: the file operations of /dev/fibers. The memory of the calling process is a
-- parameter; of the results only what is written back to it is kept.
pub mod Reachable
pub mod Registration
pub mod Resumes
use fibers.Prelude.{
  ℕ, suc, ◌-◌, ◌^◌, Bool, true, false, Option, none, some, List, [], ◌∷◌, ℤ, pos, negsuc, neg,
  if◌then◌else◌,
}
use fibers.Kernel.{Kernel}
use fibers.Group.{Current, World, Outcome, ret, oops, eperm, einval}
use fibers.Calls.{do_convert_thread_to_fiber, do_create_fiber, do_switch_to_fiber}
use fibers.Calls.Fls.{do_fls_alloc, do_fls_get_value, do_fls_free, do_fls_set_value}
use fibers.Calls.Cleanup.{cleanup_process}

-- `fib_args_t`
pub record FibArgs : Type 0 where
  pub stack_base : ℕ
  pub stack_size : ℕ
  pub entry_point : ℕ
  pub params : ℕ

-- `fls_args_t`
pub record FlsArgs : Type 0 where
  pub idx : ℤ
  pub value : ℤ

-- The caller's memory: the check of a range, what stands at an address where the copy from it
-- succeeds, and whether eight bytes can be copied to an address.
pub record UserMemory : Type 0 where
  pub access_ok : ℕ → ℕ → Bool
  pub fib_args : ℕ → Option FibArgs
  pub fls_args : ℕ → Option FlsArgs
  pub fid : ℕ → Option ℤ
  pub writable : ℕ → Bool

-- The commands of fibers/include/device.h; `unknown` is any other number.
pub data Command : Type 0 where
  convert_thread_to_fiber create_fiber switch_to_fiber : Command
  fls_alloc fls_get_value fls_free fls_set_value unknown : Command

-- A call answers with its result, the new state, and what it wrote to the caller's memory; or the
-- kernel faults.
pub data Answer : Type 0 where
  answer : ℤ → World → List (ℕ × ℤ) → Answer
  faults : Answer

-- A `long long` as a pointer.
abbrev pub address : ℤ → ℕ
address (pos n) = n
address (negsuc n) = 2 ^ 64 - suc n

abbrev pub answered : Outcome → Answer
answered (ret r w) = answer r w []
answered oops = faults

-- The end of IOCTL_FLS_GET_VALUE: the value read is copied out, and the call reports success.
abbrev pub copied_out : UserMemory → ℕ → Outcome → Answer
copied_out u to oops = faults
copied_out u to (ret value w) =
    if u.writable to then answer (pos 0) w ((to, value) ∷ []) else answer (neg einval) w []

-- `access_ok` and `copy_from_user` of one argument struct.
abbrev pub fetch {ℓ} : {A : Type ℓ} → UserMemory → ℕ → ℕ → (ℕ → Option A) → Option A
fetch u args size read = if u.access_ok args size then read args else none

module _ (k : Kernel) (u : UserMemory) where
  unfoldable pub fibers_ioctl : Current → Command → ℕ → World → Answer
  fibers_ioctl cur convert_thread_to_fiber args w = answered (do_convert_thread_to_fiber k cur w)
  fibers_ioctl cur create_fiber args w = elim (fetch u args 32 u.fib_args) [
    | none ↦ answer (neg einval) w []
    | some a ↦ answered (do_create_fiber k cur a.stack_base a.stack_size a.entry_point a.params w)
  ]
  -- The result of the range check is overwritten: this case has no `break` behind it.
  fibers_ioctl cur switch_to_fiber args w = elim (u.fid args) [
    | none ↦ answer (neg einval) w []
    | some new_fid ↦ answered (do_switch_to_fiber k cur new_fid w)
  ]
  fibers_ioctl cur fls_alloc args w = answered (do_fls_alloc k cur w)
  fibers_ioctl cur fls_get_value args w = elim (fetch u args 16 u.fls_args) [
    | none ↦ answer (neg einval) w []
    | some a ↦ copied_out u (address a.value) (do_fls_get_value k cur a.idx w)
  ]
  fibers_ioctl cur fls_free args w = elim (fetch u args 16 u.fls_args) [
    | none ↦ answer (neg einval) w []
    | some a ↦ answered (do_fls_free k cur a.idx w)
  ]
  fibers_ioctl cur fls_set_value args w = elim (fetch u args 16 u.fls_args) [
    | none ↦ answer (neg einval) w []
    | some a ↦ answered (do_fls_set_value k cur a.idx a.value w)
  ]
  fibers_ioctl cur unknown args w = answer (neg eperm) w []

-- fibers_open: whether the module's use count could be raised.
unfoldable pub fibers_open : Bool → ℤ
fibers_open got = if got then pos 0 else neg 2

-- fibers_release: the process's fibers are freed; the result of the cleanup is dropped.
unfoldable pub fibers_release : Kernel → Current → World → Outcome
fibers_release k cur w = elim (cleanup_process k cur.tgid w) [
  | oops ↦ oops
  | ret _ w' ↦ ret (pos 0) w'
]

-- The placeholders for read and write: nothing is read, and all that is written is taken.
unfoldable pub fibers_dummy_read : ℕ → ℕ
fibers_dummy_read len = 0

unfoldable pub fibers_dummy_write : ℕ → ℕ
fibers_dummy_write len = len
