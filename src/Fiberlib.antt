-- ===== src/Fiberlib.antt =====
-- libfibers/fiberlib.c: the user's library over the device. The system calls come from the C library,
-- whose `ioctl` reports a failure of the kernel as -1.
pub mod Storage
use fibers.Prelude.{
  low_word, ℕ, zero, suc, ◌%◌, ◌-◌, ◌^◌, Bool, true, false, List, [], ◌∷◌, Option, none, some, ℤ,
  pos, negsuc, neg, is_neg, ltb, if◌then◌else◌,
}
use fibers.Kernel.{Kernel}
use fibers.Group.{Current, World, eagain}
use fibers.Device.{UserMemory, FibArgs, FlsArgs, Command, Answer, answer, faults, fibers_ioctl}

-- The C library's ioctl: -1 for an errno, else the kernel's result.
abbrev pub ioctl_result : ℤ → ℤ
ioctl_result (pos n) = pos n
ioctl_result (negsuc n) = if ltb n 4095 then negsuc 0 else negsuc n

-- What a function of the library returns with the new state; it exits the process where the device
-- cannot be opened or no stack is left, and does not return where the kernel faults.
pub data Returned : Type 0 where
  returned : ℤ → World → Returned
  exited : ℤ → Returned
  no_return : Returned

-- The result of `ioctl`, handed to the rest of the function.
abbrev pub after_ioctl : Answer → (ℤ → ℤ) → Returned
after_ioctl (answer r w _) f = returned (f (ioctl_result r)) w
after_ioctl faults f = no_return

-- `if (ret < 0) return -EAGAIN;`
abbrev pub or_again : ℤ → ℤ
or_again r = if is_neg r then neg eagain else r

-- The caller's memory as the library's functions use it: the struct that they pass is a local
-- variable, which the kernel can read, and `read_value` another, which it can write.
abbrev pub passing_fib : FibArgs → UserMemory
passing_fib a = record {
  access_ok = λ _ _. true;
  fib_args = λ _. some a;
  fls_args = λ _. none;
  fid = λ _. none;
  writable = λ _. true;
}

abbrev pub passing_fls : FlsArgs → UserMemory
passing_fls a = record {
  access_ok = λ _ _. true;
  fib_args = λ _. none;
  fls_args = λ _. some a;
  fid = λ _. none;
  writable = λ _. true;
}

abbrev pub passing_fid : ℤ → UserMemory
passing_fid j = record {
  access_ok = λ _ _. true;
  fib_args = λ _. none;
  fls_args = λ _. none;
  fid = λ _. some j;
  writable = λ _. true;
}

-- `args` is the address of the local variable, `opened` and `block` what `open` and `posix_memalign`
-- answer.
module _ (k : Kernel) (cur : Current) (args : ℕ) where
  unfoldable pub convert_thread_to_fiber : Bool → World → Returned
  convert_thread_to_fiber opened w =
      if opened
      then after_ioctl
          (fibers_ioctl k (passing_fid (pos 0)) cur Command.convert_thread_to_fiber 0 w) (λ r. r)
      else exited (neg 2)

  unfoldable pub create_fiber : Option ℕ → ℕ → ℕ → ℕ → World → Returned
  create_fiber none stack_size entry_point params w = exited (neg 125)
  create_fiber (some block) stack_size entry_point params w =
      after_ioctl
        (fibers_ioctl k
          (passing_fib (record {
            stack_base = block;
            stack_size = stack_size;
            entry_point = entry_point;
            params = params;
          }))
          cur Command.create_fiber args w)
        (λ r. r)

  unfoldable pub switch_to_fiber : ℕ → World → Returned
  switch_to_fiber fib w =
      after_ioctl (fibers_ioctl k (passing_fid (low_word fib)) cur Command.switch_to_fiber args w)
        or_again

  unfoldable pub fls_alloc : World → Returned
  fls_alloc w =
      after_ioctl (fibers_ioctl k (passing_fid (pos 0)) cur Command.fls_alloc 0 w) or_again

  -- The answer of the kernel, with what it wrote to `read_value`.
  abbrev pub read_back : Answer → Returned
  read_back faults = no_return
  read_back (answer r w []) = returned (if is_neg (ioctl_result r) then neg eagain else pos 0) w
  read_back (answer r w ((_, read_value) ∷ _)) =
      returned (if is_neg (ioctl_result r) then neg eagain else read_value) w

  unfoldable pub fls_get_value : ℕ → ℤ → World → Returned
  fls_get_value read_value idx w = read_back (
      fibers_ioctl k (passing_fls (record { idx = idx; value = pos read_value })) cur
        Command.fls_get_value args w)

  unfoldable pub fls_free : ℤ → World → Returned
  fls_free idx w =
      after_ioctl
        (fibers_ioctl k (passing_fls (record { idx = idx; value = pos 0 })) cur Command.fls_free
          args w)
        or_again

  unfoldable pub fls_set_value : ℤ → ℤ → World → Returned
  fls_set_value idx value w =
      after_ioctl
        (fibers_ioctl k (passing_fls (record { idx = idx; value = value })) cur
          Command.fls_set_value args w)
        or_again
