-- ===== src/Group.antt =====
-- The first part of fibers/fiber.c: the state of the module, the three lookups and the three
-- functions that allocate a struct and link it into its table.
pub mod Lookup
pub mod View
use fibers.Prelude.{ℕ, List, [], ◌∷◌, Option, none, some, ℤ, int_suc}
use fibers.Table.{possible, walk, modify}
use fibers.Kernel.{Kernel}
use fibers.Fiber.{Fiber, Thread, ThreadGroup, Context, no_fibers}
use fibers.Fiber.Macros.{prepare_generics, prepare_context, prepare_fls, prepare_info}

-- errno values, as positive numbers
abbrev pub eperm : ℕ
eperm = 1

abbrev pub esrch : ℕ
esrch = 3

abbrev pub eagain : ℕ
eagain = 11

abbrev pub eacces : ℕ
eacces = 13

abbrev pub eexist : ℕ
eexist = 17

abbrev pub einval : ℕ
einval = 22

-- The calling task: its ids, its user time, and what `kmalloc` answers it in this call, for each of
-- the structs: `none` where it fails, else a block with whatever the memory held before.
pub record Current : Type 0 where
  pub tgid : ℤ
  pub pid : ℤ
  pub utime : ℕ
  pub group_block : Option ThreadGroup
  pub thread_block : Option Thread
  pub fiber_block : Option Fiber

-- The hash table `groups`, and the user registers and FPU image of every task by its pid.
pub record World : Type 0 where
  pub groups : List ThreadGroup
  pub cpu : ℤ → Context

-- A system call returns, or it dereferences a pointer that is none.
pub data Outcome : Type 0 where
  ret : ℤ → World → Outcome
  oops : Outcome

-- The same inside one group, with the registers of the calling task.
pub data GroupOutcome : Type 0 where
  done : ℤ → ThreadGroup → Context → GroupOutcome
  crash : GroupOutcome

-- What a `generate_` function returns: a struct, or the errno cast to a pointer, which is not NULL
-- and which no caller tells from a struct. A read or write through it is an oops.
pub data Ptr {ℓ} (A : Type ℓ) : Type ℓ where
  valid : A → Ptr A
  err_ptr : ℕ → Ptr A

module _ (k : Kernel) where
  unfoldable pub get_group : ℤ → List ThreadGroup → Option ThreadGroup
  get_group tgid groups =
      walk ThreadGroup.tgid tgid (possible k.bucket ThreadGroup.tgid tgid groups)

  unfoldable pub get_thread : ℤ → ThreadGroup → Option Thread
  get_thread pid tg = walk Thread.pid pid (possible k.bucket Thread.pid pid tg.threads)

  unfoldable pub get_fiber : ℤ → ThreadGroup → Option Fiber
  get_fiber fid tg = walk Fiber.fid fid (possible k.bucket Fiber.fid fid tg.fibers)

-- A new group, and the table `groups` with it.
unfoldable pub generate_group :
    Option ThreadGroup → ℤ → List ThreadGroup → Ptr (ThreadGroup × List ThreadGroup)
generate_group none tgid groups = err_ptr esrch
generate_group (some block) tgid groups = valid (tg, tg ∷ groups)
  where
    tg : ThreadGroup
    tg = record block { tgid = tgid; fid_count = no_fibers; threads = []; fibers = [] }

-- A new thread, and the group with it.
unfoldable pub generate_thread : Option Thread → ThreadGroup → ℤ → Ptr (Thread × ThreadGroup)
generate_thread none tg pid = err_ptr esrch
generate_thread (some block) tg pid = valid (t, record tg { threads = t ∷ tg.threads })
  where
    t : Thread
    t = record block { pid = pid; current_fid = no_fibers }

-- The macros of generate_fiber over a block of memory; `fid` is the count after its increment.
unfoldable pub new_fiber : ℤ → Thread → Context → Fiber → Fiber
unfolding prepare_generics prepare_context prepare_fls prepare_info
new_fiber fid t now block =
    prepare_info t now (prepare_fls (prepare_context now (prepare_generics fid block)))

-- A new fiber, and the group with it.
unfoldable pub generate_fiber :
    Option Fiber → ThreadGroup → Thread → Context → Ptr (Fiber × ThreadGroup)
generate_fiber none tg t now = err_ptr esrch
generate_fiber (some block) tg t now =
    let fid = int_suc tg.fid_count in
    let f = new_fiber fid t now block in
    valid (f, record tg { fid_count = fid; fibers = f ∷ tg.fibers })

-- Writes through the pointers that the lookups return.
unfoldable pub write_fiber : ℤ → (Fiber → Fiber) → ThreadGroup → ThreadGroup
write_fiber fid g tg = record tg { fibers = modify Fiber.fid fid g tg.fibers }

unfoldable pub write_thread : ℤ → (Thread → Thread) → ThreadGroup → ThreadGroup
write_thread pid g tg = record tg { threads = modify Thread.pid pid g tg.threads }

unfoldable pub write_group : ThreadGroup → List ThreadGroup → List ThreadGroup
write_group tg groups = modify ThreadGroup.tgid tg.tgid (λ _. tg) groups
