-- ===== src/Fiber.antt =====
-- fibers/include/fiber.h: the structs, and the macros that fill them in. `unsigned long` wraps at
-- 2 ^ 64 and `int` at 2 ^ 31; addresses are numbers. What the model leaves out of a struct is named
-- beside it.
pub mod Macros
use fibers.Prelude.{ℕ, suc, ◌-◌, ◌^◌, List, Bool, ℤ, pos, negsuc}

abbrev pub no_fibers : ℤ
no_fibers = negsuc 0

abbrev pub fls_max_size : ℕ
fls_max_size = 4096

-- The registers of `struct pt_regs` that the code names; `others` stands for the rest of them.
pub record PtRegs : Type 0 where
  pub ip : ℕ
  pub di : ℕ
  pub sp : ℕ
  pub bp : ℕ
  pub others : ℕ

-- `context_t`; the FPU image is carried as one opaque number.
pub record Context : Type 0 where
  pub regs : PtRegs
  pub fpu : ℕ

-- `fls_t`: the array `data` and the bitmap `bmp`, by index.
pub record Fls : Type 0 where
  pub slots : ℕ → ℤ
  pub bmp : ℕ → Bool

-- `info_t`; `name` is a list of bytes, without the final zero.
pub record Info : Type 0 where
  pub name : List ℕ
  pub parent : ℤ
  pub state : ℤ
  pub successful_activations : ℕ
  pub failed_activations : ℤ
  pub last_activation_time : ℕ
  pub total_running_time : ℕ
  pub entry_point : ℕ
  pub param : ℕ

-- `flock` is true while the spinlock is held. The unused `flock_flags` and the list node are left
-- out.
pub record Fiber : Type 0 where
  pub fid : ℤ
  pub flock : Bool
  pub stack_base : ℕ
  pub stack_limit : ℕ
  pub guaranteed_stack_bytes : ℕ
  pub context : Context
  pub fls : Fls
  pub info : Info

pub record Thread : Type 0 where
  pub pid : ℤ
  pub current_fid : ℤ

-- The two tables hold their nodes newest first.
pub record ThreadGroup : Type 0 where
  pub tgid : ℤ
  pub fid_count : ℤ
  pub threads : List Thread
  pub fibers : List Fiber
