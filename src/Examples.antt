-- ===== src/Examples.antt =====
-- A machine on which the tests run, and a run of the device on it: one task converts itself, makes a
-- second fiber, switches to it and back, and uses its storage.
pub mod Runs
pub mod Switching
pub mod Storage
pub mod Reading
pub mod Testbed
pub mod Ordering
pub mod Jumps
pub mod Threads
pub mod Interleavings
pub mod Drivers
pub mod Counters
pub mod Probing
use fibers.Prelude.{
  ℕ, zero, suc, ◌+◌, ◌%◌, ℕ_discrete, ◌≤◌, ◌<◌, ◌≡◌, refl, Bool, true, false, List, [], none, some,
  ℤ, pos, negsuc, arith, Bool-cases, inl, inr,
}
use fibers.Kernel.{Kernel}
use fibers.Fiber.{PtRegs, Context, Fls, Info, Fiber, Thread, ThreadGroup}
use fibers.Group.{Current, World}
use fibers.Device.{UserMemory, Answer, answer, faults}

-- The first index from `i` on whose bit is clear, among `n` bits.
abbrev pub scan : (ℕ → Bool) → ℕ → ℕ → ℕ
scan bmp zero i = i
scan bmp (suc n) i = elim (bmp i) [ true ↦ scan bmp n (suc i) | false ↦ i ]

scan-le : (bmp : ℕ → Bool) (n i : ℕ) → (i ≤ scan bmp n i) × (scan bmp n i ≤ i + n)
scan-le bmp zero i = (ground arith, ground arith)
scan-le bmp (suc n) i = elim (Bool-cases (bmp i)) [
  | inl e ↦ let (low, high) = scan-le bmp n (suc i) in (ground arith, ground arith)
  | inr e ↦ (ground arith, ground arith)
]

scan-clear : (bmp : ℕ → Bool) (n i : ℕ) → scan bmp n i < i + n → bmp (scan bmp n i) ≡ false
scan-clear bmp zero i h = ground arith
scan-clear bmp (suc n) i h = elim (Bool-cases (bmp i)) [
  | inl e ↦
      let rest : scan bmp n (suc i) < suc i + n = ground arith in
      ground (arith, scan-clear bmp n (suc i) rest)
  | inr e ↦ ground arith
]

scan-least : (bmp : ℕ → Bool) (n i j : ℕ) → i ≤ j → j < scan bmp n i → bmp j ≡ true
scan-least bmp zero i j low h = ground arith
scan-least bmp (suc n) i j low h = elim (Bool-cases (bmp i)) [
  | inr e ↦ ground arith
  | inl e ↦ elim (ℕ_discrete i j) [
    | yes p ↦ ground arith
    | no p ↦ scan-least bmp n (suc i) j (ground arith) (ground arith)
  ]
]

module _ (bmp : ℕ → Bool) (size : ℕ) where
  pub first_le : scan bmp size 0 ≤ size
  first_le = omega (arith, (scan-le bmp size 0).1)

  pub first_clear : scan bmp size 0 < size → bmp (scan bmp size 0) ≡ false
  first_clear h = scan-clear bmp size 0 (omega arith)

  pub first_least : (i : ℕ) → i < scan bmp size 0 → bmp i ≡ true
  first_least i h = scan-least bmp size 0 i (omega arith) h

-- The hash of a key: two buckets.
abbrev pub parity : ℤ → ℕ
parity (pos n) = n % 2
parity (negsuc n) = 0

-- A kernel in which freed memory reads as before, or does not.
abbrev pub kernel : Bool → Kernel
kernel readable = record {
  bucket = parity;
  find_first_zero_bit = λ bmp size. scan bmp size 0;
  first_zero_le = first_le;
  first_zero_clear = first_clear;
  first_zero_least = first_least;
  freed_readable = readable;
}

abbrev pub registers : ℕ → Context
registers n = record { regs = record { ip = n; di = n; sp = n; bp = n; others = n }; fpu = n }

abbrev pub fresh_fls : Fls
fresh_fls = record { slots = λ i. pos 0; bmp = λ i. true }

-- What `kmalloc` returns: memory full of old data.
abbrev pub dirty : Fiber
dirty = record {
  fid = pos 77;
  flock = true;
  stack_base = 1;
  stack_limit = 2;
  guaranteed_stack_bytes = 3;
  context = registers 99;
  fls = fresh_fls;
  info = record {
    name = [];
    parent = pos 9;
    state = pos 9;
    successful_activations = 9;
    failed_activations = pos 9;
    last_activation_time = 9;
    total_running_time = 9;
    entry_point = 9;
    param = 9;
  };
}

-- A task of process 4, with memory to spare, and task 5.
abbrev pub task : ℤ → Current
task pid = record {
  tgid = pos 4;
  pid = pid;
  utime = 1000;
  group_block = some (record { tgid = pos 0; fid_count = pos 0; threads = []; fibers = [] });
  thread_block = some (record { pid = pos 0; current_fid = pos 0 });
  fiber_block = some dirty;
}

abbrev pub me : Current
me = task (pos 5)

-- A caller that passes one identifier, one pair of index and value, and one creation request.
abbrev pub memory : ℤ → ℤ → ℤ → UserMemory
memory fid idx value = record {
  access_ok = λ a n. true;
  fib_args =
      λ a. some (record { stack_base = 8192; stack_size = 4096; entry_point = 300; params = 7 });
  fls_args = λ a. some (record { idx = idx; value = value });
  fid = λ a. some fid;
  writable = λ a. true;
}

abbrev pub linux : Kernel
linux = kernel true

abbrev pub loaded_world : World
loaded_world = record { groups = []; cpu = λ p. registers 10 }

-- The state after a call, or the loaded module where the call faults.
abbrev pub state_after : Answer → World
state_after (answer r w out) = w
state_after faults = loaded_world
