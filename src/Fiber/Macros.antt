-- ===== src/Fiber/Macros.antt =====
-- The macros of fibers/include/fiber.h. Each takes the struct as it was and writes the fields that
-- the macro writes.
use fibers.Prelude.{
  ℕ, zero, suc, ◌+◌, ◌-◌, ◌/◌, ◌%◌, ◌^◌, List, [], ◌∷◌, ◌++◌, false, ℤ, pos, negsuc, ltb,
  if◌then◌else◌,
}
use fibers.Fiber.{Fiber, Thread, Context}

abbrev pub ulong : ℕ → ℕ
ulong n = n % 2 ^ 64

-- The decimal digits of a number, most significant first; a number below 2 ^ 31 has at most ten.
unfoldable pub digits : ℕ → ℕ → List ℕ
digits zero n = []
digits (suc fuel) n =
    let more = digits fuel (n / 10) in
    if ltb n 10 then (48 + n) ∷ [] else more ++ (48 + n % 10) ∷ []

-- What `snprintf` writes for "%d".
unfoldable pub print_int : ℤ → List ℕ
unfolding digits
print_int (pos n) = digits 10 n
print_int (negsuc n) = 45 ∷ digits 10 (suc n)

-- PREPARE_GENERICS; the new `fid_count` of the group is `fid` too.
unfoldable pub prepare_generics : ℤ → Fiber → Fiber
prepare_generics fid_count f = record f {
  fid = fid_count;
  flock = false;
  stack_base = 0;
  stack_limit = 0;
  guaranteed_stack_bytes = 0;
}

-- PREPARE_CONTEXT, with the registers of `current` at the call.
unfoldable pub prepare_context : Context → Fiber → Fiber
prepare_context now f = record f { context = now }

-- PREPARE_FLS
unfoldable pub prepare_fls : Fiber → Fiber
prepare_fls f = record f { fls = record { slots = λ _. pos 0; bmp = λ _. false } }

-- PREPARE_INFO
unfoldable pub prepare_info : Thread → Context → Fiber → Fiber
prepare_info t now f = record f {
  info = record {
    name = print_int f.fid;
    parent = t.pid;
    state = pos 0;
    successful_activations = 0;
    failed_activations = pos 0;
    last_activation_time = 0;
    total_running_time = 0;
    entry_point = now.regs.ip;
    param = now.regs.di;
  };
}

-- ALLOC_STACK
unfoldable pub alloc_stack : ℕ → ℕ → Fiber → Fiber
alloc_stack base size f = record f {
  stack_base = base;
  stack_limit = ulong (base + size);
  guaranteed_stack_bytes = size;
}

-- ALLOC_CONTEXT
unfoldable pub alloc_context : ℕ → ℕ → Fiber → Fiber
alloc_context entry arg f = record f {
  context = record (f.context) {
    regs = record (f.context.regs) { ip = entry; di = arg; sp = top; bp = top };
  };
  info = record (f.info) { entry_point = entry; param = arg };
}
  where
    top : ℕ
    top = ulong (f.stack_limit + 2 ^ 64 - 8)

-- ACTIVATE_FIBER_FROM_THREAD, what it writes to the fiber
unfoldable pub activate_fiber : Thread → ℕ → Fiber → Fiber
activate_fiber t utime f = record f {
  info = record (f.info) {
    state = t.pid;
    successful_activations = ulong (f.info.successful_activations + 1);
    last_activation_time = utime;
  };
}

-- ... and to the thread
unfoldable pub activate_thread : ℤ → Thread → Thread
activate_thread fid t = record t { current_fid = fid }
