-- ===== src/Examples/Jumps.antt =====
-- A jump back to where set_jmp was called (libfibers/testbed/src/jmp.S), from another stack.
use fibers.Prelude.{ℕ, ◌+◌, ◌≡◌, true, false, arith, update}
use fibers.Testbed.Ult.Jump.{Flags, Cpu, Machine, packed, set_jmp_call, long_jmp_code}
use fibers.Testbed.Ult.Jump.Resumes.{long_jmp-resumes}

abbrev carry : Flags
carry = record { status = 3; overflow = true }

abbrev cpu_at : ℕ → ℕ → Flags → Cpu
cpu_at rsp n flags = record {
  rax = n;
  rdx = n + 1;
  rcx = n + 2;
  rbx = n + 3;
  rsp = rsp;
  rbp = n + 4;
  rsi = n + 5;
  rdi = n + 6;
  r8 = n + 7;
  r9 = n + 8;
  r10 = n + 9;
  r11 = n + 10;
  r12 = n + 11;
  r13 = n + 12;
  r14 = n + 13;
  r15 = n + 14;
  rip = n + 15;
  flags = flags;
  others = n;
}

abbrev caller : Machine
caller = record { cpu = cpu_at 8000 100 carry; memory = λ a. a }

abbrev later : Machine
later = record { cpu = cpu_at 16000 500 (record { status = 2; overflow = false }); memory = λ a. 0 }

long_jmp-resumes_example :
    ((set_jmp_call 4096 64 carry caller).1.cpu ≡ record (caller.cpu) {
      rax = 0;
      rdx = packed 100 carry;
      rdi = 4096;
      r11 = 64;
      rsp = 7992;
      rip = 64;
      flags = carry;
    })
    × ((long_jmp_code (set_jmp_call 4096 64 carry caller).0 1 later).cpu
        ≡ record (caller.cpu) { rax = 1; rsp = 7992; rip = 64 })
    × ((long_jmp_code (set_jmp_call 4096 64 carry caller).0 1 later).memory
        ≡ update (update (λ a. 0) 7984 64) 7976 1)
long_jmp-resumes_example = long_jmp-resumes 4096 64 carry caller (omega arith) 1 later (omega arith)
