-- ===== src/Testbed/Ult/Jump/Resumes.antt =====
-- A jump with what set_jmp has stored (libfibers/testbed/src/jmp.S).
use fibers.Prelude.{inl, inr, ℕ, ◌+◌, ◌-◌, ◌^◌, ◌≤◌, ◌<◌, ◌≡◌, refl, arith, update, Bool-cases}
use fibers.Testbed.Ult.Jump.{
  Flags, Machine, packed, unpacked, set_jmp_code, set_jmp_call, long_jmp_code,
}

packed-unpacked : (rax : ℕ) (f : Flags) → f.status < 2 ^ 8 → unpacked (packed rax f) ≡ f
packed-unpacked rax f small = elim (Bool-cases f.overflow) [
  | inl on ↦ ground (arith, on, small)
  | inr off ↦ ground (arith, off, small)
]

module _ (env next : ℕ) (xorq : Flags) (m : Machine) (room : 40 ≤ m.cpu.rsp) where
  -- What _set_jmp stores is the processor at the macro, but for the stack, which is at the value behind
  -- the return address.
  saved : (set_jmp_call env next xorq m).0 ≡ record {
    rax = m.cpu.rax;
    rdx = m.cpu.rdx;
    rcx = m.cpu.rcx;
    rbx = m.cpu.rbx;
    rsp = m.cpu.rsp - 24;
    rbp = m.cpu.rbp;
    rsi = m.cpu.rsi;
    rdi = m.cpu.rdi;
    r8 = m.cpu.r8;
    r9 = m.cpu.r9;
    r10 = m.cpu.r10;
    r11 = m.cpu.r11;
    r12 = m.cpu.r12;
    r13 = m.cpu.r13;
    r14 = m.cpu.r14;
    r15 = m.cpu.r15;
    rip = next;
    flags = packed m.cpu.rax m.cpu.flags;
    others = m.cpu.others;
  }
  unfolding set_jmp_call set_jmp_code
  saved = ground (arith, room)

  -- The machine that _long_jmp leaves, with what set_jmp has saved.
  unfoldable pub back : ℕ → Machine → Machine
  back val m' = long_jmp_code (set_jmp_call env next xorq m).0 val m'

  back-cpu :
      (val : ℕ) (m' : Machine)
      → m.cpu.flags.status < 2 ^ 8
      → (back val m').cpu ≡ record (m.cpu) { rax = val; rsp = m.cpu.rsp - 8; rip = next }
  unfolding back long_jmp_code
  back-cpu val m' small =
      rw (saved, packed-unpacked m.cpu.rax m.cpu.flags small) (ground (arith, room))

  back-memory :
      (val : ℕ) (m' : Machine)
      → (back val m').memory ≡ update (update m'.memory (m.cpu.rsp - 16) next) (m.cpu.rsp - 24) val
  unfolding back long_jmp_code
  back-memory val m' =
      let behind : m.cpu.rsp - 24 + 8 ≡ m.cpu.rsp - 16 = omega (arith, room) in
      rw (saved, behind) refl

  -- With 40 bytes on the stack, and status flags that fit in a byte: set_jmp returns 0 behind its call,
  -- with the registers that a call keeps; and whatever the processor and the memory are later, long_jmp
  -- with what it stored returns `val` at the same place, with all registers, flags and the rest of the
  -- processor as they were at set_jmp, and writes only the return address and `val`, below that place.
  pub long_jmp-resumes :
      (val : ℕ) (m' : Machine)
      → m.cpu.flags.status < 2 ^ 8
      → ((set_jmp_call env next xorq m).1.cpu ≡ record (m.cpu) {
        rax = 0;
        rdx = packed m.cpu.rax m.cpu.flags;
        rdi = env;
        r11 = next;
        rsp = m.cpu.rsp - 8;
        rip = next;
        flags = xorq;
      })
        × ((long_jmp_code (set_jmp_call env next xorq m).0 val m').cpu
            ≡ record (m.cpu) { rax = val; rsp = m.cpu.rsp - 8; rip = next })
        × ((long_jmp_code (set_jmp_call env next xorq m).0 val m').memory
            ≡ update (update m'.memory (m.cpu.rsp - 16) next) (m.cpu.rsp - 24) val)
  unfolding back set_jmp_call set_jmp_code
  long_jmp-resumes val m' small = (ground (arith, room), back-cpu val m' small, back-memory val m')
