-- ===== src/Testbed/Ult/Jump.antt =====
-- libfibers/testbed/src/jmp.S and jmp.h: what ult.c saves of a processor and loads again, instruction by
-- instruction. The struct at `env` lies apart from the stacks. Memory is read and written in words of
-- eight bytes, at addresses that are multiples of 8.
pub mod Resumes
use fibers.Prelude.{
  inl, inr, ◌⊎◌, ℕ, zero, suc, ◌+◌, ◌-◌, ◌*◌, ◌/◌, ◌%◌, ◌^◌, ◌≤◌, ◌<◌, ◌≡◌, refl, sym, ap, ◌∙◌,
  Bool, true, false, ◌&&◌, not, arith, ltb, ◌==◌, if◌then◌else◌, update, ℕ_discrete, Bool-cases,
}

-- The flags that lahf and sahf move, as a byte, and the overflow flag.
pub record Flags : Type 0 where
  pub status : ℕ
  pub overflow : Bool

-- The processor; `others` is what fxsave stores.
pub record Cpu : Type 0 where
  pub rax : ℕ
  pub rdx : ℕ
  pub rcx : ℕ
  pub rbx : ℕ
  pub rsp : ℕ
  pub rbp : ℕ
  pub rsi : ℕ
  pub rdi : ℕ
  pub r8 : ℕ
  pub r9 : ℕ
  pub r10 : ℕ
  pub r11 : ℕ
  pub r12 : ℕ
  pub r13 : ℕ
  pub r14 : ℕ
  pub r15 : ℕ
  pub rip : ℕ
  pub flags : Flags
  pub others : ℕ

-- `exec_context_t`
pub record ExecContext : Type 0 where
  pub rax : ℕ
  pub rdx : ℕ
  pub rcx : ℕ
  pub rbx : ℕ
  pub rsp : ℕ
  pub rbp : ℕ
  pub rsi : ℕ
  pub rdi : ℕ
  pub r8 : ℕ
  pub r9 : ℕ
  pub r10 : ℕ
  pub r11 : ℕ
  pub r12 : ℕ
  pub r13 : ℕ
  pub r14 : ℕ
  pub r15 : ℕ
  pub rip : ℕ
  pub flags : ℕ
  pub others : ℕ

pub record Machine : Type 0 where
  pub cpu : Cpu
  pub memory : ℕ → ℕ

abbrev pub pushq : ℕ → Machine → Machine
pushq word m = record {
  cpu = record (m.cpu) { rsp = m.cpu.rsp - 8 };
  memory = update m.memory (m.cpu.rsp - 8) word;
}

-- `ret`
abbrev pub ret : Machine → Machine
ret m = record m { cpu = record (m.cpu) { rip = m.memory m.cpu.rsp; rsp = m.cpu.rsp + 8 } }

-- `lahf` and `seto %al`: bytes 1 and 0 of `rax`.
abbrev pub packed : ℕ → Flags → ℕ
packed rax f = rax / 2 ^ 16 * 2 ^ 16 + f.status * 2 ^ 8 + (if f.overflow then 1 else 0)

-- `addb $0x7f, %al` and `sahf`
abbrev pub unpacked : ℕ → Flags
unpacked rax =
    let al = rax % 2 ^ 8 in
    record { status = rax / 2 ^ 8 % 2 ^ 8; overflow = ltb 0 al && ltb al (2 ^ 7) }

-- _set_jmp(env): what it stores, and the machine behind its `ret`, with the flags that xorq leaves.
unfoldable pub set_jmp_code : Flags → Machine → ExecContext × Machine
set_jmp_code xorq m₀ =
    let m₁ = pushq m₀.cpu.rax m₀ in
    let m₂ = pushq m₁.cpu.r11 m₁ in
    let m₃ = pushq (packed m₂.cpu.rax m₂.cpu.flags) m₂ in
    let c = m₃.cpu in
    let stack = m₃.memory in
    (
      record {
        rax = stack (c.rsp + 16);
        rdx = c.rdx;
        rcx = c.rcx;
        rbx = c.rbx;
        rsp = c.rsp + 16;
        rbp = c.rbp;
        rsi = c.rsi;
        rdi = stack (c.rsp + 32);
        r8 = c.r8;
        r9 = c.r9;
        r10 = c.r10;
        r11 = stack (c.rsp + 8);
        r12 = c.r12;
        r13 = c.r13;
        r14 = c.r14;
        r15 = c.r15;
        rip = stack (c.rsp + 24);
        flags = stack c.rsp;
        others = c.others;
      },
      ret (record m₃ {
        cpu = record c {
          rax = 0;
          rdx = stack c.rsp;
          r11 = stack (c.rsp + 24);
          rsp = c.rsp + 24;
          flags = xorq;
        };
      }),
    )

-- The macro set_jmp(env), with `env` in `rdi` and `next` behind the call.
unfoldable pub set_jmp_call : ℕ → ℕ → Flags → Machine → ExecContext × Machine
set_jmp_call env next xorq m =
    let pushed = pushq m.cpu.rdi m in
    let called = pushq next (record pushed { cpu = record (pushed.cpu) { rdi = env } }) in
    set_jmp_code xorq called

-- _long_jmp(env, val): the new top of the stack gets the value and the address, and `ret` takes it.
unfoldable pub long_jmp_code : ExecContext → ℕ → Machine → Machine
long_jmp_code env val m =
    let memory = update (update m.memory (env.rsp + 8) env.rip) env.rsp val in
    ret (record {
      cpu = record (m.cpu) {
        rax = memory env.rsp;
        rdx = env.rdx;
        rcx = env.rcx;
        rbx = env.rbx;
        rsp = env.rsp + 8;
        rbp = env.rbp;
        rsi = env.rsi;
        rdi = env.rdi;
        r8 = env.r8;
        r9 = env.r9;
        r10 = env.r10;
        r11 = env.r11;
        r12 = env.r12;
        r13 = env.r13;
        r14 = env.r14;
        r15 = env.r15;
        flags = unpacked env.flags;
        others = env.others;
      };
      memory = memory;
    })
