-- ===== src/Testbed/Ult/Contexts.antt =====
-- The registers of an ult that no thread runs (libfibers/testbed/src/ult.c): they stay as they are until
-- a thread has switched to it, with these registers.
use fibers.Prelude.{ℕ, ◌≡◌, ◌<◌, Bool, false, Option, some, ◌==◌}
use fibers.Locking.Waiting.{IsWaiting}
use fibers.Testbed.Ult.{
  Ult, At, outside, made, stored, boot, relocked, booted, locked, moved, saved, unlocked, twice,
  Thread, Registers, landing, Program,
}
use fibers.Testbed.Ult.Exclusive.{is_current, has, taken}

-- The thread has taken the lock of `u` to switch to it, and is not there yet.
abbrev pub enters : At → Option ℕ → ℕ → Bool
enters outside current u = false
enters (locked from to) current u = to == u
enters (moved from) current u = is_current current u
enters (saved from) current u = is_current current u
enters (made v) current u = false
enters (stored v) current u = false
enters (boot v) current u = false
enters (relocked v) current u = is_current current u
enters (booted v) current u = is_current current u
enters unlocked current u = is_current current u
enters twice current u = false

module _ {R : Type 0} ⦃x : Registers R⦄ where
  abbrev pub is_entering : Thread R → ℕ → Bool
  is_entering t u = enters t.at t.current u

  -- The thread is in ult `u` with registers `c`: outside of the calls, or, where the rax of `c` is 0, in
  -- the branch for the first return of set_jmp.
  abbrev pub Back : Thread R → ℕ → R → Type 0
  Back t u c = (t.at ≡ landing c) × (t.current ≡ some u) × (t.regs ≡ c)

  abbrev pub context_of : (ℕ → Ult R) → ℕ → R
  context_of ults u = (ults u).context

  -- Ult `u` has registers `c`, and is free, or a thread is on its way to it.
  abbrev pub Waits : ℕ → R → Program R → Type 0
  Waits u c m =
      IsWaiting has is_entering Back (λ v. v < m.ult_id) (taken m.ult_id m.ults) (context_of m.ults)
        m.threads u c

  abbrev pub Arrives : ℕ → R → Program R → Type 0
  Arrives u c m = (a : ℕ) × Back (m.threads a) u c
