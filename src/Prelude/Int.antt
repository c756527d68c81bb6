-- ===== src/Prelude/Int.antt =====
-- C's signed integers as ℤ over the native numbers; a 32-bit `int` wraps where the code counts up.
use Prim.Native.Nat.{ℕ, zero, suc, ◌-◌, ◌%◌, ◌^◌}
use mathlib.Core.Logic.{ite}
use mathlib.Core.Bool.{Bool, true, false}
use native.Mathlib.Decide.{ℕ_discrete}
use fibers.Prelude.Tests.{ltb, if◌then◌else◌}

-- `negsuc n` is -(n + 1).
pub data ℤ : Type 0 where
  pos : ℕ → ℤ
  negsuc : ℕ → ℤ

unfoldable pub ℤ_discrete : Discrete ℤ
unfolding ℕ_discrete
ℤ_discrete = hlevel ℕ_discrete

abbrev pub is_neg : ℤ → Bool
is_neg (pos n) = false
is_neg (negsuc n) = true

abbrev pub neg : ℕ → ℤ
neg zero = pos 0
neg (suc n) = negsuc n

-- A 32-bit `int` plus one: the largest wraps to the smallest, as the kernel's atomics do.
abbrev pub int_suc : ℤ → ℤ
int_suc (pos n) = if ltb n (2 ^ 31 - 1) then pos (suc n) else negsuc (2 ^ 31 - 1)
int_suc (negsuc zero) = pos 0
int_suc (negsuc (suc n)) = negsuc n

infix 50 ◌==ℤ◌
abbrev pub ◌==ℤ◌ : ℤ → ℤ → Bool
a ==ℤ b = ite (ℤ_discrete a b) true false

-- A C `int` from the low 32 bits of a number.
abbrev pub low_word : ℕ → ℤ
low_word p = let b = p % 2 ^ 32 in if ltb b (2 ^ 31) then pos b else negsuc (2 ^ 32 - 1 - b)
