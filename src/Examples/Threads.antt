-- ===== src/Examples/Threads.antt =====
-- A run of the threads of libfibers/testbed/src/ult.c, with a number for the registers.
use fibers.Prelude.{ℕ, false, none, ◌==◌}
use fibers.Testbed.Ult.{
  outside, Program, ult_convert, ult_creat, ult_switch_to, go_on, become, Registers,
}

instance abbrev numbers : Registers ℕ
numbers = record { is_zero = λ n. n == 0 }

abbrev begun : Program ℕ
begun = record {
  ults = λ u. record { running = false; context = 0 };
  threads = λ tid. record { at = outside; current = none; regs = tid };
  ult_id = 0;
}

-- Threads 5 and 6 become ults 0 and 1, and thread 5 asks for ult 1.
abbrev first : Program ℕ
first = ult_convert 5 begun

abbrev second : Program ℕ
second = ult_convert 6 first

abbrev third : Program ℕ
third = become 5 (ult_switch_to 0 1 (second.threads 5) second.ults) second

-- Thread 5 makes ult 1, which begins with 7 in its registers, up to where ult 1 is free.
abbrev go : Program ℕ → Program ℕ
go m = become 5 (go_on (m.threads 5) 0 m.ults) m

abbrev creating : Program ℕ
creating = ult_creat 5 7 first

abbrev created : Program ℕ
created = go (go (go (go (go creating))))

abbrev entering : Program ℕ
entering = become 5 (ult_switch_to 0 1 ((go created).threads 5) (go created).ults) (go created)
