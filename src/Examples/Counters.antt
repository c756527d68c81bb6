-- ===== src/Examples/Counters.antt =====
-- Runs of the counters and of the memory of the testbed: the numbers of threads (thread.c), the fibers
-- that are not done and those that main makes (main.c), the storage and the stacks of ults (ult.c).
use fibers.Prelude.{
  suc, ltb, not, some, ◌+◌, update, ℕ, ◌<◌, ◌≤◌, ◌≡◌, ◌⊎◌, refl, true, false, pos, negsuc, arith,
  ℕ_discrete,
}
use fibers.Testbed.Spawn.{
  begins, numbered, Threads, advance_thread, Runs, started, advances, numbers-differ,
}
use fibers.Testbed.Driver.{
  no_error, exits, get_random_fiber, check_args, Countdown, finish_fiber, wait, Counts, set_up,
  finishes, waits, countdown-all,
}
use fibers.Testbed.Driver.Startup.{main_steps, pick, startup-picks}
use fibers.Testbed.Ult.Storage.{
  max_fls, Storage, fls_alloc, fls_get, fls_set, Own, grant, keep, Uses, unused, allocates, stores,
  own_storage,
}
use fibers.Testbed.Ult.Stack.{stack_size, get_ult_stack, get_ult_stack-overrun}

abbrev new_threads : Threads
new_threads = record { thread_counter = 0; phases = λ i. begins }

-- Both threads read 0; the second one to compare and swap fails, and goes round again.
abbrev raced : Threads
raced = advance_thread 1 (
    advance_thread 1
      (advance_thread 1 (advance_thread 0 (advance_thread 1 (advance_thread 0 new_threads)))))

raced-Runs : Runs 2 raced
raced-Runs =
    advances
      (advances
        (advances
          (advances (advances (advances (started refl (λ i. refl)) 0 (omega arith)) 1 (omega arith))
            0 (omega arith))
          1 (omega arith))
        1 (omega arith))
      1 (omega arith)

numbers-differ_example : (0 < 2) × (2 ≤ 2) × (raced.phases 0 ≡ numbered 2 → ◌≡◌ {A = ℕ} 1 0)
unfolding advance_thread ℕ_discrete
numbers-differ_example = numbers-differ 2 (omega arith) raced raced-Runs 1 0 2 refl

-- A failing sysconf passes for many processors, and the program asks for more fibers.
no_processors : check_args (negsuc 0) 2 (pos 10) no_error ≡ exits
unfolding check_args
no_processors = refl

abbrev two_fibers : Countdown
two_fibers = record {
  completed_fibers = 2;
  finished = λ i. false;
  succeeded = false;
  failed = false;
}

-- The first fiber waits in vain until the second one is done.
abbrev counted : Countdown
counted = finish_fiber 1 (wait (finish_fiber 0 two_fibers))

counted-Counts : Counts 2 counted
unfolding finish_fiber wait ℕ_discrete
counted-Counts =
    finishes
      (waits (finishes (set_up refl (λ i. refl) (refl, refl)) (refl, refl) 0 (omega arith) refl)
        (refl, refl) refl)
      (refl, refl) 1 (omega arith) refl

countdown-all_example :
    ((counted.succeeded ≡ false)
      × ((wait counted).succeeded ≡ false)
      × ((i : ℕ) × (i < 2) × (counted.finished i ≡ false)))
    ⊎ (((wait counted).succeeded ≡ true)
        × (counted.failed ≡ false)
        × ((i : ℕ) → i < 2 → counted.finished i ≡ true))
countdown-all_example = countdown-all 2 counted (omega arith) counted-Counts

-- Fibers 1 and 2 get an index each, and store there.
abbrev shared : Storage
shared =
    fls_set 1 (pos 9)
      (fls_set 0 (pos 8) (fls_alloc (fls_alloc (record { fls = λ idx. pos 0; fls_idx = 0 })).1).1)

abbrev nothing : ℕ → Own
nothing i = record { owns = λ idx. false; last = λ idx. pos 0 }

abbrev granted : ℕ → Own
granted = update (update nothing 1 (grant (pos 0) (nothing 1))) 2 (grant (pos 1) (nothing 2))

abbrev own : ℕ → Own
own = update (update granted 1 (keep 0 (pos 8) (granted 1))) 2 (keep 1 (pos 9) (granted 2))

shared-Uses : Uses own shared
unfolding fls_alloc fls_set ℕ_discrete
shared-Uses = stores (stores (allocates (allocates unused 1) 2) 1 0 (pos 8) refl) 2 1 (pos 9) refl

own_storage_example :
    (fls_get 0 shared ≡ (own 1).last 0) × (0 < max_fls) × ((j : ℕ) → (own j).owns 0 ≡ true → 1 ≡ j)
unfolding fls_alloc fls_set ℕ_discrete
own_storage_example = own_storage own shared shared-Uses 1 0 refl

get_ult_stack-overrun_example :
    ((10000 ≤ stack_size)
      × (10000 ≤ (get_ult_stack 4096 8192 10000).0)
      × ((get_ult_stack 4096 8192 10000).0 ≤ (get_ult_stack 4096 8192 10000).1))
    ⊎ ((stack_size < 10000)
        × ((get_ult_stack 4096 8192 10000).1 < (get_ult_stack 4096 8192 10000).0))
get_ult_stack-overrun_example = get_ult_stack-overrun 4096 8192 10000 refl (omega arith)

startup-picks_example :
    (((main_steps suc 10 7).init_complete ≡ false × (main_steps suc 10 7).handler ≡ false)
      ⊎ (pick 33 10 (main_steps suc 10 7) ≡ some (suc (get_random_fiber 33 10))))
    × ((main_steps suc 10 7).init_complete ≡ not (ltb 7 (10 + 3)))
unfolding check_args
startup-picks_example = startup-picks (pos 4) 2 (pos 10) no_error 4 10 refl suc 7 33
