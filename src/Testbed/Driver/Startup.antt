-- ===== src/Testbed/Driver/Startup.antt =====
-- libfibers/testbed/src/main.c: how main fills the array of fibers, and who reads it: the threads of
-- thread_initialization, which wait for init_complete, and the handler of SIGALRM, schedule. A step of
-- main is one write to what they share.
use fibers.Prelude.{
  ℕ, zero, suc, ◌+◌, ◌≤◌, ◌<◌, ◌≡◌, ◌⊎◌, inl, inr, refl, Bool, true, false, Bool-cases, not, Option,
  none, some, ℤ, arith, ltb, if◌then◌else◌, update,
}
use fibers.Testbed.Driver.{Errno, runs, check_args, check_args-runs, get_random_fiber}

-- Where main is: at the first fiber, at the loop with `i`, at `signal`, at `init_complete = true`, or in
-- main_loop.
pub data Stage : Type 0 where
  converting : Stage
  creating : ℕ → Stage
  signalling : Stage
  completing : Stage
  looping : Stage

-- The array, with `none` where malloc's memory is as it was; whether schedule is the handler.
pub record Startup : Type 0 where
  pub fibers : ℕ → Option ℕ
  pub handler : Bool
  pub init_complete : Bool
  pub stage : Stage

abbrev pub initial : Startup
initial = record { fibers = λ i. none; handler = false; init_complete = false; stage = converting }

-- One step of main, where the library answers with `new` for each fiber.
unfoldable pub main_step : (ℕ → ℕ) → ℕ → Startup → Startup
main_step new num_fibers m = elim m.stage [
  | converting ↦ record m { fibers = update m.fibers 0 (some (new 0)); stage = creating 1 }
  | creating i ↦
      if ltb i num_fibers
      then record m { fibers = update m.fibers i (some (new i)); stage = creating (suc i) }
      else record m { stage = signalling }
  | signalling ↦ record m { handler = true; stage = completing }
  | completing ↦ record m { init_complete = true; stage = looping }
  | looping ↦ m
]

unfoldable pub main_steps : (ℕ → ℕ) → ℕ → ℕ → Startup
main_steps new num_fibers zero = initial
main_steps new num_fibers (suc k) = main_step new num_fibers (main_steps new num_fibers k)

-- `fibers[get_random_fiber()]`, in schedule and in thread_initialization, once they run: `none` is what
-- was in memory before.
unfoldable pub pick : ℕ → ℕ → Startup → Option ℕ
pick random num_fibers m = m.fibers (get_random_fiber random num_fibers)

-- How many fibers are there, for the place of main.
abbrev filled : ℕ → Stage → ℕ
filled n converting = 0
filled n (creating i) = i
filled n _ = n

abbrev behind : Stage → ℕ
behind converting = 0
behind (creating i) = 0
behind signalling = 0
behind completing = 1
behind looping = 2

filled-late :
    (n : ℕ) (stage : Stage) (i : ℕ) → ltb 0 (behind stage) ≡ true → i < n → i < filled n stage
filled-late n converting i late less = ground arith
filled-late n (creating j) i late less = ground arith
filled-late n signalling i late less = less
filled-late n completing i late less = less
filled-late n looping i late less = less

abbrev spent : ℕ → Stage → ℕ
spent n converting = 0
spent n (creating i) = i
spent n signalling = n + 1
spent n completing = n + 2
spent n looping = n + 3

module _ (new : ℕ → ℕ) (n : ℕ) (some_fibers : 0 < n) where
  record IsFilled (k : ℕ) (m : Startup) : Type 0 where
    there : (i : ℕ) → i < filled n m.stage → m.fibers i ≡ some (new i)
    most : filled n m.stage ≤ n
    handles : m.handler ≡ true → 1 ≤ behind m.stage
    completes : m.init_complete ≡ ltb 1 (behind m.stage)
    on_time : spent n m.stage ≡ (if ltb k (n + 3) then k else n + 3)

  main_steps-IsFilled : (k : ℕ) → IsFilled k (main_steps new n k)
  unfolding main_steps main_step
  main_steps-IsFilled zero = record {
    there = λ i h. ground arith;
    most = omega arith;
    handles = λ p. ground arith;
    completes = refl;
    on_time = ground arith;
  }
  main_steps-IsFilled (suc k) =
      let c = main_steps-IsFilled k in
      record {
        there = λ i h. ground (arith, c.there i, c.most);
        most = ground (arith, c.most);
        handles = λ p. ground (arith, c.handles);
        completes = ground (arith, c.completes);
        on_time = ground (arith, c.on_time, c.most);
      }

-- Where main runs behind its checks, whatever the library answers it, after any number of its steps:
-- nobody reads the array yet, as init_complete is not set and schedule is not the handler of SIGALRM, or
-- each fiber that is picked is one that main has stored there; and init_complete is set from step
-- num_fibers + 3 on.
pub startup-picks :
    (sysconf : ℤ) (argc : ℕ) (strtoll : ℤ) (errno : Errno) (cpus num_fibers : ℕ)
    → check_args sysconf argc strtoll errno ≡ runs cpus num_fibers
    → (new : ℕ → ℕ) (k random : ℕ)
    → (((main_steps new num_fibers k).init_complete ≡ false
          × (main_steps new num_fibers k).handler ≡ false)
        ⊎ (pick random num_fibers (main_steps new num_fibers k)
            ≡ some (new (get_random_fiber random num_fibers))))
      × ((main_steps new num_fibers k).init_complete ≡ not (ltb k (num_fibers + 3)))
unfolding pick
startup-picks sysconf argc strtoll errno cpus num_fibers e new k random =
    let checked = check_args-runs sysconf argc strtoll errno cpus num_fibers e in
    let m = main_steps new num_fibers k in
    let c = main_steps-IsFilled new num_fibers (omega (arith, checked.1)) k in
    (
      elim (Bool-cases (ltb 0 (behind m.stage))) [
        | inl late ↦ inr (
            c.there (get_random_fiber random num_fibers)
              (filled-late num_fibers m.stage _ late (checked.3 random)))
        | inr early ↦ inl (ground (arith, early, c.completes), ground (arith, early, c.handles))
      ],
      ground (arith, c.completes, c.on_time, c.most),
    )
