-- ===== src/Examples/Interleavings.antt =====
-- Runs of the tasks of a process whose calls interleave (fibers/fiber.c).
use fibers.Prelude.{
  ℕ, zero, suc, ◌≡◌, refl, ◌⊎◌, inl, true, false, List, [], ◌∷◌, arith, ℕ_discrete, ℤ_discrete,
}
use fibers.Prelude.{pos}
use fibers.Fiber.{Context, no_fibers}
use fibers.Fiber.Macros.{
  activate_fiber, alloc_stack, alloc_context, prepare_generics, prepare_context, prepare_fls,
  prepare_info,
}
use fibers.Group.{new_fiber}
use fibers.Calls.{refused}
use fibers.Examples.{dirty, registers}
use fibers.Interleaved.{
  outside, Process, save_context, stop_clock, go_on, try_fiber, add_fiber, Reachable, start, Steps,
  no_step,
}
use fibers.Interleaved.Held.{has, exclusive_fibers}
use fibers.Interleaved.States.{IsIdle, reachable-IsIdle}
use fibers.Interleaved.Contexts.{Waits, Arrives, makes, resumed_fiber, steps-Reachable}
use fibers.Interleaved.Schedule.{Act, convert, create, switch, go, act, play, play-Steps}

abbrev begun : Process
begun = record {
  fid_count = 0;
  fibers = λ u. dirty;
  tasks = λ tid. record {
    at = outside;
    registered = false;
    thread = record { pid = pos 0; current_fid = no_fibers };
    regs = registers tid;
  };
}

begun-Reachable : Reachable begun
begun-Reachable =
    start (record { none_yet = refl; at = λ tid. refl; threads = λ tid. (refl, refl) })

abbrev going : ℕ → ℕ → List (ℕ × Act) → List (ℕ × Act)
going zero tid acts = acts
going (suc n) tid acts = (tid, go 5) ∷ going n tid acts

-- Task 1 becomes fiber 0 and makes fiber 1.
abbrev first : List (ℕ × Act)
first = (1, convert dirty) ∷ going 3 1 ((1, create 10 20 30 40 dirty) ∷ going 1 1 [])

-- Task 1 asks for fiber 1, while task 2 becomes fiber 2 and asks for fiber 1, too.
abbrev second : List (ℕ × Act)
second = (2, convert dirty) ∷ going 3 2 ((1, switch 1) ∷ (2, switch 1) ∷ going 2 1 [])

abbrev ready : Process
ready = play first begun

abbrev crossing : Process
crossing = play second ready

played-Reachable : (acts : List (ℕ × Act)) (m : Process) → Reachable m → Reachable (play acts m)
played-Reachable acts m r = steps-Reachable r (play-Steps acts m m no_step)

crossing-Reachable : Reachable crossing
crossing-Reachable = played-Reachable second ready (played-Reachable first begun begun-Reachable)

exclusive_fibers_example :
    ((crossing.fibers 1).flock ≡ true) × ((b : ℕ) → has (crossing.tasks b) 1 ≡ true → 1 ≡ b)
unfolding play act go_on try_fiber add_fiber refused activate_fiber alloc_stack alloc_context
    save_context stop_clock new_fiber prepare_generics prepare_context prepare_fls prepare_info
    ℕ_discrete ℤ_discrete
exclusive_fibers_example = exclusive_fibers crossing crossing-Reachable 1 1 refl

reachable-IsIdle_example : IsIdle crossing
reachable-IsIdle_example = reachable-IsIdle crossing crossing-Reachable

-- Fiber 1 begins at its entry point.
abbrev begins : Context
begins = record { regs = record { ip = 30; di = 40; sp = 22; bp = 22; others = 1 }; fpu = 1 }

ready-makes : (a : ℕ) → makes (ready.tasks a) 1 ≡ false
unfolding play act go_on try_fiber add_fiber refused activate_fiber alloc_stack alloc_context
    save_context stop_clock new_fiber prepare_generics prepare_context prepare_fls prepare_info
    ℕ_discrete ℤ_discrete
ready-makes a = elim (ℕ_discrete 1 a) [ yes e ↦ ground (arith, e) | no e ↦ ground (arith, e) ]

ready-Waits : Waits 1 begins ready
unfolding play act go_on try_fiber add_fiber refused activate_fiber alloc_stack alloc_context
    save_context stop_clock new_fiber prepare_generics prepare_context prepare_fls prepare_info
    ℕ_discrete ℤ_discrete
ready-Waits = record { known = (omega arith, ready-makes); same = refl; nobody = inl refl }

resumed_fiber_example :
    Waits 1 begins crossing
    ⊎ ((mid : Process) × Steps ready mid × Steps mid crossing × Arrives 1 begins mid)
resumed_fiber_example =
    resumed_fiber ready crossing 1 begins (played-Reachable first begun begun-Reachable) ready-Waits
      (play-Steps second ready ready no_step)

-- Task 2 has made its fiber 1, but not locked it, when task 1 enters it: the conversion fails. When
-- task 2 then switches to fiber 0, which is free, it locks it, and leaves the call.
abbrev stolen : List (ℕ × Act)
stolen =
    (1, convert dirty)
    ∷ going 3 1
        ((2, convert dirty) ∷ (1, switch 1) ∷ going 7 1 (going 1 2 ((2, switch 0) ∷ going 2 2 [])))

abbrev stranded : Process
stranded = play stolen begun

lost_lock :
    ((stranded.fibers 0).flock ≡ true)
    × (has (stranded.tasks 1) 0 ≡ false)
    × (has (stranded.tasks 2) 0 ≡ false)
unfolding play act go_on try_fiber add_fiber refused activate_fiber alloc_stack alloc_context
    save_context stop_clock new_fiber prepare_generics prepare_context prepare_fls prepare_info
    ℕ_discrete ℤ_discrete
lost_lock = (refl, refl, refl)

-- Task 2, in fiber 1, enters fiber 2 before task 1, which makes it, has written its entry point: it
-- goes on with the registers of task 1.
abbrev early : List (ℕ × Act)
early =
    (1, convert dirty)
    ∷ going 3 1 (
        (2, convert dirty)
        ∷ going 3 2 ((1, create 10 20 30 40 dirty) ∷ (2, switch 2) ∷ going 7 2 []))

early_entry : ((play early begun).tasks 2).regs ≡ registers 1
unfolding play act go_on try_fiber add_fiber refused activate_fiber alloc_stack alloc_context
    save_context stop_clock new_fiber prepare_generics prepare_context prepare_fls prepare_info
    ℕ_discrete ℤ_discrete
early_entry = refl
