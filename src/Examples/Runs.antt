-- ===== src/Examples/Runs.antt =====
-- A run of the device: task 5 converts itself, makes a second fiber, switches to it, computes there and
-- switches back.
use fibers.Prelude.{◌≡◌, ◌≢◌, refl, none, some, [], ℤ, pos, arith, ℤ_discrete, ℕ_discrete}
use fibers.Table.{possible, walk, modify}
use fibers.Fiber.{no_fibers, Fiber, Thread, ThreadGroup}
use fibers.Fiber.Macros.{activate_fiber, activate_thread, alloc_context, alloc_stack}
use fibers.Group.{
  World, ret, get_group, get_thread, get_fiber, generate_group, generate_thread, generate_fiber,
  new_fiber, write_fiber, write_thread, write_group,
}
use fibers.Sound.Calls.{HasRoom}
use fibers.Calls.{
  try_enter, activate, finish, leave_fiber, hand_over, exchange, enter_new, convert_in,
  do_convert_thread_to_fiber, create_in, do_create_fiber, switch_in, do_switch_to_fiber,
}
use fibers.Device.{
  UserMemory, convert_thread_to_fiber, create_fiber, switch_to_fiber, answer, fibers_ioctl,
}
use fibers.Device.Reachable.{Reach, loaded, next, Step, ioctl, compute}
use fibers.Device.Resumes.{Waits, now, later}
use fibers.Resume.Calls.{Parked}
use fibers.Resume.Create.{no_storage}
use fibers.Group.View.{Running}
use fibers.Group.Lookup.{group_at, thread_at, fiber_at}
use fibers.Examples.{dirty, linux, me, memory, loaded_world, state_after, registers}

-- The caller's memory in all these calls names fiber `j`.
abbrev naming : ℤ → UserMemory
naming j = memory j (pos 0) (pos 0)

-- Fiber 0 of task 5, then a free fiber 1, then fiber 1 of task 5 and a free fiber 0.
abbrev pub converted : World
converted =
    state_after (fibers_ioctl linux (naming (pos 0)) me convert_thread_to_fiber 0 loaded_world)

abbrev pub created : World
created = state_after (fibers_ioctl linux (naming (pos 0)) me create_fiber 0 converted)

abbrev pub switched : World
switched = state_after (fibers_ioctl linux (naming (pos 1)) me switch_to_fiber 0 created)

abbrev pub computed : World
computed = record switched { cpu = λ p. registers 20 }

abbrev pub returned : World
returned = state_after (fibers_ioctl linux (naming (pos 0)) me switch_to_fiber 0 computed)

live : pos 5 ≢ pos 0
live e = ground arith

loaded_world-HasRoom : HasRoom (pos 4) loaded_world
unfolding fibers_ioctl do_convert_thread_to_fiber do_create_fiber do_switch_to_fiber finish
    convert_in create_in switch_in exchange hand_over leave_fiber enter_new try_enter activate
    generate_group generate_thread generate_fiber new_fiber get_group get_thread get_fiber possible
    walk modify write_group write_fiber write_thread activate_fiber activate_thread alloc_context
    alloc_stack ℤ_discrete ℕ_discrete
loaded_world-HasRoom tg e = ground arith

pub converted-HasRoom : HasRoom (pos 4) converted
unfolding fibers_ioctl do_convert_thread_to_fiber do_create_fiber do_switch_to_fiber finish
    convert_in create_in switch_in exchange hand_over leave_fiber enter_new try_enter activate
    generate_group generate_thread generate_fiber new_fiber get_group get_thread get_fiber possible
    walk modify write_group write_fiber write_thread activate_fiber activate_thread alloc_context
    alloc_stack ℤ_discrete ℕ_discrete
converted-HasRoom tg e = ground arith

created-HasRoom : HasRoom (pos 4) created
unfolding fibers_ioctl do_convert_thread_to_fiber do_create_fiber do_switch_to_fiber finish
    convert_in create_in switch_in exchange hand_over leave_fiber enter_new try_enter activate
    generate_group generate_thread generate_fiber new_fiber get_group get_thread get_fiber possible
    walk modify write_group write_fiber write_thread activate_fiber activate_thread alloc_context
    alloc_stack ℤ_discrete ℕ_discrete
created-HasRoom tg e = ground arith

pub converts :
    fibers_ioctl linux (naming (pos 0)) me convert_thread_to_fiber 0 loaded_world
    ≡ answer (pos 0) converted []
unfolding fibers_ioctl do_convert_thread_to_fiber do_create_fiber do_switch_to_fiber finish
    convert_in create_in switch_in exchange hand_over leave_fiber enter_new try_enter activate
    generate_group generate_thread generate_fiber new_fiber get_group get_thread get_fiber possible
    walk modify write_group write_fiber write_thread activate_fiber activate_thread alloc_context
    alloc_stack ℤ_discrete ℕ_discrete
converts = refl

pub creates : do_create_fiber linux me 8192 4096 300 7 converted ≡ ret (pos 1) created
unfolding fibers_ioctl do_convert_thread_to_fiber do_create_fiber do_switch_to_fiber finish
    convert_in create_in switch_in exchange hand_over leave_fiber enter_new try_enter activate
    generate_group generate_thread generate_fiber new_fiber get_group get_thread get_fiber possible
    walk modify write_group write_fiber write_thread activate_fiber activate_thread alloc_context
    alloc_stack ℤ_discrete ℕ_discrete
creates = refl

pub switches : do_switch_to_fiber linux me (pos 1) created ≡ ret (pos 0) switched
unfolding fibers_ioctl do_convert_thread_to_fiber do_create_fiber do_switch_to_fiber finish
    convert_in create_in switch_in exchange hand_over leave_fiber enter_new try_enter activate
    generate_group generate_thread generate_fiber new_fiber get_group get_thread get_fiber possible
    walk modify write_group write_fiber write_thread activate_fiber activate_thread alloc_context
    alloc_stack ℤ_discrete ℕ_discrete
switches = refl

computed-HasRoom : HasRoom (pos 4) computed
unfolding fibers_ioctl do_convert_thread_to_fiber do_create_fiber do_switch_to_fiber finish
    convert_in create_in switch_in exchange hand_over leave_fiber enter_new try_enter activate
    generate_group generate_thread generate_fiber new_fiber get_group get_thread get_fiber possible
    walk modify write_group write_fiber write_thread activate_fiber activate_thread alloc_context
    alloc_stack ℤ_discrete ℕ_discrete
computed-HasRoom tg e = ground arith

switches_back :
    fibers_ioctl linux (naming (pos 0)) me switch_to_fiber 0 computed ≡ answer (pos 0) returned []
unfolding fibers_ioctl do_convert_thread_to_fiber do_create_fiber do_switch_to_fiber finish
    convert_in create_in switch_in exchange hand_over leave_fiber enter_new try_enter activate
    generate_group generate_thread generate_fiber new_fiber get_group get_thread get_fiber possible
    walk modify write_group write_fiber write_thread activate_fiber activate_thread alloc_context
    alloc_stack ℤ_discrete ℕ_discrete
switches_back = refl

pub reaches_converted : Reach linux converted
reaches_converted =
    next (loaded (λ p. registers 10))
      (ioctl (naming (pos 0)) me convert_thread_to_fiber 0 loaded_world-HasRoom live converts)

pub reaches_created : Reach linux created
unfolding fibers_ioctl do_convert_thread_to_fiber do_create_fiber do_switch_to_fiber finish
    convert_in create_in switch_in exchange hand_over leave_fiber enter_new try_enter activate
    generate_group generate_thread generate_fiber new_fiber get_group get_thread get_fiber possible
    walk modify write_group write_fiber write_thread activate_fiber activate_thread alloc_context
    alloc_stack ℤ_discrete ℕ_discrete
reaches_created =
    next reaches_converted
      (ioctl (naming (pos 0)) me create_fiber 0 {r = pos 1} {out = []} converted-HasRoom live refl)

pub reaches_switched : Reach linux switched
unfolding fibers_ioctl do_convert_thread_to_fiber do_create_fiber do_switch_to_fiber finish
    convert_in create_in switch_in exchange hand_over leave_fiber enter_new try_enter activate
    generate_group generate_thread generate_fiber new_fiber get_group get_thread get_fiber possible
    walk modify write_group write_fiber write_thread activate_fiber activate_thread alloc_context
    alloc_stack ℤ_discrete ℕ_discrete
reaches_switched =
    next reaches_created
      (ioctl (naming (pos 1)) me switch_to_fiber 0 {r = pos 0} {out = []} created-HasRoom live refl)

pub switching_back : Step linux computed returned
switching_back = ioctl (naming (pos 0)) me switch_to_fiber 0 computed-HasRoom live switches_back

-- The process's group and its fibers in a state, or the memory of none.
abbrev pub group_now : World → ThreadGroup
group_now w = elim (group_at (pos 4) w) [
  | none ↦ record { tgid = pos 4; fid_count = no_fibers; threads = []; fibers = [] }
  | some tg ↦ tg
]

abbrev pub fiber_now : ℤ → World → Fiber
fiber_now j w = elim (fiber_at j (group_now w)) [ none ↦ dirty | some f ↦ f ]

abbrev pub thread_now : World → Thread
thread_now w = elim (thread_at (pos 5) (group_now w)) [
  | none ↦ record { pid = pos 5; current_fid = no_fibers }
  | some t ↦ t
]

pub running_in_converted : Running me converted
unfolding fibers_ioctl do_convert_thread_to_fiber do_create_fiber do_switch_to_fiber finish
    convert_in create_in switch_in exchange hand_over leave_fiber enter_new try_enter activate
    generate_group generate_thread generate_fiber new_fiber get_group get_thread get_fiber possible
    walk modify write_group write_fiber write_thread activate_fiber activate_thread alloc_context
    alloc_stack ℤ_discrete ℕ_discrete
running_in_converted = record {
  tg = group_now converted;
  t = thread_now converted;
  f = fiber_now (pos 0) converted;
  group = refl;
  thread = refl;
  fiber = refl;
}

pub running_in_created : Running me created
unfolding fibers_ioctl do_convert_thread_to_fiber do_create_fiber do_switch_to_fiber finish
    convert_in create_in switch_in exchange hand_over leave_fiber enter_new try_enter activate
    generate_group generate_thread generate_fiber new_fiber get_group get_thread get_fiber possible
    walk modify write_group write_fiber write_thread activate_fiber activate_thread alloc_context
    alloc_stack ℤ_discrete ℕ_discrete
running_in_created = record {
  tg = group_now created;
  t = thread_now created;
  f = fiber_now (pos 0) created;
  group = refl;
  thread = refl;
  fiber = refl;
}

pub switched-Parked : Parked (pos 4) (pos 0) (registers 10) no_storage switched
unfolding fibers_ioctl do_convert_thread_to_fiber do_create_fiber do_switch_to_fiber finish
    convert_in create_in switch_in exchange hand_over leave_fiber enter_new try_enter activate
    generate_group generate_thread generate_fiber new_fiber get_group get_thread get_fiber possible
    walk modify write_group write_fiber write_thread activate_fiber activate_thread alloc_context
    alloc_stack ℤ_discrete ℕ_discrete
switched-Parked = (group_now switched, refl, (fiber_now (pos 0) switched, refl, refl, refl, refl))

pub waits : Waits linux (pos 4) (pos 0) switched computed
unfolding fibers_ioctl do_convert_thread_to_fiber do_create_fiber do_switch_to_fiber finish
    convert_in create_in switch_in exchange hand_over leave_fiber enter_new try_enter activate
    generate_group generate_thread generate_fiber new_fiber get_group get_thread get_fiber possible
    walk modify write_group write_fiber write_thread activate_fiber activate_thread alloc_context
    alloc_stack ℤ_discrete ℕ_discrete
waits = later (fiber_now (pos 0) switched) now (compute (λ p. registers 20)) refl refl
