-- ===== src/Examples/Switching.antt =====
-- The calls that make fibers and switch between them, on the run of Runs.antt.
use fibers.Prelude.{◌<◌, ◌^◌, ◌≡◌, ◌≢◌, refl, true, none, some, pos, arith, ℤ_discrete, ℕ_discrete}
use fibers.Table.{walk, modify, possible}
use fibers.Fiber.{Fiber}
use fibers.Fiber.Macros.{activate_fiber, activate_thread, alloc_context, alloc_stack}
use fibers.Group.{
  Current, get_group, get_thread, get_fiber, generate_group, generate_thread, generate_fiber,
  new_fiber, write_fiber, write_thread, write_group,
}
use fibers.Group.Lookup.{fiber_at}
use fibers.Group.View.{fiber_in}
use fibers.Calls.{
  try_enter, activate, finish, leave_fiber, hand_over, exchange, enter_new, convert_in,
  do_convert_thread_to_fiber, create_in, do_create_fiber, switch_in, do_switch_to_fiber,
}
use fibers.Invariant.{SoundWorld, Sound}
use fibers.Sound.Calls.{room_left}
use fibers.Device.{fibers_ioctl}
use fibers.Device.Reachable.{Reach-Sound, exclusive}
use fibers.Device.Resumes.{resumed}
use fibers.Resume.Calls.{Parked, IsUnlocked}
use fibers.Resume.Leave.{do_switch_to_fiber-Parked}
use fibers.Resume.Create.{do_create_fiber-Parked, no_storage, start}
use fibers.Switch.{Switches, switch_in-Switches}
use fibers.Convert.{Converts, convert_in-Converts}
use fibers.Examples.{linux, me, registers}
use fibers.Examples.Runs.{
  converted, created, switched, returned, group_now, fiber_now, thread_now, waits, switching_back,
  switched-Parked, running_in_converted, running_in_created, reaches_switched, reaches_created,
  reaches_converted, creates, switches, converted-HasRoom,
}

resumed_example :
    (cur : Current) × (returned.cpu cur.pid ≡ registers 10)
    × ((fiber_now (pos 0) returned).info.state ≡ cur.pid)
    × ((fiber_now (pos 0) returned).fls ≡ no_storage)
unfolding fibers_ioctl do_convert_thread_to_fiber do_create_fiber do_switch_to_fiber finish
    convert_in create_in switch_in exchange hand_over leave_fiber enter_new try_enter activate
    generate_group generate_thread generate_fiber new_fiber get_group get_thread get_fiber possible
    walk modify write_group write_fiber write_thread activate_fiber activate_thread alloc_context
    alloc_stack ℤ_discrete ℕ_discrete
resumed_example =
    resumed (pos 4) (pos 0) (registers 10) no_storage (fiber_now (pos 0) returned)
      (Reach-Sound reaches_switched) switched-Parked waits switching_back refl (λ e. ground arith)

exclusive_example :
    (pos 5 ≡ pos 5)
    × (f : Fiber) × (fiber_at (thread_now switched).current_fid (group_now switched) ≡ some f)
    × (f.info.state ≡ pos 5)
    × (f.flock ≡ true)
unfolding fibers_ioctl do_convert_thread_to_fiber do_create_fiber do_switch_to_fiber finish
    convert_in create_in switch_in exchange hand_over leave_fiber enter_new try_enter activate
    generate_group generate_thread generate_fiber new_fiber get_group get_thread get_fiber possible
    walk modify write_group write_fiber write_thread activate_fiber activate_thread alloc_context
    alloc_stack ℤ_discrete ℕ_discrete
exclusive_example =
    exclusive reaches_switched (pos 4) (pos 5) (pos 5) (group_now switched) (thread_now switched)
      (thread_now switched) refl refl refl refl

Reach-Sound_example : SoundWorld switched
Reach-Sound_example = Reach-Sound reaches_switched

created-Sound : Sound (group_now created)
unfolding fibers_ioctl do_convert_thread_to_fiber do_create_fiber do_switch_to_fiber finish
    convert_in create_in switch_in exchange hand_over leave_fiber enter_new try_enter activate
    generate_group generate_thread generate_fiber new_fiber get_group get_thread get_fiber possible
    walk modify write_group write_fiber write_thread activate_fiber activate_thread alloc_context
    alloc_stack ℤ_discrete ℕ_discrete
created-Sound = (Reach-Sound reaches_created).sound (pos 4) (group_now created) refl

converted-Sound : Sound (group_now converted)
unfolding fibers_ioctl do_convert_thread_to_fiber do_create_fiber do_switch_to_fiber finish
    convert_in create_in switch_in exchange hand_over leave_fiber enter_new try_enter activate
    generate_group generate_thread generate_fiber new_fiber get_group get_thread get_fiber possible
    walk modify write_group write_fiber write_thread activate_fiber activate_thread alloc_context
    alloc_stack ℤ_discrete ℕ_discrete
converted-Sound = (Reach-Sound reaches_converted).sound (pos 4) (group_now converted) refl

converted-room : converted-Sound.0 < 2 ^ 31
unfolding fibers_ioctl do_convert_thread_to_fiber do_create_fiber do_switch_to_fiber finish
    convert_in create_in switch_in exchange hand_over leave_fiber enter_new try_enter activate
    generate_group generate_thread generate_fiber new_fiber get_group get_thread get_fiber possible
    walk modify write_group write_fiber write_thread activate_fiber activate_thread alloc_context
    alloc_stack ℤ_discrete ℕ_discrete
converted-room =
    room_left converted-Sound.0 converted-Sound.1 (converted-HasRoom (group_now converted) refl)

switch_in-Switches_example :
    Switches me
      (pos 1)
      (registers 10)
      (group_now created)
      (switch_in linux me (pos 1) (registers 10) (group_now created))
switch_in-Switches_example =
    switch_in-Switches linux me (registers 10) (group_now created) (pos 1) created-Sound.1

do_switch_to_fiber-Parked_example :
    Parked
      (pos 4)
      running_in_created.t.current_fid
      (created.cpu (pos 5))
      running_in_created.f.fls
      switched
    × IsUnlocked (pos 4) running_in_created.t.current_fid switched
unfolding fibers_ioctl do_convert_thread_to_fiber do_create_fiber do_switch_to_fiber finish
    convert_in create_in switch_in exchange hand_over leave_fiber enter_new try_enter activate
    generate_group generate_thread generate_fiber new_fiber get_group get_thread get_fiber possible
    walk modify write_group write_fiber write_thread activate_fiber activate_thread alloc_context
    alloc_stack ℤ_discrete ℕ_discrete
do_switch_to_fiber-Parked_example =
    do_switch_to_fiber-Parked linux me (Reach-Sound reaches_created) running_in_created (pos 1)
      switches

do_create_fiber-Parked_example :
    (fiber_in (pos 4) (pos 1) converted ≡ none)
    × Parked (pos 4) (pos 1) (start 8192 4096 300 7 (converted.cpu (pos 5))) no_storage created
    × IsUnlocked (pos 4) (pos 1) created
do_create_fiber-Parked_example =
    do_create_fiber-Parked 8192 4096 300 7 linux me (Reach-Sound reaches_converted)
      running_in_converted 1 converted-HasRoom creates

live : pos 5 ≢ pos 0
live e = ground arith

convert_in-Converts_example :
    Converts me
      (registers 10)
      converted-Sound.0
      (group_now converted)
      converted-Sound.1
      converted-room
      live
      (convert_in linux me (registers 10) (group_now converted))
convert_in-Converts_example =
    convert_in-Converts linux me (registers 10) (group_now converted) converted-Sound.1
      converted-room live
