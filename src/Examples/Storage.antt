-- ===== src/Examples/Storage.antt =====
-- The storage calls on a fiber that has allocated index 0, and the cleanup of its process.
use fibers.Prelude.{
  ℕ, ◌<◌, ◌≡◌, ◌⊎◌, inl, refl, true, false, none, pos, neg, arith, ℤ_discrete, ℕ_discrete,
}
use fibers.Table.{walk, modify, possible}
use fibers.Fiber.{fls_max_size}
use fibers.Fiber.Macros.{activate_fiber, activate_thread}
use fibers.Group.{
  World, ret, einval, eacces, get_group, get_thread, get_fiber, generate_group, generate_thread,
  generate_fiber, new_fiber, write_fiber, write_thread, write_group,
}
use fibers.Group.Lookup.{group_at}
use fibers.Group.View.{Running}
use fibers.Calls.{try_enter, activate, finish, enter_new, convert_in, do_convert_thread_to_fiber}
use fibers.Calls.Fls.{
  alloc_slot, get_slot, change_bit, on_current, current_fiber, in_group, do_fls_alloc,
  do_fls_get_value, do_fls_free, do_fls_set_value,
}
use fibers.Calls.Cleanup.{cleanup_process}
use fibers.Device.{fibers_ioctl, answered}
use fibers.Device.Reachable.{Reach-Sound}
use fibers.Fls.{Stores, in_group-Stores}
use fibers.Fls.Slots.{Lowest}
use fibers.Fls.Calls.{storage, do_fls_alloc-Lowest, do_fls_set_value-get, do_fls_free-again}
use fibers.Sound.Cleanup.{cleanup_process-removes}
use fibers.Fiberlib.{returned, fls_set_value, fls_get_value}
use fibers.Fiberlib.Storage.{fls_set_value-get, fls_get_value-Refusal}
use fibers.Examples.{linux, me, state_after}
use fibers.Examples.Runs.{converted, group_now, thread_now, fiber_now, reaches_converted}

abbrev allocated : World
allocated = state_after (answered (do_fls_alloc linux me converted))

run : Running me allocated
unfolding fibers_ioctl do_convert_thread_to_fiber finish convert_in enter_new try_enter activate
    generate_group generate_thread generate_fiber new_fiber get_group get_thread get_fiber possible
    walk modify write_group write_fiber write_thread activate_fiber activate_thread do_fls_alloc
    in_group on_current current_fiber alloc_slot ℤ_discrete ℕ_discrete
run = record {
  tg = group_now allocated;
  t = thread_now allocated;
  f = fiber_now (pos 0) allocated;
  group = refl;
  thread = refl;
  fiber = refl;
}

in_use : (storage run).bmp 0 ≡ true
unfolding run fibers_ioctl do_convert_thread_to_fiber finish convert_in enter_new try_enter activate
    generate_group generate_thread generate_fiber new_fiber get_group get_thread get_fiber possible
    walk modify write_group write_fiber write_thread activate_fiber activate_thread do_fls_alloc
    in_group on_current current_fiber alloc_slot ℤ_discrete ℕ_discrete
in_use = refl

unused : (storage run).bmp 1 ≡ false
unfolding run fibers_ioctl do_convert_thread_to_fiber finish convert_in enter_new try_enter activate
    generate_group generate_thread generate_fiber new_fiber get_group get_thread get_fiber possible
    walk modify write_group write_fiber write_thread activate_fiber activate_thread do_fls_alloc
    in_group on_current current_fiber alloc_slot ℤ_discrete ℕ_discrete
unused = refl

small : 0 < fls_max_size
small = ground arith

do_fls_alloc-Lowest_example :
    ((i : ℕ) × (w' : World) × Lowest (storage run) i
      × (do_fls_alloc linux me allocated ≡ ret (pos i) w')
      × Stores me run (record (storage run) { bmp = change_bit i (storage run).bmp }) w')
    ⊎ ((w' : World) × ((i : ℕ) → i < fls_max_size → (storage run).bmp i ≡ true)
        × (do_fls_alloc linux me allocated ≡ ret (neg einval) w')
        × Stores me run (storage run) w')
do_fls_alloc-Lowest_example = do_fls_alloc-Lowest linux me run

do_fls_set_value-get_example :
    (w' : World) × (w'' : World) × (do_fls_set_value linux me (pos 0) (pos 42) allocated
      ≡ ret (pos 0) w')
    × (do_fls_get_value linux me (pos 0) w' ≡ ret (pos 42) w'')
unfolding ℕ_discrete
do_fls_set_value-get_example =
    do_fls_set_value-get linux me run 0 0 (pos 42) small small in_use in_use

do_fls_free-again_example :
    (w' : World) × (x : World) × (y : World) × (z : World) × (do_fls_free linux me (pos 0) allocated
      ≡ ret (pos 0) w')
    × (do_fls_get_value linux me (pos 0) w' ≡ ret (neg eacces) x)
    × (do_fls_set_value linux me (pos 0) (pos 42) w' ≡ ret (neg eacces) y)
    × (do_fls_free linux me (pos 0) w' ≡ ret (neg eacces) z)
do_fls_free-again_example = do_fls_free-again linux me run 0 (pos 42) small in_use

in_group-Stores_example :
    (w' : World) × (in_group linux me (get_slot 0) allocated ≡ ret (get_slot 0 (storage run)).0 w')
    × Stores me run (get_slot 0 (storage run)).1 w'
in_group-Stores_example = in_group-Stores linux me run (get_slot 0)

fls_set_value-get_example :
    (w' : World) × (w'' : World) × (fls_set_value linux me 64 (pos 0) (pos 42) allocated
      ≡ returned (pos 0) w')
    × (fls_get_value linux me 64 128 (pos 0) w' ≡ returned (pos 42) w'')
unfolding ℕ_discrete
fls_set_value-get_example =
    fls_set_value-get linux me 64 128 run 0 0 (pos 42) small small in_use in_use

fls_get_value-Refusal_example :
    (w' : World) × (fls_get_value linux me 64 128 (pos 1) allocated ≡ returned (neg eacces) w')
fls_get_value-Refusal_example =
    fls_get_value-Refusal linux me 64 128 run (pos 1) eacces
      (inl (1, refl, ground arith, unused, refl))

cleanup_process-removes_example :
    (w' : World) × (cleanup_process linux (pos 4) converted ≡ ret (pos 0) w')
    × (group_at (pos 4) w' ≡ none)
    × (group_at (pos 8) w' ≡ group_at (pos 8) converted)
cleanup_process-removes_example =
    cleanup_process-removes linux (pos 4) (pos 8) converted (Reach-Sound reaches_converted) refl
      (λ e. ground arith)
