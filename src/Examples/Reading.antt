-- ===== src/Examples/Reading.antt =====
-- Reads of /proc/4/fibers in a state of Runs.antt.
use fibers.Prelude.{
  ℤ, ℕ, zero, suc, ◌<◌, ◌∙◌, sym, subst, negsuc, ◌≡◌, refl, some, pos, [], ◌∷◌, true, arith,
  ℤ_discrete, ℕ_discrete,
}
use fibers.Table.{walk, modify, possible}
use fibers.Fiber.Macros.{activate_fiber, activate_thread}
use fibers.Group.{
  get_group, get_thread, generate_group, generate_thread, generate_fiber, new_fiber, write_fiber,
  write_thread, write_group,
}
use fibers.Group.Lookup.{group_at, fiber_at}
use fibers.Calls.{try_enter, activate, finish, enter_new, convert_in, do_convert_thread_to_fiber}
use fibers.Device.{fibers_ioctl}
use fibers.Proc.{Text, fibers_read}
use fibers.Proc.Windows.{collect, fibers_read-collects}
use fibers.Invariant.{Inv, Sound, last_fid}
use fibers.Device.Reachable.{Reach-Sound}
use fibers.Proc.Entries.{overrun, hash_size, fibers_readdir, fibers_lookup}
use fibers.Proc.Overrun.{fibers_readdir-overrun}
use fibers.Examples.{linux, parity}
use fibers.Examples.Runs.{reaches_converted, converted, group_now, fiber_now}

-- Four bytes stand for the text of any fiber, and every name reads as 0.
abbrev text : Text
text = record { format = λ info. 70 ∷ 58 ∷ 48 ∷ 10 ∷ []; kstrtoul = λ name. some 0 }

group_here : group_at (pos 4) converted ≡ some (group_now converted)
unfolding fibers_ioctl do_convert_thread_to_fiber finish convert_in enter_new try_enter activate
    generate_group generate_thread generate_fiber new_fiber get_group get_thread possible walk
    modify write_group write_fiber write_thread activate_fiber activate_thread ℤ_discrete ℕ_discrete
group_here = refl

fiber_here : fiber_at (pos 0) (group_now converted) ≡ some (fiber_now (pos 0) converted)
unfolding fibers_ioctl do_convert_thread_to_fiber finish convert_in enter_new try_enter activate
    generate_group generate_thread generate_fiber new_fiber get_group get_thread possible walk
    modify write_group write_fiber write_thread activate_fiber activate_thread ℤ_discrete ℕ_discrete
fiber_here = refl

fibers_read-collects_example :
    collect (fibers_read linux text converted (some (pos 4)) (48 ∷ []) true 2) 4 0
    ≡ 70 ∷ 58 ∷ 48 ∷ []
fibers_read-collects_example =
    fibers_read-collects linux text converted 2 4 (pos 4) (48 ∷ []) (ground arith) (ground arith)
      group_here fiber_here

parity-small : (key : ℤ) → parity key < hash_size
parity-small (pos n) = omega arith
parity-small (negsuc n) = omega arith

one_fiber : (n : ℕ) → last_fid n ≡ pos 0 → n ≡ 1
one_fiber zero e = ground arith
one_fiber (suc n) e = ground arith

converted-Sound : Sound (group_now converted)
converted-Sound = (Reach-Sound reaches_converted).sound (pos 4) (group_now converted) group_here

count_now : (group_now converted).fid_count ≡ pos 0
unfolding fibers_ioctl do_convert_thread_to_fiber finish convert_in enter_new try_enter activate
    generate_group generate_thread generate_fiber new_fiber get_group get_thread possible walk
    modify write_group write_fiber write_thread activate_fiber activate_thread ℤ_discrete ℕ_discrete
count_now = refl

converted-Inv : Inv 1 (group_now converted)
converted-Inv =
    let (n, inv) = converted-Sound in
    subst (λ m. Inv m (group_now converted)) (one_fiber n (sym inv.count ∙ count_now)) inv

fibers_readdir-overrun_example :
    (fibers_readdir linux (λ n. true) (λ entries n. pos 0) converted (some (pos 4)) ≡ overrun)
    × (fibers_lookup linux (λ n. true) (λ entries n. pos 0) converted (some (pos 4)) ≡ overrun)
fibers_readdir-overrun_example =
    fibers_readdir-overrun linux (λ n. true) (λ entries n. pos 0) parity-small (pos 4) converted
      {n = 0} group_here converted-Inv refl
