-- ===== src/Resume/Leave.antt =====
-- A switch leaves the fiber that the thread ran free, with known registers.
use fibers.Prelude.{◌≡◌, ◌∙◌, refl, sym, subst, some, ℤ, pos, neg, arith}
use fibers.Table.Laws.{walk-key}
use fibers.Kernel.{Kernel}
use fibers.Fiber.{ThreadGroup}
use fibers.Group.{Current, World, ret, GroupOutcome, write_fiber, esrch, eagain}
use fibers.Group.Lookup.{group_at, fiber_at, get_group-walk}
use fibers.Group.View.{Running, finished, finish-done, group_at-finished}
use fibers.Calls.{refused, finish, leave_fiber, switch_in, do_switch_to_fiber}
use fibers.Invariant.{SoundWorld, SoundOutcome}
use fibers.Invariant.Exchange.{switched, fiber_at-switched}
use fibers.Switch.{Switches, no_thread, no_fiber, busy, switches, switch_in-Switches}
use fibers.Resume.Calls.{Parked, IsUnlocked}
use fibers.Sound.{switch_in-Sound}

pub ret-injective : {r r' : ℤ} {w w' : World} → ret r w ≡ ret r' w' → w ≡ w'
ret-injective e = cc

module _ (k : Kernel) (cur : Current) {w w' : World} (sw : SoundWorld w) where
  -- The branch of a successful switch.
  Switches-parks :
      (run : Running cur w) {i : ℤ} {r : GroupOutcome}
      → Switches cur i (w.cpu cur.pid) run.tg r
      → SoundOutcome cur.tgid r
      → finish cur w r ≡ ret (pos 0) w'
      → Parked cur.tgid run.t.current_fid (w.cpu cur.pid) run.f.fls w'
        × IsUnlocked cur.tgid run.t.current_fid w'
  unfolding leave_fiber
  Switches-parks run (no_thread e) same h = ground (arith, run.thread)
  Switches-parks run (no_fiber t e d) same h =
      ground (arith, finish-done cur w (neg esrch) run.tg (w.cpu cur.pid))
  Switches-parks run (busy t f e d b) same h = ground (
    arith,
    finish-done cur w (neg eagain) (write_fiber f.fid (λ _. refused f) run.tg) (w.cpu cur.pid),
  )
  Switches-parks run (switches t old new s e) own h =
      let ctx = w.cpu cur.pid in
      let tg' = switched s ctx in
      let ends : finished cur w tg' new.context ≡ w' =
        ret-injective (sym (finish-done cur w (pos 0) tg' new.context) ∙ h) in
      let me : t ≡ run.t = ground (arith, s.caller, run.thread) in
      let at : group_at cur.tgid w' ≡ some tg' =
        subst (λ z. group_at cur.tgid z ≡ some tg') ends
          (ground (arith, group_at-finished cur w tg' new.context run.group own.0 cur.tgid)) in
      let left : fiber_at run.t.current_fid tg' ≡ some (leave_fiber cur ctx old) =
        ground (arith, fiber_at-switched s ctx run.t.current_fid) in
      (
        (tg', at, (leave_fiber cur ctx old, left, refl, ground (arith, s.runs, run.fiber), refl)),
        (tg', at, leave_fiber cur ctx old, left, refl),
      )

  -- From a sound state, a switch that succeeds leaves the fiber that the thread ran free, in the name of no task and with its lock released, with
  -- the registers of the task at the call and with its storage.
  pub do_switch_to_fiber-Parked :
      (run : Running cur w) (i : ℤ)
      → do_switch_to_fiber k cur i w ≡ ret (pos 0) w'
      → Parked cur.tgid run.t.current_fid (w.cpu cur.pid) run.f.fls w'
        × IsUnlocked cur.tgid run.t.current_fid w'
  unfolding do_switch_to_fiber
  do_switch_to_fiber-Parked run i h =
      let (n, inv) = sw.sound cur.tgid run.tg run.group in
      let ctx = w.cpu cur.pid in
      Switches-parks run (switch_in-Switches k cur ctx run.tg i inv)
        (subst (λ z. SoundOutcome z (switch_in k cur i ctx run.tg))
          (walk-key ThreadGroup.tgid cur.tgid w.groups run.group)
          (switch_in-Sound k cur i ctx run.tg (n, inv)))
        (ground (arith, h, run.group, get_group-walk k cur.tgid w.groups))
