-- ===== src/Invariant/Switch.antt =====
-- The exchange of fibers in do_switch_to_fiber keeps the invariant of the group.
use fibers.Prelude.{ℕ, ◌≡◌, ◌∙◌, ◌≢◌, refl, true, some, ℤ, pos, arith, ℤ_discrete}
use fibers.Fiber.{Fiber, Thread, ThreadGroup, Context}
use fibers.Fiber.Macros.{activate_fiber, activate_thread}
use fibers.Group.{Current, write_fiber, write_thread}
use fibers.Group.Lookup.{fiber_at, thread_at}
use fibers.Calls.{leave_fiber, hand_over, activate}
use fibers.Invariant.{Owns, Held, Inv, LockAgrees, Below}
use fibers.Invariant.Exchange.{
  Switching, switched, t-pid, distinct, fiber_at-switched, thread_at-switched,
}

module _ {cur : Current} {t : Thread} {old new : Fiber} {tg : ThreadGroup}
    (sw : Switching cur t old new tg) (ctx : Context) {n : ℕ} (inv : Inv n tg) where
  abbrev next : ThreadGroup
  next = switched sw ctx

  locks_after : (j : ℤ) (f : Fiber) → fiber_at j next ≡ some f → LockAgrees f
  unfolding leave_fiber activate_fiber
  locks_after j f e =
      ground (arith, fiber_at-switched sw ctx j, t-pid sw ctx, sw.live, inv.locks j f)

  range_after : (j : ℤ) (f : Fiber) → fiber_at j next ≡ some f → Below n j
  range_after j f e = ground (
    arith,
    fiber_at-switched sw ctx j,
    inv.range j f,
    inv.range t.current_fid old sw.runs,
    inv.range new.fid new sw.target,
  )

  dense_after :
      (j : ℤ) (f : Fiber) → fiber_at j tg ≡ some f → (f' : Fiber) × (fiber_at j next ≡ some f')
  dense_after j f e = elim (ℤ_discrete j t.current_fid) [
    | yes p ↦ (leave_fiber cur ctx old, ground (arith, fiber_at-switched sw ctx j))
    | no q ↦ elim (ℤ_discrete j new.fid) [
      | yes p ↦ (
        activate_fiber t cur.utime (record new { flock = true }),
        ground (arith, fiber_at-switched sw ctx j),
      )
      | no r ↦ (f, ground (arith, fiber_at-switched sw ctx j))
    ]
  ]

  after-Owns : (p : ℤ) (u : Thread) → thread_at p next ≡ some u → Owns next p u
  unfolding activate_fiber activate_thread
  after-Owns p u e = elim (ℤ_discrete p cur.pid) [
    | yes q ↦ (
      ground (arith, sw.live),
      activate_fiber t cur.utime (record new { flock = true }),
      ground
          (arith, thread_at-switched sw ctx p, fiber_at-switched sw ctx new.fid, distinct sw ctx),
      ground (arith, t-pid sw ctx),
    )
    | no q ↦
        let (live, f, there, runs) = inv.owns p u (ground (arith, thread_at-switched sw ctx p)) in
        (
          live,
          f,
          ground (
            arith,
            fiber_at-switched sw ctx u.current_fid,
            sw.runs,
            sw.target,
            sw.state,
            sw.free,
          ),
          runs,
        )
  ]

  after-Held : (j : ℤ) (f : Fiber) → fiber_at j next ≡ some f → f.info.state ≢ pos 0 → Held next j f
  unfolding leave_fiber activate_fiber activate_thread
  after-Held j f e busy = elim (ℤ_discrete j t.current_fid) [
    | yes q ↦ absurd (busy (ground (arith, fiber_at-switched sw ctx j)))
    | no q ↦ elim (ℤ_discrete j new.fid) [
      | yes r ↦ (
        activate_thread new.fid t,
        ground (
          arith,
          fiber_at-switched sw ctx j,
          t-pid sw ctx,
          thread_at-switched sw ctx f.info.state,
        ),
        ground arith,
      )
      | no r ↦
          let (u, there, runs) = inv.held j f (ground (arith, fiber_at-switched sw ctx j)) busy in
          (u, ground (arith, sw.caller, thread_at-switched sw ctx f.info.state), runs)
    ]
  ]

  same_count : next.fid_count ≡ tg.fid_count
  unfolding hand_over activate write_fiber write_thread
  same_count = refl

  pub switched-Inv : Inv n next
  switched-Inv = record {
    small = inv.small;
    count = same_count ∙ inv.count;
    range = range_after;
    dense = λ i h. let (f, there) = inv.dense i h in dense_after (pos i) f there;
    locks = locks_after;
    owns = after-Owns;
    held = after-Held;
  }
