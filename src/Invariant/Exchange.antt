-- ===== src/Invariant/Exchange.antt =====
-- The writes of a switch keep the invariant, where the new fiber was free.
use fibers.Prelude.{ℕ, ◌≡◌, ◌≢◌, refl, ite, true, some, ℤ, pos, arith, ℤ_discrete}
use fibers.Table.Laws.{walk-key}
use fibers.Fiber.{Fiber, Thread, ThreadGroup, Context}
use fibers.Fiber.Macros.{activate_fiber, activate_thread}
use fibers.Group.{Current, write_fiber, write_thread}
use fibers.Group.Lookup.{
  fiber_at, thread_at, fiber_at-write_fiber, thread_at-write_fiber, fiber_at-write_thread,
  thread_at-write_thread,
}
use fibers.Calls.{activate, leave_fiber, hand_over}

-- A thread `t` of the group, the fiber `old` that it runs, and the fiber `new` that it enters.
pub record Switching (cur : Current) (t : Thread) (old new : Fiber) (tg : ThreadGroup)
    : Type 0 where
  pub caller : thread_at cur.pid tg ≡ some t
  pub runs : fiber_at t.current_fid tg ≡ some old
  pub state : old.info.state ≡ cur.pid
  pub live : cur.pid ≢ pos 0
  pub target : fiber_at new.fid tg ≡ some new
  pub free : new.info.state ≡ pos 0

leave_fiber-fid :
    (cur : Current) (ctx : Context) {i : ℤ} (f : Fiber)
    → f.fid ≡ i
    → (leave_fiber cur ctx f).fid ≡ i
unfolding leave_fiber
leave_fiber-fid cur ctx f e = e

pub activate_fiber-fid :
    (t : Thread) (utime : ℕ) {i : ℤ} (f : Fiber) → f.fid ≡ i → (activate_fiber t utime f).fid ≡ i
unfolding activate_fiber
activate_fiber-fid t utime f e = e

pub activate_thread-pid :
    (fid : ℤ) {p : ℤ} (t : Thread) → t.pid ≡ p → (activate_thread fid t).pid ≡ p
unfolding activate_thread
activate_thread-pid fid t e = e

module _ {cur : Current} {t : Thread} {old new : Fiber} {tg : ThreadGroup}
    (sw : Switching cur t old new tg) (ctx : Context) where
  abbrev locked : Fiber
  locked = record new { flock = true }

  -- The group after the lock was taken and the registers were exchanged.
  abbrev pub switched : ThreadGroup
  switched = hand_over cur ctx old locked t (write_fiber new.fid (λ _. locked) tg)

  old-fid : old.fid ≡ t.current_fid
  old-fid = walk-key Fiber.fid t.current_fid tg.fibers sw.runs

  pub t-pid : t.pid ≡ cur.pid
  t-pid = walk-key Thread.pid cur.pid tg.threads sw.caller

  pub distinct : new.fid ≢ t.current_fid
  distinct = λ e. ground (arith, sw.runs, sw.target, sw.state, sw.live, sw.free)

  -- The group after each write, in order.
  abbrev taken : ThreadGroup
  taken = write_fiber new.fid (λ _. locked) tg

  abbrev activated : ThreadGroup
  activated = write_fiber new.fid (activate_fiber t cur.utime) taken

  abbrev entered : ThreadGroup
  entered = write_thread t.pid (activate_thread new.fid) activated

  pub fiber_at-switched :
      (j : ℤ)
      → fiber_at j switched
        ≡ ite
            (ℤ_discrete j t.current_fid)
            (some (leave_fiber cur ctx old))
            (ite (ℤ_discrete j new.fid) (some (activate_fiber t cur.utime locked)) (fiber_at j tg))
  unfolding hand_over activate
  fiber_at-switched j = ground (
    arith,
    old-fid,
    distinct,
    sw.runs,
    sw.target,
    fiber_at-write_fiber old.fid (leave_fiber cur ctx) (leave_fiber-fid cur ctx) j entered,
    fiber_at-write_thread j t.pid (activate_thread new.fid) activated,
    fiber_at-write_fiber new.fid (activate_fiber t cur.utime) (activate_fiber-fid t cur.utime) j
        taken,
    fiber_at-write_fiber new.fid (λ _. locked) (λ f e. refl) j tg,
  )

  pub thread_at-switched :
      (p : ℤ)
      → thread_at p switched
        ≡ ite (ℤ_discrete p cur.pid) (some (activate_thread new.fid t)) (thread_at p tg)
  unfolding hand_over activate
  thread_at-switched p = ground (
    arith,
    t-pid,
    sw.caller,
    thread_at-write_fiber p old.fid (leave_fiber cur ctx) entered,
    thread_at-write_thread t.pid (activate_thread new.fid) (activate_thread-pid new.fid) p
        activated,
    thread_at-write_fiber p new.fid (activate_fiber t cur.utime) taken,
    thread_at-write_fiber p new.fid (λ _. locked) tg,
  )
