-- ===== src/Invariant/Join.antt =====
-- The group that do_convert_thread_to_fiber leaves: a new thread, and a new fiber that it runs.
use fibers.Prelude.{
  ℕ, suc, ◌^◌, ◌<◌, ◌≡◌, ◌≢◌, ◌∙◌, refl, ite, true, none, some, ◌∷◌, ℤ, pos, arith, ℤ_discrete,
}
use fibers.Table.{walk}
use fibers.Fiber.{Fiber, Thread, ThreadGroup, Context, no_fibers}
use fibers.Fiber.Macros.{activate_fiber, activate_thread}
use fibers.Group.{Current, new_fiber, write_fiber, write_thread}
use fibers.Group.Lookup.{
  fiber_at, thread_at, fiber_at-write_fiber, thread_at-write_fiber, fiber_at-write_thread,
  thread_at-write_thread,
}
use fibers.Calls.{activate}
use fibers.Invariant.{Inv, Owns, Held, LockAgrees, Below}
use fibers.Invariant.Exchange.{activate_fiber-fid, activate_thread-pid}
use fibers.Invariant.Grow.{int_suc-last_fid, grown}

-- The caller `p`, which is no thread of the group yet.
module _ {n : ℕ} {tg : ThreadGroup} (inv : Inv n tg) (room : n < 2 ^ 31) (cur : Current)
    (block : Fiber) (ctx : Context) (stranger : thread_at cur.pid tg ≡ none)
    (live : cur.pid ≢ pos 0) where
  abbrev pub joining : Thread
  joining = record { pid = cur.pid; current_fid = no_fibers }

  abbrev with_thread : ThreadGroup
  with_thread = record tg { threads = joining ∷ tg.threads }

  abbrev pub born : Fiber
  born = new_fiber (pos n) joining ctx block

  abbrev locked : Fiber
  locked = record born { flock = true }

  abbrev larger : ThreadGroup
  larger = grown block joining ctx with_thread

  abbrev taken : ThreadGroup
  taken = write_fiber (pos n) (λ _. locked) larger

  abbrev pub joined : ThreadGroup
  joined = activate cur locked joining taken

  fiber_at-larger :
      (j : ℤ) → fiber_at j larger ≡ ite (ℤ_discrete j (pos n)) (some born) (fiber_at j tg)
  unfolding walk new_fiber
  fiber_at-larger j = ground (arith, inv.count, int_suc-last_fid n room)

  pub fiber_at-joined :
      (j : ℤ)
      → fiber_at j joined
        ≡ ite
            (ℤ_discrete j (pos n))
            (some (activate_fiber joining cur.utime locked))
            (fiber_at j tg)
  unfolding activate new_fiber
  fiber_at-joined j = ground (
    arith,
    fiber_at-write_thread j cur.pid (activate_thread (pos n))
        (write_fiber (pos n) (activate_fiber joining cur.utime) taken),
    fiber_at-write_fiber (pos n) (activate_fiber joining cur.utime)
        (activate_fiber-fid joining cur.utime) j taken,
    fiber_at-write_fiber (pos n) (λ _. locked) (λ f e. refl) j larger,
    fiber_at-larger j,
  )

  pub thread_at-joined :
      (p : ℤ)
      → thread_at p joined
        ≡ ite (ℤ_discrete p cur.pid) (some (activate_thread (pos n) joining)) (thread_at p tg)
  unfolding activate new_fiber walk
  thread_at-joined p = ground (
    arith,
    thread_at-write_thread cur.pid (activate_thread (pos n)) (activate_thread-pid (pos n)) p
        (write_fiber (pos n) (activate_fiber joining cur.utime) taken),
    thread_at-write_fiber p (pos n) (activate_fiber joining cur.utime) taken,
    thread_at-write_fiber p (pos n) (λ _. locked) larger,
  )

  range_after : (j : ℤ) (f : Fiber) → fiber_at j joined ≡ some f → Below (suc n) j
  range_after (pos i) f e = ground (arith, fiber_at-joined (pos i), inv.range (pos i) f)
  range_after j f e = ground (arith, fiber_at-joined j, inv.range j f)

  dense_after : (i : ℕ) → i < suc n → (f : Fiber) × (fiber_at (pos i) joined ≡ some f)
  dense_after i h = elim (ℤ_discrete (pos i) (pos n)) [
    | yes p ↦ (activate_fiber joining cur.utime locked, ground (arith, fiber_at-joined (pos i)))
    | no p ↦ let (f, e) = inv.dense i (ground arith) in (f, ground (arith, fiber_at-joined (pos i)))
  ]

  locks_after : (j : ℤ) (f : Fiber) → fiber_at j joined ≡ some f → LockAgrees f
  unfolding activate_fiber
  locks_after j f e = ground (arith, fiber_at-joined j, live, inv.locks j f)

  after-Owns : (p : ℤ) (u : Thread) → thread_at p joined ≡ some u → Owns joined p u
  unfolding activate_fiber activate_thread
  after-Owns p u e = elim (ℤ_discrete p cur.pid) [
    | yes q ↦ (
      ground (arith, live),
      activate_fiber joining cur.utime locked,
      ground (arith, thread_at-joined p, fiber_at-joined (pos n)),
      ground arith,
    )
    | no q ↦
        let (alive, f, there, runs) = inv.owns p u (ground (arith, thread_at-joined p)) in
        (
          alive,
          f,
          ground (arith, fiber_at-joined u.current_fid, inv.range u.current_fid f there),
          runs,
        )
  ]

  after-Held :
      (j : ℤ) (f : Fiber) → fiber_at j joined ≡ some f → f.info.state ≢ pos 0 → Held joined j f
  unfolding activate_fiber activate_thread
  after-Held j f e busy = elim (ℤ_discrete j (pos n)) [
    | yes q ↦ (
      activate_thread (pos n) joining,
      ground (arith, fiber_at-joined j, thread_at-joined f.info.state),
      ground arith,
    )
    | no q ↦
        let (u, there, runs) = inv.held j f (ground (arith, fiber_at-joined j)) busy in
        (u, ground (arith, stranger, thread_at-joined f.info.state), runs)
  ]

  same_count : joined.fid_count ≡ larger.fid_count
  unfolding activate write_fiber write_thread
  same_count = refl

  pub joined-Inv : Inv (suc n) joined
  joined-Inv = record {
    small = omega arith;
    count = same_count ∙ rw inv.count (int_suc-last_fid n room);
    range = range_after;
    dense = dense_after;
    locks = locks_after;
    owns = after-Owns;
    held = after-Held;
  }
