-- ===== src/Switch.antt =====
-- do_switch_to_fiber of fibers/fiber.c: what it does on each branch, in a sound group.
pub mod Enter
use fibers.Prelude.{
  ℕ, ◌≡◌, ◌≢◌, ◌∙◌, sym, refl, true, false, none, some, ℤ, pos, neg, arith, inl, inr, Option-cases,
}
use fibers.Table.Laws.{walk-key}
use fibers.Kernel.{Kernel}
use fibers.Fiber.{Fiber, Thread, ThreadGroup, Context}
use fibers.Fiber.Macros.{activate_fiber}
use fibers.Group.{
  Current, GroupOutcome, done, crash, esrch, eagain, get_thread, get_fiber, write_fiber,
}
use fibers.Group.Lookup.{fiber_at, thread_at, get_thread-walk, get_fiber-walk, fiber_at-write_fiber}
use fibers.Calls.{refused, try_enter, exchange, hand_over, switch_in}
use fibers.Invariant.{Inv}
use fibers.Invariant.Exchange.{Switching, switched, distinct, fiber_at-switched}
use Enter.{try_enter-cases}

-- The four ways in which a switch to fiber `j` ends. `fiber_at` and `thread_at` are the contents of
-- the two tables, whatever the hash.
pub data Switches (cur : Current) (j : ℤ) (ctx : Context) (tg : ThreadGroup)
    : GroupOutcome → Type 0 where
  no_thread : thread_at cur.pid tg ≡ none → Switches cur j ctx tg (done (neg esrch) tg ctx)
  no_fiber :
      (t : Thread)
      → thread_at cur.pid tg ≡ some t
      → fiber_at j tg ≡ none
      → Switches cur j ctx tg (done (neg esrch) tg ctx)
  busy :
      (t : Thread) (f : Fiber)
      → thread_at cur.pid tg ≡ some t
      → fiber_at j tg ≡ some f
      → f.info.state ≢ pos 0
      → Switches cur j ctx tg (done (neg eagain) (write_fiber f.fid (λ _. refused f) tg) ctx)
  switches :
      (t : Thread) (old new : Fiber) (sw : Switching cur t old new tg)
      → new.fid ≡ j
      → Switches cur j ctx tg (done (pos 0) (switched sw ctx) new.context)

module _ (cur : Current) (ctx : Context) (tg : ThreadGroup) where
  exchange-switched :
      {t : Thread} {old new : Fiber} (sw : Switching cur t old new tg)
      → exchange cur ctx old
          (record new { flock = true })
          t
          (write_fiber new.fid (λ _. record new { flock = true }) tg)
        ≡ done (pos 0) (switched sw ctx) new.context
  unfolding exchange activate_fiber
  exchange-switched {new = new} sw =
      ground (arith, fiber_at-switched sw ctx new.fid, distinct sw ctx)

module _ (k : Kernel) (cur : Current) (ctx : Context) (tg : ThreadGroup) where
  switch_in-no_thread :
      (j : ℤ) → thread_at cur.pid tg ≡ none → switch_in k cur j ctx tg ≡ done (neg esrch) tg ctx
  unfolding switch_in
  switch_in-no_thread j e = ground (arith, get_thread-walk k cur.pid tg)

  module _ (j : ℤ) {t : Thread} (e : thread_at cur.pid tg ≡ some t) where
    switch_in-no_fiber : fiber_at j tg ≡ none → switch_in k cur j ctx tg ≡ done (neg esrch) tg ctx
    unfolding switch_in
    switch_in-no_fiber d = ground (arith, get_thread-walk k cur.pid tg, get_fiber-walk k j tg)

    module _ {new : Fiber} (d : fiber_at j tg ≡ some new) where
      switch_in-busy :
          try_enter new ≡ (refused new, false)
          → switch_in k cur j ctx tg
            ≡ done (neg eagain) (write_fiber new.fid (λ _. refused new) tg) ctx
      unfolding switch_in
      switch_in-busy h = ground (arith, get_thread-walk k cur.pid tg, get_fiber-walk k j tg)

      switch_in-free :
          {old : Fiber} (sw : Switching cur t old new tg)
          → try_enter new ≡ (record new { flock = true }, true)
          → switch_in k cur j ctx tg ≡ done (pos 0) (switched sw ctx) new.context
      unfolding switch_in
      switch_in-free sw h = ground (
        arith,
        get_thread-walk k cur.pid tg,
        get_fiber-walk k j tg,
        get_fiber-walk k t.current_fid (write_fiber new.fid (λ _. record new { flock = true }) tg),
        fiber_at-write_fiber new.fid (λ _. record new { flock = true }) (λ f p. refl) t.current_fid
            tg,
        distinct sw ctx,
        sw.runs,
        exchange-switched cur ctx tg sw,
      )

  -- In a sound group a switch to fiber `j` ends in one of four ways: ESRCH and no change, where the
  -- task has no thread in the group or `j` names no fiber; EAGAIN, where `j` is run by a thread, with
  -- its count of failed activations as the only change; or 0, where it is free: then the thread runs
  -- `j`, the task has the registers of `j`, and the fiber that it left is free with the registers of
  -- the call.
  pub switch_in-Switches :
      (j : ℤ) {n : ℕ} → Inv n tg → Switches cur j ctx tg (switch_in k cur j ctx tg)
  switch_in-Switches j inv = elim (Option-cases (thread_at cur.pid tg)) [
    | inl e ↦ rw (switch_in-no_thread j e) (no_thread e)
    | inr (t, e) ↦ elim (Option-cases (fiber_at j tg)) [
      | inl d ↦ rw (switch_in-no_fiber j e d) (no_fiber t e d)
      | inr (new, d) ↦ elim (try_enter-cases new (inv.locks j new d)) [
        | inl (h, free) ↦
            let (live, old, runs, state) = inv.owns cur.pid t e in
            let same : new.fid ≡ j = walk-key Fiber.fid j tg.fibers d in
            let sw : Switching cur t old new tg = record {
              caller = e;
              runs = runs;
              state = state;
              live = live;
              target = ground arith;
              free = free;
            } in
            rw (switch_in-free j e d sw h) (switches t old new sw same)
        | inr (h, held) ↦ rw (switch_in-busy j e d h) (busy t new e d held)
      ]
    ]
  ]
