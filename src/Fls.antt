-- ===== src/Fls.antt =====
-- The local storage of a fiber (the do_fls_ calls of fibers/fiber.c), seen from the calling task.
pub mod Slots
pub mod Calls
use mathlib.Core.Option
use fibers.Prelude.{
  ℕ, ◌^◌, ◌<◌, ◌≡◌, ◌≢◌, ◌⊎◌, ◌∙◌, sym, subst, inl, inr, refl, ite, true, false, not, none, some, ℤ,
  pos, neg, arith, ℤ_discrete,
}
use fibers.Table.Laws.{walk-key}
use fibers.Kernel.{Kernel}
use fibers.Fiber.{Fiber, Fls, Thread, ThreadGroup, fls_max_size}
use fibers.Group.{Current, World, Outcome, ret, einval, eacces, write_fiber}
use fibers.Group.Lookup.{
  group_at, thread_at, fiber_at, get_group-walk, fiber_at-write_fiber, thread_at-write_fiber,
}
use fibers.Group.View.{
  Running, fiber_in, finished, finish-done, group_at-finished, fiber_in-finished, cpu-finished_self,
  cpu-finished_ne,
}
use fibers.Calls.Fls.{in_group, on_current, current_fiber}
use fibers.Sound.{current_fiber-walk}

-- What a storage call leaves behind: the running fiber has the storage `s`; its group is changed in its
-- fibers only, and there in no other fiber; the other groups and the processors are as they were.
pub record Stores (cur : Current) {w : World} (run : Running cur w) (s : Fls) (w' : World)
    : Type 0 where
  pub running : Running cur w'
  pub same_thread : running.t ≡ run.t
  pub stored : running.f ≡ record (run.f) { fls = s }
  pub others :
      (i j : ℤ) → (i ≢ cur.tgid) ⊎ (j ≢ run.t.current_fid) → fiber_in i j w' ≡ fiber_in i j w
  pub same_group : running.tg ≡ record (run.tg) { fibers = running.tg.fibers }
  pub other_groups : (i : ℤ) → i ≢ cur.tgid → group_at i w' ≡ group_at i w
  pub cpu : (p : ℤ) → w'.cpu p ≡ w.cpu p

module _ (k : Kernel) (cur : Current) {w : World} (run : Running cur w) (op : Fls → ℤ × Fls) where
  open run use {tg, t, f}

  abbrev tg' : ThreadGroup
  tg' = write_fiber f.fid (λ g. record g { fls = (op f.fls).1 }) tg

  abbrev w' : World
  w' = finished cur w tg' (w.cpu cur.pid)

  same_group : tg'.tgid ≡ cur.tgid
  unfolding write_fiber
  same_group = walk-key ThreadGroup.tgid cur.tgid w.groups run.group

  f-fid : f.fid ≡ t.current_fid
  f-fid = walk-key Fiber.fid t.current_fid tg.fibers run.fiber

  in_group-finished : in_group k cur op w ≡ ret (op f.fls).0 w'
  unfolding in_group on_current
  in_group-finished = ground (
    arith,
    run.group,
    run.fiber,
    get_group-walk k cur.tgid w.groups,
    current_fiber-walk k cur.pid tg run.thread,
    finish-done cur w (op f.fls).0 tg' (w.cpu cur.pid),
  )

  running_after : Running cur w'
  running_after = record {
    tg = tg';
    t = t;
    f = record f { fls = (op f.fls).1 };
    group =
        ground (arith, group_at-finished cur w tg' (w.cpu cur.pid) run.group same_group cur.tgid);
    thread = ground (
      arith,
      run.thread,
      thread_at-write_fiber cur.pid f.fid (λ g. record g { fls = (op f.fls).1 }) tg,
    );
    fiber = ground (
      arith,
      f-fid,
      run.fiber,
      fiber_at-write_fiber f.fid (λ g. record g { fls = (op f.fls).1 }) (λ _ e. e) t.current_fid tg,
    );
  }

  others_after : (i j : ℤ) → (i ≢ cur.tgid) ⊎ (j ≢ t.current_fid) → fiber_in i j w' ≡ fiber_in i j w
  others_after i j n = elim (ℤ_discrete i cur.tgid) [
    | yes e ↦ ground (
      arith,
      f-fid,
      run.group,
      group_at-finished cur w tg' (w.cpu cur.pid) run.group same_group i,
      fiber_at-write_fiber f.fid (λ g. record g { fls = (op f.fls).1 }) (λ _ e. e) j tg,
    )
    | no d ↦ ground (arith, group_at-finished cur w tg' (w.cpu cur.pid) run.group same_group i)
  ]

  same_group_after : running_after.tg ≡ record tg { fibers = running_after.tg.fibers }
  unfolding running_after write_fiber
  same_group_after = refl

  -- For a task that runs a fiber, a storage call returns the result of its operation on the fiber's
  -- storage, and changes this storage alone: no other fiber, no thread and no counter of its group, no
  -- other group and no processor.
  pub in_group-Stores :
      (w' : World) × (in_group k cur op w ≡ ret (op f.fls).0 w') × Stores cur run (op f.fls).1 w'
  unfolding running_after
  in_group-Stores = (
    w',
    in_group-finished,
    record {
      running = running_after;
      same_thread = refl;
      stored = refl;
      others = λ i j n. others_after i j n;
      same_group = same_group_after;
      other_groups = λ i d.
          ground (arith, d, group_at-finished cur w tg' (w.cpu cur.pid) run.group same_group i);
      cpu = λ p. elim (ℤ_discrete p cur.pid) [
        | yes e ↦ rw e (cpu-finished_self cur w tg' (w.cpu cur.pid))
        | no n ↦ cpu-finished_ne cur w tg' (w.cpu cur.pid) p n
      ];
    },
  )
