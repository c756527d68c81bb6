-- ===== src/Resume/Create.antt =====
-- A fiber just created is free, with the registers with which it starts.
use fibers.Prelude.{
  ℕ, ◌+◌, ◌<◌, ◌-◌, ◌^◌, ◌≡◌, ◌∙◌, inl, inr, refl, sym, subst, false, none, some, ℤ, pos, arith,
  Option-cases,
}
use fibers.Table.Laws.{walk-key}
use fibers.Kernel.{Kernel}
use fibers.Fiber.{Fiber, Fls, Thread, ThreadGroup, Context}
use fibers.Fiber.Macros.{ulong, alloc_context, alloc_stack}
use fibers.Group.{Current, World, ret, GroupOutcome, new_fiber, write_fiber}
use fibers.Group.Lookup.{group_at, fiber_at, get_group-walk, fiber_at-write_fiber}
use fibers.Group.View.{Running, fiber_in, finished, finish-done, group_at-finished}
use fibers.Calls.{finish, create_in, do_create_fiber}
use fibers.Invariant.{Inv, SoundWorld, SoundOutcome}
use fibers.Invariant.Grow.{grown, fiber_at-grown}
use fibers.Convert.{Creates, create_in-Creates}
use fibers.Resume.{prepared, prepared-fid}
use fibers.Resume.Calls.{Parked, IsUnlocked, finish-crash}
use fibers.Resume.Leave.{ret-injective}
use fibers.Sound.{create_in-Sound}
use fibers.Sound.Calls.{HasRoom, room_left}

abbrev pub no_storage : Fls
no_storage = record { slots = λ _. pos 0; bmp = λ _. false }

-- The registers with which a created fiber starts: those of its creator, but for these four.
abbrev pub start : ℕ → ℕ → ℕ → ℕ → Context → Context
start base size entry param ctx =
    let top = ulong (ulong (base + size) + 2 ^ 64 - 8) in
    record ctx { regs = record (ctx.regs) { ip = entry; di = param; sp = top; bp = top } }

absent : {n : ℕ} {tg : ThreadGroup} → Inv n tg → fiber_at (pos n) tg ≡ none
absent {n} {tg} inv = elim (Option-cases (fiber_at (pos n) tg)) [
  | inl e ↦ e
  | inr (f, e) ↦ absurd (omega (arith, inv.range (pos n) f e))
]

prepared-new :
    (base size entry param : ℕ) (t : Thread) (ctx : Context) (block : Fiber) (fid : ℤ)
    → let f = prepared entry param base size (new_fiber fid t ctx block) in
      (f.context ≡ start base size entry param ctx)
      × (f.fls ≡ no_storage)
      × (f.info.state ≡ pos 0)
      × (f.flock ≡ false)
unfolding new_fiber alloc_context alloc_stack
prepared-new base size entry param t ctx block fid = (refl, refl, refl, refl)

module _ (base size entry param : ℕ) (k : Kernel) (cur : Current) {w w' : World} (sw : SoundWorld w)
    (run : Running cur w) where
  Creates-Parked :
      {n : ℕ} {r : GroupOutcome} {j : ℕ}
      → Inv n run.tg
      → n < 2 ^ 31
      → Creates base size entry param cur (w.cpu cur.pid) n run.tg r
      → SoundOutcome cur.tgid r
      → finish cur w r ≡ ret (pos j) w'
      → (fiber_in cur.tgid (pos j) w ≡ none)
        × Parked cur.tgid (pos j) (start base size entry param (w.cpu cur.pid)) no_storage w'
        × IsUnlocked cur.tgid (pos j) w'
  Creates-Parked inv room (Creates.no_thread e) own h = absurd (ground (arith, run.thread))
  Creates-Parked inv room (Creates.no_memory t e d) own h =
      absurd (ground (arith, finish-crash cur w))
  Creates-Parked {n = n} {j = j} inv room (Creates.creates t block e d) own h =
      let tg' =
        write_fiber (pos n) (prepared entry param base size)
          (grown block t (w.cpu cur.pid) run.tg) in
      let ends : ret (pos n) (finished cur w tg' (w.cpu cur.pid)) ≡ ret (pos j) w' =
        sym (finish-done cur w (pos n) tg' (w.cpu cur.pid)) ∙ h in
      let same : n ≡ j = ground arith in
      let last : finished cur w tg' (w.cpu cur.pid) ≡ w' = ret-injective ends in
      let (regs, fls, free, unlocked) =
        prepared-new base size entry param t (w.cpu cur.pid) block (pos n) in
      let born = fiber_at-grown inv room block t (w.cpu cur.pid) (pos n) in
      let seen =
        fiber_at-write_fiber (pos n) (prepared entry param base size)
          (prepared-fid entry param base size) (pos n) (grown block t (w.cpu cur.pid) run.tg) in
      let at : group_at cur.tgid w' ≡ some tg' =
        subst (λ z. group_at cur.tgid z ≡ some tg') last
          (ground (arith, group_at-finished cur w tg' (w.cpu cur.pid) run.group own.0 cur.tgid)) in
      let f = prepared entry param base size (new_fiber (pos n) t (w.cpu cur.pid) block) in
      let here : fiber_at (pos n) tg' ≡ some f = ground (arith, born, seen) in
      rw (← same) (
        ground (arith, run.group, absent inv),
        (tg', at, (f, here, regs, fls, free)),
        (tg', at, f, here, unlocked),
      )

  -- From a sound state, in a process that has room for a fiber, a creation that returns `j` takes `j`
  -- as an identifier that no fiber of the process has, and leaves under it a free fiber, in the name of no task and with
  -- its lock released, with no storage, whose registers are those of the creator but for the entry point, its argument, and a
  -- stack that begins eight bytes below the end of the block.
  pub do_create_fiber-Parked :
      (j : ℕ)
      → HasRoom cur.tgid w
      → do_create_fiber k cur base size entry param w ≡ ret (pos j) w'
      → (fiber_in cur.tgid (pos j) w ≡ none)
        × Parked cur.tgid (pos j) (start base size entry param (w.cpu cur.pid)) no_storage w'
        × IsUnlocked cur.tgid (pos j) w'
  unfolding do_create_fiber
  do_create_fiber-Parked j room h =
      let (n, inv) = sw.sound cur.tgid run.tg run.group in
      let left = room_left n inv (room run.tg run.group) in
      Creates-Parked inv left
        (create_in-Creates base size entry param k cur (w.cpu cur.pid) run.tg inv left)
        (subst (λ z. SoundOutcome z (create_in k cur base size entry param (w.cpu cur.pid) run.tg))
          (walk-key ThreadGroup.tgid cur.tgid w.groups run.group)
          (create_in-Sound k cur base size entry param (w.cpu cur.pid) run.tg inv left))
        (ground (arith, h, run.group, get_group-walk k cur.tgid w.groups))
