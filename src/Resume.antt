-- ===== src/Resume.antt =====
-- A fiber that no thread runs keeps its registers and its storage through every call of
-- fibers/fiber.c, until a switch enters it and loads exactly these registers.
pub mod Calls
pub mod Leave
pub mod Create
use mathlib.Core.Option
use fibers.Prelude.{
  ℕ, ◌^◌, ◌<◌, ◌≡◌, ◌≢◌, ◌⊎◌, ◌∙◌, sym, subst, inl, inr, refl, ite, true, none, some, ℤ, pos, arith,
  ℤ_discrete, Option-cases,
}
use fibers.Table.Laws.{walk-key}
use fibers.Kernel.{Kernel}
use fibers.Fiber.{Fiber, Fls, Thread, ThreadGroup, Context}
use fibers.Fiber.Macros.{activate_fiber, alloc_context, alloc_stack}
use fibers.Group.{Current, GroupOutcome, done, crash, write_fiber, new_fiber}
use fibers.Group.Lookup.{fiber_at, thread_at, fiber_at-write_fiber}
use fibers.Calls.{refused, leave_fiber, convert_in, create_in, switch_in}
use fibers.Calls.Fls.{on_current, current_fiber}
use fibers.Invariant.{Inv}
use fibers.Invariant.Exchange.{distinct, fiber_at-switched, t-pid}
use fibers.Invariant.Grow.{grown, fiber_at-grown}
use fibers.Invariant.Join.{fiber_at-joined}
use fibers.Switch.{Switches, no_thread, no_fiber, busy, switches, switch_in-Switches}
use fibers.Convert.{Converts, convert_in-Converts, Creates, create_in-Creates}
use fibers.Sound.{current_fiber-walk, current_fiber-none}

-- The fiber `j` of a group is free, with these registers and this storage.
abbrev pub ParkedIn : ℤ → Context → Fls → ThreadGroup → Type 0
ParkedIn j c s tg =
    (f : Fiber) × (fiber_at j tg ≡ some f) × (f.context ≡ c) × (f.fls ≡ s) × (f.info.state ≡ pos 0)

-- After a call of task `cur` it still is; or the call entered it, and the task has its registers.
abbrev pub KeptIn : Current → ℤ → Context → Fls → GroupOutcome → Type 0
KeptIn cur j c s (done r tg ctx) =
    ParkedIn j c s tg
    ⊎ ((ctx ≡ c) × (f : Fiber) × (fiber_at j tg ≡ some f) × (f.fls ≡ s) × (f.info.state ≡ cur.pid))
KeptIn cur j c s crash = Unit

refused-fid : (f x : Fiber) → x.fid ≡ f.fid → (refused f).fid ≡ f.fid
unfolding refused
refused-fid f x e = refl

-- What do_create_fiber writes to the fiber that it has made.
abbrev pub prepared : ℕ → ℕ → ℕ → ℕ → Fiber → Fiber
prepared entry param base size f = alloc_context entry param (alloc_stack base size f)

pub prepared-fid :
    (entry param base size : ℕ) {i : ℤ} (f : Fiber)
    → f.fid ≡ i
    → (prepared entry param base size f).fid ≡ i
unfolding alloc_context alloc_stack
prepared-fid entry param base size f e = e

module _ (j : ℤ) {c : Context} {s : Fls} (tg : ThreadGroup) (p : ParkedIn j c s tg) where
  -- A write to another fiber.
  elsewhere :
      (i : ℤ) (g : Fiber → Fiber)
      → ((f : Fiber) → f.fid ≡ i → (g f).fid ≡ i)
      → j ≢ i
      → ParkedIn j c s (write_fiber i g tg)
  elsewhere i g keeps n =
      let (f, here, regs, fls, free) = p in
      (f, ground (arith, fiber_at-write_fiber i g keeps j tg), regs, fls, free)

  Switches-KeptIn :
      {cur : Current} {i : ℤ} {ctx : Context} {r : GroupOutcome}
      → Switches cur i ctx tg r
      → KeptIn cur j c s r
  unfolding activate_fiber
  Switches-KeptIn (no_thread _) = inl p
  Switches-KeptIn (no_fiber _ _ _) = inl p
  Switches-KeptIn {i = i} (busy t f _ e held) =
      let same : f.fid ≡ i = walk-key Fiber.fid i tg.fibers e in
      let (f', here, regs, fls, free) = p in
      inl (elsewhere f.fid (λ _. refused f) (refused-fid f) (λ q. ground (arith, held)))
  Switches-KeptIn {cur = cur} {ctx = ctx} (switches t old new sw e) =
      let (f, here, regs, fls, free) = p in
      elim (ℤ_discrete j new.fid) [
        | yes q ↦ inr (
          ground (arith, sw.target),
          activate_fiber t cur.utime (record new { flock = true }),
          ground (arith, fiber_at-switched sw ctx j, distinct sw ctx),
          ground (arith, sw.target),
          t-pid sw ctx,
        )
        | no q ↦ inl (
          f,
          ground (arith, fiber_at-switched sw ctx j, sw.runs, sw.state, sw.live),
          regs,
          fls,
          free,
        )
      ]

  Converts-KeptIn :
      {cur : Current} {ctx : Context} {n : ℕ} {inv : Inv n tg} {room : n < 2 ^ 31}
      {live : cur.pid ≢ pos 0} {r : GroupOutcome}
      → Converts cur ctx n tg inv room live r
      → KeptIn cur j c s r
  Converts-KeptIn (Converts.exists _ _) = inl p
  Converts-KeptIn (Converts.no_memory _ _) = tt
  Converts-KeptIn {cur} {ctx} {n} {inv} {room} {live} (Converts.converts block stranger _) =
      let (f, here, regs, fls, free) = p in
      inl (
        f,
        ground (arith, fiber_at-joined inv room cur block ctx stranger live j, inv.range j f here),
        regs,
        fls,
        free,
      )

  Creates-KeptIn :
      {base size entry param : ℕ} {cur : Current} {ctx : Context} {n : ℕ} {r : GroupOutcome}
      → Inv n tg
      → n < 2 ^ 31
      → Creates base size entry param cur ctx n tg r
      → KeptIn cur j c s r
  Creates-KeptIn inv room (Creates.no_thread _) = inl p
  Creates-KeptIn inv room (Creates.no_memory _ _ _) = tt
  Creates-KeptIn {base} {size} {entry} {param} {ctx = ctx} {n = n} inv room
        (Creates.creates t block _ _) =
      let (f, here, regs, fls, free) = p in
      inl (
        f,
        ground (
          arith,
          inv.range j f here,
          fiber_at-grown inv room block t ctx j,
          fiber_at-write_fiber (pos n) (prepared entry param base size)
              (prepared-fid entry param base size) j (grown block t ctx tg),
        ),
        regs,
        fls,
        free,
      )

  on_current-KeptIn :
      (k : Kernel) (cur : Current) (op : Fls → ℤ × Fls) (ctx : Context) {n : ℕ}
      → Inv n tg
      → KeptIn cur j c s (on_current k cur op ctx tg)
  unfolding on_current
  on_current-KeptIn k cur op ctx inv = elim (Option-cases (thread_at cur.pid tg)) [
    | inl e ↦ rw (current_fiber-none k cur.pid tg e, on_current) (inl p)
    | inr (t, e) ↦
        let (live, f, there, runs) = inv.owns cur.pid t e in
        let same : f.fid ≡ t.current_fid = walk-key Fiber.fid t.current_fid tg.fibers there in
        let (f', here, regs, fls, free) = p in
        rw (current_fiber-walk k cur.pid tg e, there, on_current)
          (inl (
            elsewhere f.fid (λ x. record x { fls = (op f.fls).1 }) (λ _ q. q)
              (λ q. ground (arith, live))))
  ]
