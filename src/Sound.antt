-- ===== src/Sound.antt =====
-- Every call of fibers/fiber.c keeps the caller's group sound, on every branch.
pub mod Calls
pub mod Cleanup
use fibers.Prelude.{
  ℕ, zero, suc, ◌^◌, ◌<◌, ◌≡◌, ◌≢◌, ◌∙◌, sym, refl, ite, none, some, Option, ℤ, pos, neg, arith,
  inl, inr, Option-cases, ℤ_discrete,
}
use fibers.Table.Laws.{walk-key}
use fibers.Kernel.{Kernel}
use fibers.Fiber.{Fiber, Thread, ThreadGroup, Context, Fls}
use fibers.Fiber.Macros.{alloc_context, alloc_stack}
use fibers.Group.{
  Current, GroupOutcome, done, crash, write_fiber, write_thread, new_fiber, get_thread, get_fiber,
}
use fibers.Group.Lookup.{fiber_at, thread_at, get_thread-walk, get_fiber-walk}
use fibers.Calls.{refused, activate, hand_over, convert_in, create_in, switch_in}
use fibers.Calls.Fls.{current_fiber, on_current}
use fibers.Invariant.{Inv, Sound, SoundOutcome}
use fibers.Invariant.Quiet.{quiet-Inv}
use fibers.Invariant.Grow.{grown, grown-Inv, fiber_at-grown}
use fibers.Invariant.Join.{joined-Inv}
use fibers.Invariant.Switch.{switched-Inv}
use fibers.Switch.{Switches, no_thread, no_fiber, busy, switches, switch_in-Switches}
use fibers.Convert
use fibers.Convert.{Converts, convert_in-Converts, Creates, create_in-Creates}

refused-Inv :
    {n : ℕ} {tg : ThreadGroup} (inv : Inv n tg) (j : ℤ) {f : Fiber}
    → fiber_at j tg ≡ some f
    → Inv n (write_fiber f.fid (λ _. refused f) tg)
unfolding refused
refused-Inv {tg = tg} inv j {f} e =
    let same : f.fid ≡ j = walk-key Fiber.fid j tg.fibers e in
    quiet-Inv inv f.fid (λ _. refused f) {old = f} (ground arith) (λ _ _. refl) refl refl

Switches-Sound :
    {cur : Current} {j : ℤ} {ctx : Context} {tg : ThreadGroup} {r : GroupOutcome} {n : ℕ}
    → Inv n tg
    → Switches cur j ctx tg r
    → SoundOutcome tg.tgid r
unfolding hand_over activate write_fiber write_thread
Switches-Sound {n = n} inv (no_thread _) = (refl, n, inv)
Switches-Sound {n = n} inv (no_fiber _ _ _) = (refl, n, inv)
Switches-Sound {j = j} {n = n} inv (busy t f _ e _) = (refl, n, refused-Inv inv j e)
Switches-Sound {ctx = ctx} {n = n} inv (switches t old new sw _) =
    (refl, n, switched-Inv sw ctx inv)

Converts-Sound :
    {cur : Current} {ctx : Context} {n : ℕ} {tg : ThreadGroup} {inv : Inv n tg} {room : n < 2 ^ 31}
    {live : cur.pid ≢ pos 0} {r : GroupOutcome}
    → Converts cur ctx n tg inv room live r
    → SoundOutcome tg.tgid r
unfolding activate write_fiber write_thread
Converts-Sound {n = n} {inv = inv} (Converts.exists _ _) = (refl, n, inv)
Converts-Sound (Converts.no_memory _ _) = tt
Converts-Sound {cur} {ctx} {n} {tg} {inv} {room} {live} (Converts.converts block stranger _) =
    (refl, suc n, joined-Inv inv room cur block ctx stranger live)

Creates-Sound :
    {base size entry param : ℕ} {cur : Current} {ctx : Context} {n : ℕ} {tg : ThreadGroup}
    {r : GroupOutcome}
    → Inv n tg
    → n < 2 ^ 31
    → Creates base size entry param cur ctx n tg r
    → SoundOutcome tg.tgid r
unfolding new_fiber alloc_context alloc_stack write_fiber
Creates-Sound {n = n} inv room (Creates.no_thread _) = (refl, n, inv)
Creates-Sound inv room (Creates.no_memory _ _ _) = tt
Creates-Sound {base} {size} {entry} {param} {ctx = ctx} {n = n} {tg = tg} inv room
      (Creates.creates t block _ _) =
    (
      refl,
      suc n,
      quiet-Inv (grown-Inv inv room block t ctx) (pos n)
          (λ f. alloc_context entry param (alloc_stack base size f))
          {old = new_fiber (pos n) t ctx block}
          (ground (arith, fiber_at-grown inv room block t ctx (pos n))) (λ f e. e) refl refl,
    )

pub switch_in-Sound :
    (k : Kernel) (cur : Current) (j : ℤ) (ctx : Context) (tg : ThreadGroup)
    → Sound tg
    → SoundOutcome tg.tgid (switch_in k cur j ctx tg)
switch_in-Sound k cur j ctx tg (n, inv) = Switches-Sound inv (switch_in-Switches k cur ctx tg j inv)

pub convert_in-Sound :
    (k : Kernel) (cur : Current) (ctx : Context) (tg : ThreadGroup) {n : ℕ}
    → Inv n tg
    → n < 2 ^ 31
    → cur.pid ≢ pos 0
    → SoundOutcome tg.tgid (convert_in k cur ctx tg)
convert_in-Sound k cur ctx tg inv room live =
    Converts-Sound (convert_in-Converts k cur ctx tg inv room live)

pub create_in-Sound :
    (k : Kernel) (cur : Current) (base size entry param : ℕ) (ctx : Context) (tg : ThreadGroup)
    {n : ℕ}
    → Inv n tg
    → n < 2 ^ 31
    → SoundOutcome tg.tgid (create_in k cur base size entry param ctx tg)
create_in-Sound k cur base size entry param ctx tg inv room =
    Creates-Sound inv room (create_in-Creates base size entry param k cur ctx tg inv room)

-- The lookups of the four FLS calls.
pub current_fiber-walk :
    (k : Kernel) (p : ℤ) (tg : ThreadGroup) {t : Thread}
    → thread_at p tg ≡ some t
    → current_fiber k p tg ≡ fiber_at t.current_fid tg
unfolding current_fiber
current_fiber-walk k p tg {t} e =
    ground (arith, get_thread-walk k p tg, get_fiber-walk k t.current_fid tg)

pub current_fiber-none :
    (k : Kernel) (p : ℤ) (tg : ThreadGroup) → thread_at p tg ≡ none → current_fiber k p tg ≡ none
unfolding current_fiber
current_fiber-none k p tg e = ground (arith, get_thread-walk k p tg)

same_group : (i : ℤ) (g : Fiber → Fiber) (tg : ThreadGroup) → (write_fiber i g tg).tgid ≡ tg.tgid
unfolding write_fiber
same_group i g tg = refl

pub on_current-Sound :
    (k : Kernel) (cur : Current) (op : Fls → ℤ × Fls) (ctx : Context) (tg : ThreadGroup)
    → Sound tg
    → SoundOutcome tg.tgid (on_current k cur op ctx tg)
unfolding on_current
on_current-Sound k cur op ctx tg (n, inv) = elim (Option-cases (thread_at cur.pid tg)) [
  | inl e ↦ rw (current_fiber-none k cur.pid tg e, on_current) (refl, n, inv)
  | inr (t, e) ↦
      let (live, f, there, runs) = inv.owns cur.pid t e in
      let same : f.fid ≡ t.current_fid = walk-key Fiber.fid t.current_fid tg.fibers there in
      rw (current_fiber-walk k cur.pid tg e, there, on_current)
        (
          same_group f.fid _ tg,
          n,
          quiet-Inv inv f.fid (λ g. record g { fls = (op f.fls).1 }) {old = f} (ground arith)
              (λ _ e. e) refl refl,
        )
]
