-- ===== src/Group/View.antt =====
-- The state of the module seen from outside: the fiber with a given identifier in a process, and the
-- fiber that a task runs; and what a call changes of it.
use fibers.Prelude.{◌≡◌, ◌≢◌, refl, ite, none, some, Option, ℤ, arith, ℤ_discrete}
use fibers.Table.Laws.{walk-modify}
use fibers.Fiber.{Fiber, Thread, ThreadGroup, Context}
use fibers.Group.{Current, World, ret, done, write_group}
use fibers.Group.Lookup.{group_at, thread_at, fiber_at}
use fibers.Calls.{finish}

abbrev pub fiber_in : ℤ → ℤ → World → Option Fiber
fiber_in g j w = elim (group_at g w) [ none ↦ none | some tg ↦ fiber_at j tg ]

-- The state of a task's thread: its process, its record there, and the fiber that this names.
pub record Running (cur : Current) (w : World) : Type 0 where
  pub tg : ThreadGroup
  pub t : Thread
  pub f : Fiber
  pub group : group_at cur.tgid w ≡ some tg
  pub thread : thread_at cur.pid tg ≡ some t
  pub fiber : fiber_at t.current_fid tg ≡ some f

-- The state after a call that ended in `done`.
unfoldable pub finished : Current → World → ThreadGroup → Context → World
finished cur w tg ctx = record {
  groups = write_group tg w.groups;
  cpu = λ p. ite (ℤ_discrete p cur.pid) ctx (w.cpu p);
}

pub finish-done :
    (cur : Current) (w : World) (r : ℤ) (tg : ThreadGroup) (ctx : Context)
    → finish cur w (done r tg ctx) ≡ ret r (finished cur w tg ctx)
unfolding finish finished
finish-done cur w r tg ctx = refl

module _ (cur : Current) (w : World) {g : ℤ} {tg : ThreadGroup} (tg' : ThreadGroup) (ctx : Context)
    (here : group_at g w ≡ some tg) (same : tg'.tgid ≡ g) where
  abbrev w' : World
  w' = finished cur w tg' ctx

  pub group_at-finished : (j : ℤ) → group_at j w' ≡ ite (ℤ_discrete j g) (some tg') (group_at j w)
  unfolding finished write_group
  group_at-finished j =
      ground (arith, walk-modify ThreadGroup.tgid (λ _. tg') tg'.tgid (λ _ _. refl) j w.groups)

  pub fiber_in-finished :
      (i j : ℤ) → fiber_in i j w' ≡ ite (ℤ_discrete i g) (fiber_at j tg') (fiber_in i j w)
  fiber_in-finished i j = ground (arith, group_at-finished i)

pub cpu-finished_self :
    (cur : Current) (w : World) (tg : ThreadGroup) (ctx : Context)
    → (finished cur w tg ctx).cpu cur.pid ≡ ctx
unfolding finished
cpu-finished_self cur w tg ctx = ground arith

pub cpu-finished_ne :
    (cur : Current) (w : World) (tg : ThreadGroup) (ctx : Context) (p : ℤ)
    → p ≢ cur.pid
    → (finished cur w tg ctx).cpu p ≡ w.cpu p
unfolding finished
cpu-finished_ne cur w tg ctx p n = ground arith
