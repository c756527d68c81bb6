-- ===== src/Invariant/Quiet.antt =====
-- A write to one fiber that leaves its identifier, its lock and its state alone keeps the invariant.
use mathlib.Core.Option
use fibers.Prelude.{ite, ℕ, ◌≡◌, ◌≢◌, some, ℤ, pos, arith, ℤ_discrete}
use fibers.Fiber.{Fiber, Thread, ThreadGroup}
use fibers.Group.{write_fiber}
use fibers.Group.Lookup.{fiber_at, thread_at, fiber_at-write_fiber, thread_at-write_fiber}
use fibers.Invariant.{Owns, Held, Inv}

module _ {n : ℕ} {tg : ThreadGroup} (inv : Inv n tg) (i : ℤ) (g : Fiber → Fiber) {old : Fiber}
    (here : fiber_at i tg ≡ some old) (keeps_fid : (f : Fiber) → f.fid ≡ i → (g f).fid ≡ i)
    (keeps_lock : (g old).flock ≡ old.flock)
    (keeps_state : (g old).info.state ≡ old.info.state) where
  abbrev next : ThreadGroup
  next = write_fiber i g tg

  seen :
      (j : ℤ)
      → fiber_at j next ≡ ite (ℤ_discrete j i) (Option.map g (fiber_at j tg)) (fiber_at j tg)
  seen j = fiber_at-write_fiber i g keeps_fid j tg

  -- Each fiber afterwards comes from one before, with the same lock and state.
  before :
      (j : ℤ) (f' : Fiber)
      → fiber_at j next ≡ some f'
      → (f : Fiber) × (fiber_at j tg ≡ some f)
        × (f'.flock ≡ f.flock)
        × (f'.info.state ≡ f.info.state)
  before j f' e = elim (ℤ_discrete j i) [
    | yes p ↦ (old, ground arith, ground (arith, seen j), ground (arith, seen j))
    | no d ↦ (f', ground (arith, seen j), ground arith, ground arith)
  ]

  -- ... and each one before is there afterwards.
  after :
      (j : ℤ) (f : Fiber)
      → fiber_at j tg ≡ some f
      → (f' : Fiber) × (fiber_at j next ≡ some f') × (f'.info.state ≡ f.info.state)
  after j f e = elim (ℤ_discrete j i) [
    | yes p ↦ (g old, ground (arith, seen j), ground arith)
    | no d ↦ (f, ground (arith, seen j), ground arith)
  ]

  after-Owns : (p : ℤ) (t : Thread) → thread_at p next ≡ some t → Owns next p t
  after-Owns p t e =
      let (live, f, there, runs) = inv.owns p t (ground (arith, thread_at-write_fiber p i g tg)) in
      let (f', there', same) = after t.current_fid f there in (live, f', there', ground arith)

  after-Held : (j : ℤ) (f : Fiber) → fiber_at j next ≡ some f → f.info.state ≢ pos 0 → Held next j f
  after-Held j f' e busy =
      let (f, there, _, same) = before j f' e in
      let (t, runs, cur) = inv.held j f there (ground arith) in
      (t, ground (arith, thread_at-write_fiber f'.info.state i g tg), cur)

  pub quiet-Inv : Inv n next
  unfolding write_fiber
  quiet-Inv = record {
    small = inv.small;
    count = inv.count;
    range = λ j f' e. let (f, there, _, _) = before j f' e in inv.range j f there;
    dense = λ j h.
        let (f, there) = inv.dense j h in
        let (f', there', _) = after (pos j) f there in (f', there');
    locks = λ j f' e. let (f, there, _, _) = before j f' e in ground (arith, inv.locks j f there);
    owns = after-Owns;
    held = after-Held;
  }
