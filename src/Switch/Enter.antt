-- ===== src/Switch/Enter.antt =====
-- The test of the lock and the state of a fiber, where these agree.
use fibers.Prelude.{◌≡◌, ◌≢◌, ◌⊎◌, inl, inr, true, false, pos, arith, ℤ_discrete}
use fibers.Fiber.{Fiber}
use fibers.Calls.{refused, try_enter}
use fibers.Invariant.{LockAgrees}

-- A free fiber is locked and may be entered; a busy one only counts the attempt.
pub try_enter-cases :
    (f : Fiber)
    → LockAgrees f
    → ((try_enter f ≡ (record f { flock = true }, true)) × (f.info.state ≡ pos 0))
      ⊎ ((try_enter f ≡ (refused f, false)) × (f.info.state ≢ pos 0))
unfolding try_enter
try_enter-cases f h = elim (ℤ_discrete f.info.state (pos 0)) [
  | yes p ↦ inl (ground arith, p)
  | no p ↦ inr (ground arith, p)
]
