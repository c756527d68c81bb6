-- ===== src/Invariant/Grow.antt =====
-- The groups that do_convert_thread_to_fiber and do_create_fiber leave: a fiber is added, and in the
-- first case a thread that runs it.
use fibers.Prelude.{
  ℕ, zero, suc, ◌^◌, ◌<◌, ◌≡◌, ◌≢◌, refl, ite, some, ◌∷◌, ℤ, pos, arith, ℤ_discrete, int_suc,
}
use fibers.Table.{walk}
use fibers.Fiber.{Fiber, Thread, ThreadGroup, Context}
use fibers.Group.{new_fiber}
use fibers.Group.Lookup.{fiber_at, thread_at}
use fibers.Invariant.{Inv, last_fid, Owns, Held, LockAgrees, Below}

pub int_suc-last_fid : (n : ℕ) → n < 2 ^ 31 → int_suc (last_fid n) ≡ pos n
int_suc-last_fid zero h = refl
int_suc-last_fid (suc n) h = ground arith

-- The group after generate_fiber.
abbrev pub grown : Fiber → Thread → Context → ThreadGroup → ThreadGroup
grown block t ctx tg =
    let fid = int_suc tg.fid_count in
    record tg { fid_count = fid; fibers = new_fiber fid t ctx block ∷ tg.fibers }

module _ {n : ℕ} {tg : ThreadGroup} (inv : Inv n tg) (room : n < 2 ^ 31) (block : Fiber)
    (t : Thread) (ctx : Context) where
  abbrev next : ThreadGroup
  next = grown block t ctx tg

  pub next-fid : int_suc tg.fid_count ≡ pos n
  next-fid = rw inv.count (int_suc-last_fid n room)

  pub fiber_at-grown :
      (j : ℤ)
      → fiber_at j next
        ≡ ite (ℤ_discrete j (pos n)) (some (new_fiber (pos n) t ctx block)) (fiber_at j tg)
  unfolding walk new_fiber
  fiber_at-grown j = ground (arith, next-fid)

  range_after : (j : ℤ) (f : Fiber) → fiber_at j next ≡ some f → Below (suc n) j
  range_after (pos i) f e = ground (arith, fiber_at-grown (pos i), inv.range (pos i) f)
  range_after j f e = ground (arith, fiber_at-grown j, inv.range j f)

  dense_after : (i : ℕ) → i < suc n → (f : Fiber) × (fiber_at (pos i) next ≡ some f)
  dense_after i h = elim (ℤ_discrete (pos i) (pos n)) [
    | yes p ↦ (new_fiber (pos n) t ctx block, ground (arith, fiber_at-grown (pos i)))
    | no p ↦ let (f, e) = inv.dense i (ground arith) in (f, ground (arith, fiber_at-grown (pos i)))
  ]

  locks_after : (j : ℤ) (f : Fiber) → fiber_at j next ≡ some f → LockAgrees f
  unfolding new_fiber
  locks_after j f e = ground (arith, fiber_at-grown j, inv.locks j f)

  after-Owns : (p : ℤ) (u : Thread) → thread_at p next ≡ some u → Owns next p u
  after-Owns p u e =
      let (live, f, there, runs) = inv.owns p u e in
      (live, f, ground (arith, fiber_at-grown u.current_fid, inv.range u.current_fid f there), runs)

  after-Held : (j : ℤ) (f : Fiber) → fiber_at j next ≡ some f → f.info.state ≢ pos 0 → Held next j f
  unfolding new_fiber
  after-Held j f e busy = inv.held j f (ground (arith, fiber_at-grown j)) busy

  pub grown-Inv : Inv (suc n) next
  grown-Inv = record {
    small = omega arith;
    count = next-fid;
    range = range_after;
    dense = dense_after;
    locks = locks_after;
    owns = after-Owns;
    held = after-Held;
  }
