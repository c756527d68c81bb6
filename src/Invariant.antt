-- ===== src/Invariant.antt =====
-- The state of one thread group (fibers/include/fiber.h) between two calls: who runs which fiber,
-- and how locks, states and identifiers agree.
pub mod Quiet
pub mod Exchange
pub mod Grow
pub mod Join
pub mod Switch
use fibers.Prelude.{
  ℕ, zero, suc, ◌^◌, ◌≤◌, ◌<◌, ◌≡◌, ◌≢◌, Bool, not, List, Option, some, ℤ, pos, negsuc, ◌==ℤ◌,
}
use fibers.Table.Unique.{Unique}
use fibers.Fiber.{Fiber, Thread, ThreadGroup}
use fibers.Group.{GroupOutcome, done, crash, World, Outcome, ret, oops}
use fibers.Group.Lookup.{fiber_at, thread_at, group_at}

-- The value of `fid_count` after `n` fibers.
abbrev pub last_fid : ℕ → ℤ
last_fid zero = negsuc 0
last_fid (suc n) = pos n

abbrev pub Below : ℕ → ℤ → Type 0
Below n (pos i) = i < n
Below n (negsuc i) = ⊥

-- A fiber's lock is held exactly while some thread runs it.
abbrev pub LockAgrees : Fiber → Type 0
LockAgrees f = f.flock ≡ not (f.info.state ==ℤ pos 0)

-- The thread's current fiber is there, and carries the thread's pid.
abbrev pub Owns : ThreadGroup → ℤ → Thread → Type 0
Owns tg p t = (p ≢ pos 0) × (f : Fiber) × (fiber_at t.current_fid tg ≡ some f) × (f.info.state ≡ p)

-- The thread whose pid the fiber carries is there, and this is its current fiber.
abbrev pub Held : ThreadGroup → ℤ → Fiber → Type 0
Held tg j f = (t : Thread) × (thread_at f.info.state tg ≡ some t) × (t.current_fid ≡ j)

-- A group with `n` fibers, whose identifiers are 0 to n - 1.
pub record Inv (n : ℕ) (tg : ThreadGroup) : Type 0 where
  pub small : n ≤ 2 ^ 31
  pub count : tg.fid_count ≡ last_fid n
  pub range : (j : ℤ) (f : Fiber) → fiber_at j tg ≡ some f → Below n j
  pub dense : (i : ℕ) → i < n → (f : Fiber) × (fiber_at (pos i) tg ≡ some f)
  pub locks : (j : ℤ) (f : Fiber) → fiber_at j tg ≡ some f → LockAgrees f
  pub owns : (p : ℤ) (t : Thread) → thread_at p tg ≡ some t → Owns tg p t
  pub held : (j : ℤ) (f : Fiber) → fiber_at j tg ≡ some f → f.info.state ≢ pos 0 → Held tg j f

-- Some number of fibers fits.
abbrev pub Sound : ThreadGroup → Type 0
Sound tg = (n : ℕ) × Inv n tg

-- What a call leaves in the group with identifier `g`, if it returns.
abbrev pub SoundOutcome : ℤ → GroupOutcome → Type 0
SoundOutcome g (done r tg ctx) = (tg.tgid ≡ g) × (n : ℕ) × Inv n tg
SoundOutcome g crash = Unit

-- Every group of the module is sound, and no two have the same identifier.
pub record SoundWorld (w : World) : Type 0 where
  pub unique : Unique ThreadGroup.tgid w.groups
  pub sound : (g : ℤ) (tg : ThreadGroup) → group_at g w ≡ some tg → Sound tg

abbrev pub SoundResult : Outcome → Type 0
SoundResult (ret r w) = SoundWorld w
SoundResult oops = Unit
