-- ===== src/Group/Lookup.antt =====
-- The lookups of fibers/fiber.c, seen without the hash, and through the writes to a group.
use mathlib.Core.Option
use fibers.Prelude.{ℤ, ◌≡◌, refl, List, Option, ite, ℤ_discrete}
use fibers.Table.{walk}
use fibers.Table.Laws.{walk-possible, walk-modify}
use fibers.Kernel.{Kernel}
use fibers.Fiber.{Fiber, Thread, ThreadGroup}
use fibers.Group.{World, get_group, get_thread, get_fiber, write_fiber, write_thread}

abbrev pub fiber_at : ℤ → ThreadGroup → Option Fiber
fiber_at j tg = walk Fiber.fid j tg.fibers

abbrev pub thread_at : ℤ → ThreadGroup → Option Thread
thread_at p tg = walk Thread.pid p tg.threads

abbrev pub group_at : ℤ → World → Option ThreadGroup
group_at g w = walk ThreadGroup.tgid g w.groups

-- Whatever the hash function, get_group finds in its chain what a search of the whole table finds.
pub get_group-walk :
    (k : Kernel) (g : ℤ) (groups : List ThreadGroup)
    → get_group k g groups ≡ walk ThreadGroup.tgid g groups
unfolding get_group
get_group-walk k g groups = walk-possible ThreadGroup.tgid k.bucket g groups

-- The same for get_thread.
pub get_thread-walk : (k : Kernel) (p : ℤ) (tg : ThreadGroup) → get_thread k p tg ≡ thread_at p tg
unfolding get_thread
get_thread-walk k p tg = walk-possible Thread.pid k.bucket p tg.threads

-- Whatever the hash function, get_fiber finds in its chain what a search of the whole table finds.
pub get_fiber-walk : (k : Kernel) (j : ℤ) (tg : ThreadGroup) → get_fiber k j tg ≡ fiber_at j tg
unfolding get_fiber
get_fiber-walk k j tg = walk-possible Fiber.fid k.bucket j tg.fibers

module _ (i : ℤ) (g : Fiber → Fiber) (keeps : (f : Fiber) → f.fid ≡ i → (g f).fid ≡ i) where
  pub fiber_at-write_fiber :
      (j : ℤ) (tg : ThreadGroup)
      → fiber_at j (write_fiber i g tg)
        ≡ ite (ℤ_discrete j i) (Option.map g (fiber_at j tg)) (fiber_at j tg)
  unfolding write_fiber
  fiber_at-write_fiber j tg = walk-modify Fiber.fid g i keeps j tg.fibers

module _ (i : ℤ) (g : Thread → Thread) (keeps : (t : Thread) → t.pid ≡ i → (g t).pid ≡ i) where
  pub thread_at-write_thread :
      (j : ℤ) (tg : ThreadGroup)
      → thread_at j (write_thread i g tg)
        ≡ ite (ℤ_discrete j i) (Option.map g (thread_at j tg)) (thread_at j tg)
  unfolding write_thread
  thread_at-write_thread j tg = walk-modify Thread.pid g i keeps j tg.threads

-- A write to one table leaves the other alone.
pub thread_at-write_fiber :
    (p i : ℤ) (g : Fiber → Fiber) (tg : ThreadGroup)
    → thread_at p (write_fiber i g tg) ≡ thread_at p tg
unfolding write_fiber
thread_at-write_fiber p i g tg = refl

pub fiber_at-write_thread :
    (j i : ℤ) (g : Thread → Thread) (tg : ThreadGroup)
    → fiber_at j (write_thread i g tg) ≡ fiber_at j tg
unfolding write_thread
fiber_at-write_thread j i g tg = refl
