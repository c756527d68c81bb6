-- ===== src/Interleaved/Held.antt =====
-- Which fibers a task holds at each place of the calls of fibers/fiber.c, and that a step takes and
-- gives back locks one at a time.
use fibers.Prelude.{
  ℕ, suc, ◌≡◌, ◌<◌, sym, ◌∙◌, ◌⊎◌, inl, Bool, true, false, ◌&&◌, ◌||◌, Option, none, some, arith,
  ltb, ◌==◌,
}
use fibers.Fiber.{Fiber}
use fibers.Fiber.Macros.{activate_fiber, alloc_stack, alloc_context}
use fibers.Calls.{refused}
use fibers.Locking.{IsExclusive, move-IsExclusive}
use fibers.Interleaved.{
  At, outside, made, own_tested, own_entered, created, tested, entered, activated, saved, stopped,
  unlocked, Task, Process, current, save_context, stop_clock, go_on, try_fiber, add_fiber, Step,
  works, converts, creates, switches, goes_on, Reachable, start, step,
}

abbrev pub is_current : Option ℕ → ℕ → Bool
is_current none u = false
is_current (some c) u = c == u

-- Besides its current fiber, a task holds the one that it enters, and then the one that it leaves.
abbrev pub other : At → ℕ → Bool
other outside u = false
other (made f) u = false
other (own_tested f) u = f == u
other (own_entered f) u = f == u
other (created f base size entry param) u = false
other (tested new) u = new == u
other (entered new) u = new == u
other (activated old) u = old == u
other (saved old) u = old == u
other (stopped old) u = old == u
other unlocked u = false

abbrev pub has : Task → ℕ → Bool
has t u = is_current (current t) u || other t.at u

go_on-takes :
    (utime n : ℕ) (t : Task) (fibers : ℕ → Fiber) (u : ℕ)
    → has (go_on utime n t fibers).0 u ≡ true
    → (has t u ≡ true) ⊎ ((fibers u).flock ≡ false)
unfolding go_on
go_on-takes utime n t fibers u p = ground arith

-- A fiber that a task enters or leaves is not its current one, and each that it names is there.
abbrev pub IsPlace : ℕ → At → Option ℕ → Type 0
IsPlace n outside cur = Unit
IsPlace n (made f) cur = (f < n) × (cur ≡ none)
IsPlace n (own_tested f) cur = (f < n) × (cur ≡ none)
IsPlace n (own_entered f) cur = (f < n) × (cur ≡ none)
IsPlace n (created f base size entry param) cur = f < n
IsPlace n (tested new) cur = (new < n) × (is_current cur new ≡ false)
IsPlace n (entered new) cur = (new < n) × (is_current cur new ≡ false)
IsPlace n (activated old) cur = (old < n) × (is_current cur old ≡ false)
IsPlace n (saved old) cur = (old < n) × (is_current cur old ≡ false)
IsPlace n (stopped old) cur = (old < n) × (is_current cur old ≡ false)
IsPlace n unlocked cur = Unit

pub record IsTask (n : ℕ) (t : Task) : Type 0 where
  pub place : IsPlace n t.at (current t)
  pub known : (c : ℕ) → current t ≡ some c → c < n
  pub alone : t.registered ≡ false → (t.at ≡ outside) × (current t ≡ none)

-- The lock of a fiber that is there.
abbrev pub taken : ℕ → (ℕ → Fiber) → ℕ → Bool
taken n fibers u = ltb u n && (fibers u).flock

module _ (utime n : ℕ) (t : Task) (fibers : ℕ → Fiber) (k : IsTask n t) where
  go_on-held :
      ((u : ℕ) → has t u ≡ true → taken n fibers u ≡ true)
      → (u : ℕ) → has (go_on utime n t fibers).0 u ≡ true
      → taken n (go_on utime n t fibers).1 u ≡ true
  unfolding go_on refused activate_fiber alloc_stack alloc_context save_context stop_clock
  go_on-held h u p = ground (arith, h u, k.place, k.known u)

  go_on-keeps :
      (u : ℕ)
      → taken n fibers u ≡ true
      → has t u ≡ false
      → taken n (go_on utime n t fibers).1 u ≡ true
  unfolding go_on refused activate_fiber alloc_stack alloc_context save_context stop_clock
  go_on-keeps u p q = ground arith

  go_on-place : IsPlace n (go_on utime n t fibers).0.at (current (go_on utime n t fibers).0)
  unfolding go_on
  go_on-place = ground (arith, k.place)

  go_on-known : (c : ℕ) → current (go_on utime n t fibers).0 ≡ some c → c < n
  unfolding go_on
  go_on-known c p = ground (arith, k.place, k.known c)

  go_on-alone :
      (go_on utime n t fibers).0.registered ≡ false
      → ((go_on utime n t fibers).0.at ≡ outside) × (current (go_on utime n t fibers).0 ≡ none)
  unfolding go_on
  go_on-alone p = ground (arith, k.alone)

module _ (new n : ℕ) (t : Task) (fibers : ℕ → Fiber) where
  try_fiber-keeps :
      (u : ℕ)
      → taken n fibers u ≡ true
      → has t u ≡ false
      → taken n (try_fiber new t fibers).1 u ≡ true
  unfolding try_fiber refused
  try_fiber-keeps u p q = ground arith

  module _ (out : t.at ≡ outside) where
    try_fiber-takes :
        (u : ℕ)
        → has (try_fiber new t fibers).0 u ≡ true
        → (has t u ≡ true) ⊎ (taken n fibers u ≡ false)
    unfolding try_fiber
    try_fiber-takes u p = ground arith

    module _ (exists : new < n) (h : (u : ℕ) → has t u ≡ true → taken n fibers u ≡ true) where
      try_fiber-held :
          (u : ℕ)
          → has (try_fiber new t fibers).0 u ≡ true
          → taken n (try_fiber new t fibers).1 u ≡ true
      unfolding try_fiber refused
      try_fiber-held u p = ground (arith, h u)

      try_fiber-IsTask : t.registered ≡ true → IsTask n t → IsTask n (try_fiber new t fibers).0
      unfolding try_fiber
      try_fiber-IsTask there k = record {
        place = ground (arith, h new, k.place);
        known = λ c p. ground (arith, k.known c);
        alone = λ p. ground arith;
      }

-- Every lock that a task holds is taken, and held by no other task.
abbrev pub IsHeld : Process → Type 0
IsHeld m = IsExclusive has (IsTask m.fid_count) (taken m.fid_count m.fibers) m.tasks

more_fibers : (n : ℕ) (t : Task) → IsTask n t → IsTask (suc n) t
more_fibers n t k = record {
  place = ground (arith, k.place);
  known = λ c p. omega (arith, k.known c p);
  alone = k.alone;
}

-- A task that adds a fiber takes no lock.
add_fiber-IsHeld :
    (tid : ℕ) (t : Task) (block : Fiber) (m : Process)
    → IsHeld m
    → ((u : ℕ) → has t u ≡ has (m.tasks tid) u)
    → IsTask (suc m.fid_count) t
    → IsHeld (add_fiber tid t block m)
unfolding add_fiber
add_fiber-IsHeld tid t block m h same k = move-IsExclusive has h (record {
  takes = λ u p. inl (sym (same u) ∙ p);
  held = λ u p. ground (arith, same u, h.held tid u);
  keeps = λ u p q. ground arith;
  local = k;
  others = λ a free k'. more_fibers m.fid_count (m.tasks a) k';
})

step-IsHeld : (m m' : Process) → IsHeld m → Step m m' → IsHeld m'
step-IsHeld m m' h (works tid regs out) = move-IsExclusive has h (record {
  takes = λ u p. inl p;
  held = h.held tid;
  keeps = λ u p q. p;
  local = let k = h.local tid in record { place = k.place; known = k.known; alone = k.alone };
  others = λ a free k. k;
})
step-IsHeld m m' h (converts tid block out alone) =
    let k = h.local tid in
    add_fiber-IsHeld tid _ block m h (λ u. ground (arith, k.alone, out))
      (record { place = ground arith; known = λ c p. ground arith; alone = λ p. ground arith })
step-IsHeld m m' h (creates tid base size entry param block out there) =
    let k = h.local tid in
    add_fiber-IsHeld tid _ block m h (λ u. ground (arith, out))
      (record {
        place = ground arith;
        known = λ c p. omega (arith, k.known c p);
        alone = λ p. ground arith;
      })
step-IsHeld m m' h (switches tid new out there exists) =
    let t = m.tasks tid in
    let k = h.local tid in
    move-IsExclusive has h (record {
      takes = λ u p. try_fiber-takes new m.fid_count t m.fibers out u p;
      held = try_fiber-held new m.fid_count t m.fibers out exists (h.held tid);
      keeps = try_fiber-keeps new m.fid_count t m.fibers;
      local = try_fiber-IsTask new m.fid_count t m.fibers out exists (h.held tid) there k;
      others = λ a free k'. k';
    })
step-IsHeld m m' h (goes_on tid utime inside) =
    let t = m.tasks tid in
    let k = h.local tid in
    move-IsExclusive has h (record {
      takes = λ u p. ground (arith, go_on-takes utime m.fid_count t m.fibers u p);
      held = go_on-held utime m.fid_count t m.fibers k (h.held tid);
      keeps = go_on-keeps utime m.fid_count t m.fibers k;
      local = record {
        place = go_on-place utime m.fid_count t m.fibers k;
        known = go_on-known utime m.fid_count t m.fibers k;
        alone = go_on-alone utime m.fid_count t m.fibers k;
      };
      others = λ a free k'. k';
    })

pub reachable-IsHeld : (m : Process) → Reachable m → IsHeld m
reachable-IsHeld m (start s) = record {
  held = λ a u p. ground (arith, s.at a, s.threads a);
  one = λ a b u p q. ground (arith, s.at a, s.threads a);
  local = λ a. record {
    place = ground (arith, s.at a);
    known = λ c p. ground (arith, s.threads a);
    alone = λ p. ground (arith, s.at a, s.threads a);
  };
}
reachable-IsHeld m (step {m = m₀} r s) = step-IsHeld m₀ m (reachable-IsHeld m₀ r) s

-- However the tasks of a process interleave, a fiber that one of them runs, enters or leaves is
-- locked, and no other task runs, enters or leaves it.
pub exclusive_fibers :
    (m : Process)
    → Reachable m
    → (a u : ℕ) → has (m.tasks a) u ≡ true
    → ((m.fibers u).flock ≡ true) × ((b : ℕ) → has (m.tasks b) u ≡ true → a ≡ b)
exclusive_fibers m r a u p =
    let h = reachable-IsHeld m r in (ground (arith, h.held a u p), λ b. h.one a b u p)
