-- ===== src/Interleaved/States.antt =====
-- The states of the fibers (fibers/fiber.c), when the calls interleave.
use fibers.Prelude.{
  ℕ, ◌≡◌, ◌<◌, refl, sym, ◌∙◌, ap, inl, inr, Bool, true, false, ℤ, pos, arith, ◌==◌, update,
  Bool-cases,
}
use fibers.Fiber.{Fiber}
use fibers.Fiber.Macros.{
  activate_fiber, alloc_stack, alloc_context, prepare_generics, prepare_context, prepare_fls,
  prepare_info,
}
use fibers.Group.{new_fiber}
use fibers.Calls.{refused}
use fibers.Locking.{update-cases}
use fibers.Interleaved.{
  own_tested, own_entered, tested, entered, stopped, Task, Process, save_context, stop_clock, go_on,
  try_fiber, add_fiber, Step, works, converts, creates, switches, goes_on, Reachable, start, step,
}
use fibers.Interleaved.Held.{has, IsTask, taken, IsHeld, reachable-IsHeld}

abbrev pub state_of : (ℕ → Fiber) → ℕ → ℤ
state_of fibers u = (fibers u).info.state

-- The task has fiber `u` locked while it is idle.
abbrev pub reserves : Task → ℕ → Bool
reserves t u = elim t.at [
  | own_tested f ↦ f == u
  | own_entered f ↦ f == u
  | tested new ↦ new == u
  | entered new ↦ new == u
  | stopped old ↦ old == u
  | _ ↦ false
]

pub record IsIdle (m : Process) : Type 0 where
  pub free : (u : ℕ) → u < m.fid_count → (m.fibers u).flock ≡ false → state_of m.fibers u ≡ pos 0
  pub reserved : (a u : ℕ) → reserves (m.tasks a) u ≡ true → state_of m.fibers u ≡ pos 0

reserves-has : (t : Task) (u : ℕ) → reserves t u ≡ true → has t u ≡ true
reserves-has t u p = ground arith

module _ (utime n : ℕ) (t : Task) (fibers : ℕ → Fiber) (u : ℕ) where
  go_on-state : has t u ≡ false → state_of (go_on utime n t fibers).1 u ≡ state_of fibers u
  unfolding go_on refused activate_fiber alloc_stack alloc_context save_context stop_clock
  go_on-state p = ground arith

  module _ (k : IsTask n t) (h : has t u ≡ true → taken n fibers u ≡ true)
      (idle : u < n → (fibers u).flock ≡ false → state_of fibers u ≡ pos 0)
      (reserved : reserves t u ≡ true → state_of fibers u ≡ pos 0) where
    go_on-free :
        u < n
        → ((go_on utime n t fibers).1 u).flock ≡ false
        → state_of (go_on utime n t fibers).1 u ≡ pos 0
    unfolding go_on refused activate_fiber alloc_stack alloc_context save_context stop_clock
    go_on-free less p = ground (arith, k.place)

    go_on-reserves :
        reserves (go_on utime n t fibers).0 u ≡ true → state_of (go_on utime n t fibers).1 u ≡ pos 0
    unfolding go_on refused activate_fiber alloc_stack alloc_context save_context stop_clock
    go_on-reserves p = ground (arith, k.place)

-- Task `tid` becomes `t`, which reserves only idle fibers, and the fibers that another task holds keep
-- their states.
move-reserved :
    (m : Process) (tid : ℕ) (t : Task) (fibers : ℕ → Fiber)
    → IsHeld m
    → IsIdle m
    → ((u : ℕ) → reserves t u ≡ true → state_of fibers u ≡ pos 0)
    → ((u : ℕ)
        → u < m.fid_count
        → has (m.tasks tid) u ≡ false
        → state_of fibers u ≡ state_of m.fibers u)
    → (a u : ℕ) → reserves (update m.tasks tid t a) u ≡ true
    → state_of fibers u ≡ pos 0
move-reserved m tid t fibers h i mine same a u p = elim (update-cases m.tasks tid t a) [
  | inl (_, e) ↦ mine u (sym (ap (λ x. reserves x u) e) ∙ p)
  | inr (ne, e) ↦
      let q = sym (ap (λ x. reserves x u) e) ∙ p in
      let held = reserves-has (m.tasks a) u q in
      elim (Bool-cases (has (m.tasks tid) u)) [
        | inl both ↦ absurd (ne (h.one tid a u both held))
        | inr free ↦ same u (ground (arith, h.held a u held)) free ∙ i.reserved a u q
      ]
]

add_fiber-IsIdle :
    (tid : ℕ) (t : Task) (block : Fiber) (m : Process)
    → IsHeld m
    → IsIdle m
    → ((u : ℕ) → reserves t u ≡ false)
    → IsIdle (add_fiber tid t block m)
unfolding add_fiber new_fiber prepare_generics prepare_context prepare_fls prepare_info
add_fiber-IsIdle tid t block m h i none_yet = record {
  free = λ u less p. ground (arith, i.free u);
  reserved =
      move-reserved m tid t
        (update m.fibers m.fid_count (new_fiber (pos m.fid_count) t.thread t.regs block)) h i
        (λ u p. ground (arith, none_yet u)) (λ u less free. ground arith);
}

step-IsIdle : (m m' : Process) → IsHeld m → IsIdle m → Step m m' → IsIdle m'
unfolding try_fiber refused
step-IsIdle m m' h i (works tid regs out) = record {
  free = i.free;
  reserved =
      move-reserved m tid (record (m.tasks tid) { regs = regs }) m.fibers h i (i.reserved tid)
        (λ u less free. refl);
}
step-IsIdle m m' h i (converts tid block out alone) = add_fiber-IsIdle tid _ block m h i (λ u. refl)
step-IsIdle m m' h i (creates tid base size entry param block out there) =
    add_fiber-IsIdle tid _ block m h i (λ u. refl)
step-IsIdle m m' h i (switches tid new out there exists) = record {
  free = λ u less p. ground (arith, i.free u);
  reserved =
      move-reserved m tid (try_fiber new (m.tasks tid) m.fibers).0
        (try_fiber new (m.tasks tid) m.fibers).1 h i
        (λ u p. ground (arith, i.free new, i.reserved tid u)) (λ u less free. ground arith);
}
step-IsIdle m m' h i (goes_on tid utime inside) =
    let t = m.tasks tid in
    record {
      free = λ u.
          go_on-free utime m.fid_count t m.fibers u (h.local tid) (h.held tid u) (i.free u)
            (i.reserved tid u);
      reserved =
          move-reserved m tid (go_on utime m.fid_count t m.fibers).0
            (go_on utime m.fid_count t m.fibers).1 h i
            (λ u.
              go_on-reserves utime m.fid_count t m.fibers u (h.local tid) (h.held tid u) (i.free u)
                (i.reserved tid u))
            (λ u less. go_on-state utime m.fid_count t m.fibers u);
    }

-- In every process that interleaved steps of tasks can reach, a fiber whose lock is free has state 0,
-- and so has one that a task has locked and not yet activated, or has stopped and not yet unlocked.
pub reachable-IsIdle : (m : Process) → Reachable m → IsIdle m
reachable-IsIdle m (start s) = record {
  free = λ u less p. absurd (ground (arith, s.none_yet));
  reserved = λ a u p. ground (arith, s.at a);
}
reachable-IsIdle m (step {m = m₀} r s) =
    step-IsIdle m₀ m (reachable-IsHeld m₀ r) (reachable-IsIdle m₀ r) s
