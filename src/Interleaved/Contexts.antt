-- ===== src/Interleaved/Contexts.antt =====
-- The registers of a fiber that no task runs (fibers/fiber.c), when the calls interleave.
use fibers.Prelude.{
  ℕ, suc, ◌≡◌, ◌≤◌, ◌<◌, refl, ◌∙◌, ap, ◌⊎◌, inl, inr, Bool, true, false, not, ◌&&◌, Option, none,
  some, pos, arith, ◌==◌, update, Option-cases,
}
use fibers.Fiber.{Fiber, Context}
use fibers.Fiber.Macros.{activate_fiber, alloc_stack, alloc_context}
use fibers.Calls.{refused}
use fibers.Locking.{update-cases}
use fibers.Locking.Waiting.{IsWaiting, turn-IsWaiting}
use fibers.Interleaved.{
  outside, made, created, tested, entered, activated, saved, stopped, unlocked, Task, Process,
  current, save_context, stop_clock, go_on, try_fiber, add_fiber, Step, works, converts, creates,
  switches, goes_on, Reachable, step, Steps, no_step, then_step,
}
use fibers.Interleaved.States.{state_of, reserves, IsIdle, reachable-IsIdle}
use fibers.Interleaved.Held.{is_current, has, IsTask, taken, IsHeld, reachable-IsHeld}

abbrev pub has_none : Option ℕ → Bool
has_none none = true
has_none (some c) = false

-- The task has locked fiber `u` to switch to it from another one, and is not there yet.
abbrev pub enters : Task → ℕ → Bool
enters t u = elim t.at [
  | tested new ↦ not (has_none (current t)) && new == u
  | entered new ↦ not (has_none (current t)) && new == u
  | activated _ ↦ is_current (current t) u
  | saved _ ↦ is_current (current t) u
  | stopped _ ↦ is_current (current t) u
  | unlocked ↦ is_current (current t) u
  | _ ↦ false
]

-- The task is in the call that makes fiber `u`, and has not locked it or written its context yet.
abbrev pub makes : Task → ℕ → Bool
makes t u = elim t.at [ made f ↦ f == u | created f _ _ _ _ ↦ f == u | _ ↦ false ]

-- Fiber `u` is there, and the call that made it has done its part.
abbrev pub IsReady : ℕ → (ℕ → Task) → ℕ → Type 0
IsReady n tasks u = (u < n) × ((a : ℕ) → makes (tasks a) u ≡ false)

-- The task is outside of the calls, in fiber `u`, with registers `c`; or it has locked `u` to switch to
-- it, while it has no fiber that it could leave.
abbrev pub Back : Task → ℕ → Context → Type 0
Back t u c =
    ((t.at ≡ outside) × (current t ≡ some u) × (t.regs ≡ c))
    ⊎ ((t.at ≡ tested u) × (current t ≡ none))

abbrev pub context_of : (ℕ → Fiber) → ℕ → Context
context_of fibers u = (fibers u).context

-- Fiber `u` is ready, with registers `c`, and is free, or a task is on its way to it (enters).
abbrev pub Waits : ℕ → Context → Process → Type 0
Waits u c m =
    IsWaiting has enters Back (IsReady m.fid_count m.tasks) (taken m.fid_count m.fibers)
      (context_of m.fibers) m.tasks u c

enters-has : (t : Task) (u : ℕ) → enters t u ≡ true → has t u ≡ true
enters-has t u p = ground arith

IsReady-still :
    (n n' : ℕ) (tasks : ℕ → Task) (tid : ℕ) (t : Task) (u : ℕ)
    → n ≤ n'
    → (makes (tasks tid) u ≡ false → u < n → makes t u ≡ false)
    → IsReady n tasks u
    → IsReady n' (update tasks tid t) u
IsReady-still n n' tasks tid t u le same (exists, done) = (
  omega (arith, exists),
  λ a. elim (update-cases tasks tid t a) [
    | inl (_, e) ↦ ap (λ x. makes x u) e ∙ same (done tid) exists
    | inr (_, e) ↦ ap (λ x. makes x u) e ∙ done a
  ],
)

module _ (utime n : ℕ) (t : Task) (fibers : ℕ → Fiber) (k : IsTask n t) (u : ℕ) where
  go_on-makes : makes t u ≡ false → u < n → makes (go_on utime n t fibers).0 u ≡ false
  unfolding go_on
  go_on-makes p q = ground arith

  go_on-context :
      makes t u ≡ false
      → (context_of (go_on utime n t fibers).1 u ≡ context_of fibers u)
        ⊎ ((has t u ≡ true) × (enters t u ≡ false))
  unfolding go_on refused activate_fiber alloc_stack alloc_context save_context stop_clock
  go_on-context p = ground (arith, k.place)

  go_on-free :
      makes t u ≡ false
      → taken n fibers u ≡ false
      → (taken n (go_on utime n t fibers).1 u ≡ false)
        ⊎ (enters (go_on utime n t fibers).0 u ≡ true)
        ⊎ Back (go_on utime n t fibers).0 u (context_of fibers u)
  unfolding go_on refused activate_fiber alloc_stack alloc_context save_context stop_clock
  go_on-free p q = ground (arith, k.place)

  go_on-enters :
      (reserves t u ≡ true → state_of fibers u ≡ pos 0)
      → enters t u ≡ true
      → (enters (go_on utime n t fibers).0 u ≡ true)
        ⊎ Back (go_on utime n t fibers).0 u (context_of fibers u)
  unfolding go_on
  go_on-enters idle p = elim (Option-cases (current t)) [
    | inl e ↦ ground (arith, k.place, idle, e)
    | inr (c, e) ↦ ground (arith, k.place, idle, e, k.known c e)
  ]

-- One step of any task leaves fiber `u` waiting, or takes its task there.
abbrev pub Arrives : ℕ → Context → Process → Type 0
Arrives u c m = (a : ℕ) × Back (m.tasks a) u c

add_fiber-waits :
    (tid : ℕ) (t : Task) (block : Fiber) (m : Process) (u : ℕ) (c : Context)
    → IsHeld m
    → (m.tasks tid).at ≡ outside
    → ((v : ℕ) → v < m.fid_count → makes t v ≡ false)
    → Waits u c m
    → Waits u c (add_fiber tid t block m) ⊎ Arrives u c (add_fiber tid t block m)
unfolding add_fiber
add_fiber-waits tid t block m u c h out new w =
    turn-IsWaiting has enters Back enters-has h
      (record {
        known = λ v.
            IsReady-still m.fid_count (suc m.fid_count) m.tasks tid t v (omega arith) (λ _. new v);
        same = λ v (less, _). ground arith;
        free = λ v (less, _) p. ground arith;
        entering = λ v p. absurd (ground (arith, out));
      })
      u c w

step-waits :
    (m m' : Process) (u : ℕ) (c : Context)
    → IsHeld m
    → IsIdle m
    → Step m m'
    → Waits u c m
    → Waits u c m' ⊎ Arrives u c m'
unfolding try_fiber refused
step-waits m m' u c h i (works tid regs out) w =
    turn-IsWaiting has enters Back enters-has h
      (record {
        known = λ v. IsReady-still m.fid_count m.fid_count m.tasks tid _ v (omega arith) (λ p _. p);
        same = λ v _. inl refl;
        free = λ v _ p. inl p;
        entering = λ v p. inl p;
      })
      u c w
step-waits m m' u c h i (converts tid block out alone) w =
    add_fiber-waits tid _ block m u c h out (λ v less. ground arith) w
step-waits m m' u c h i (creates tid base size entry param block out there) w =
    add_fiber-waits tid _ block m u c h out (λ v less. ground arith) w
step-waits m m' u c h i (switches tid new out there exists) w =
    turn-IsWaiting has enters Back enters-has h
      (record {
        known = λ v.
            IsReady-still m.fid_count m.fid_count m.tasks tid
              (try_fiber new (m.tasks tid) m.fibers).0 v (omega arith) (λ p _. ground (arith, out));
        same = λ v _. ground arith;
        free = λ v _ p. elim (Option-cases (current (m.tasks tid))) [
          | inl e ↦ ground (arith, e)
          | inr (from, e) ↦ ground (arith, e)
        ];
        entering = λ v p. absurd (ground (arith, out));
      })
      u c w
step-waits m m' u c h i (goes_on tid utime inside) w =
    let t = m.tasks tid in
    let k = h.local tid in
    turn-IsWaiting has enters Back enters-has h
      (record {
        known = λ v.
            IsReady-still m.fid_count m.fid_count m.tasks tid (go_on utime m.fid_count t m.fibers).0
              v (omega arith) (go_on-makes utime m.fid_count t m.fibers k v);
        same = λ v (_, done). go_on-context utime m.fid_count t m.fibers k v (done tid);
        free = λ v (_, done). go_on-free utime m.fid_count t m.fibers k v (done tid);
        entering = λ v. go_on-enters utime m.fid_count t m.fibers k v (i.reserved tid v);
      })
      u c w

pub steps-Reachable : {m m' : Process} → Reachable m → Steps m m' → Reachable m'
steps-Reachable r no_step = r
steps-Reachable r (then_step ss s) = step (steps-Reachable r ss) s

-- However the tasks of a process interleave: from a reachable state in which a fiber is ready (IsReady),
-- and free or about to be entered by a task that has a fiber, any steps keep it so, with its registers;
-- or on the way a task is in it and outside of the calls, with exactly these registers; or on the way a
-- task that has no fiber, as its do_convert_thread_to_fiber has failed, has locked it.
pub resumed_fiber :
    (m m' : Process) (u : ℕ) (c : Context)
    → Reachable m
    → Waits u c m
    → Steps m m'
    → Waits u c m' ⊎ ((mid : Process) × Steps m mid × Steps mid m' × Arrives u c mid)
resumed_fiber m m' u c r w no_step = inl w
resumed_fiber m m' u c r w (then_step {m' = m₁} ss s) = advance (resumed_fiber m m₁ u c r w ss)
  where
    r₁ : Reachable m₁
    r₁ = steps-Reachable r ss

    advance :
        Waits u c m₁ ⊎ ((mid : Process) × Steps m mid × Steps mid m₁ × Arrives u c mid)
        → Waits u c m' ⊎ ((mid : Process) × Steps m mid × Steps mid m' × Arrives u c mid)
    advance (inr (mid, before, after, back)) = inr (mid, before, then_step after s, back)
    advance (inl w₁) =
        elim (step-waits m₁ m' u c (reachable-IsHeld m₁ r₁) (reachable-IsIdle m₁ r₁) s w₁) [
          | inl w' ↦ inl w'
          | inr back ↦ inr (m', then_step ss s, no_step, back)
        ]
