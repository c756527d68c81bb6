-- ===== src/Device/Resumes.antt =====
-- The registers of a free fiber through any sequence of calls by any tasks of any processes.
use fibers.Prelude.{
  ℕ, ◌≡◌, ◌≢◌, ◌⊎◌, inl, inr, ◌∙◌, subst, none, some, ℤ, pos, arith, ℤ_discrete, Option-cases,
  Bool-cases,
}
use fibers.Kernel.{Kernel}
use fibers.Table.Laws.{walk-delete_ne}
use fibers.Table.Unique.{walk-delete_self}
use fibers.Fiber.{Fiber, Fls, ThreadGroup, Context}
use fibers.Group.{Current, World, Outcome, ret, oops}
use fibers.Group.Lookup.{group_at}
use fibers.Group.View.{fiber_in}
use fibers.Calls.Cleanup.{cleanup_process}
use fibers.Device.{
  UserMemory, Command, convert_thread_to_fiber, create_fiber, switch_to_fiber, fls_alloc,
  fls_get_value, fls_free, fls_set_value, unknown, Answer, answer, faults, answered, copied_out,
  fetch, address, fibers_ioctl, fibers_release,
}
use fibers.Device.Reachable.{Step, ioctl, close, compute, Step-Sound, Outcome-cases}
use fibers.Invariant.{SoundWorld}
use fibers.Resume.Calls.{
  Parked, Entered, Kept, do_switch_to_fiber-Kept, do_create_fiber-Kept,
  do_convert_thread_to_fiber-Kept, do_fls_alloc-Kept, do_fls_get_value-Kept, do_fls_free-Kept,
  do_fls_set_value-Kept,
}
use fibers.Sound.Calls.{HasRoom}
use fibers.Sound.Cleanup.{Cleans, nothing, cleans, use_after_free, cleanup_process-Cleans, without}

abbrev KeptAnswer : Current → ℤ → ℤ → Context → Fls → Answer → Type 0
KeptAnswer cur g j c s (answer r w _) = Parked g j c s w ⊎ Entered cur g j c s w
KeptAnswer cur g j c s faults = Unit

module _ (g j : ℤ) (c : Context) (s : Fls) (cur : Current) where
  answered-Kept : (o : Outcome) → Kept cur g j c s o → KeptAnswer cur g j c s (answered o)
  answered-Kept (ret r w) h = h
  answered-Kept oops h = tt

  copied_out-Kept :
      (u : UserMemory) (a : ℕ) (o : Outcome)
      → Kept cur g j c s o
      → KeptAnswer cur g j c s (copied_out u a o)
  copied_out-Kept u a oops h = tt
  copied_out-Kept u a (ret r w) h = elim (Bool-cases (u.writable a)) [
    | inl e ↦ rw e h
    | inr e ↦ rw e h
  ]

  module _ (k : Kernel) (u : UserMemory) (w : World) (sw : SoundWorld w)
      (p : Parked g j c s w) where
    fibers_ioctl-Kept :
        (cmd : Command) (args : ℕ)
        → HasRoom cur.tgid w
        → cur.pid ≢ pos 0
        → KeptAnswer cur g j c s (fibers_ioctl k u cur cmd args w)
    unfolding fibers_ioctl
    fibers_ioctl-Kept convert_thread_to_fiber args room live =
        answered-Kept _ (do_convert_thread_to_fiber-Kept g j cur k w sw p room live)
    fibers_ioctl-Kept create_fiber args room live =
        elim (Option-cases (fetch u args 32 u.fib_args)) [
          | inl e ↦ rw (e, fibers_ioctl) (inl p)
          | inr (a, e) ↦
              rw (e, fibers_ioctl)
                (answered-Kept _ (
                  do_create_fiber-Kept g j cur k w sw p a.stack_base a.stack_size a.entry_point
                    a.params room))
        ]
    fibers_ioctl-Kept switch_to_fiber args room live = elim (Option-cases (u.fid args)) [
      | inl e ↦ rw (e, fibers_ioctl) (inl p)
      | inr (i, e) ↦
          rw (e, fibers_ioctl) (answered-Kept _ (do_switch_to_fiber-Kept g j cur k w sw p i))
    ]
    fibers_ioctl-Kept fls_alloc args room live =
        answered-Kept _ (do_fls_alloc-Kept g j cur k w sw p)
    fibers_ioctl-Kept fls_get_value args room live =
        elim (Option-cases (fetch u args 16 u.fls_args)) [
          | inl e ↦ rw (e, fibers_ioctl) (inl p)
          | inr (a, e) ↦
              rw (e, fibers_ioctl)
                (copied_out-Kept u (address a.value) _
                  (do_fls_get_value-Kept g j cur k w sw p a.idx))
        ]
    fibers_ioctl-Kept fls_free args room live = elim (Option-cases (fetch u args 16 u.fls_args)) [
      | inl e ↦ rw (e, fibers_ioctl) (inl p)
      | inr (a, e) ↦
          rw (e, fibers_ioctl) (answered-Kept _ (do_fls_free-Kept g j cur k w sw p a.idx))
    ]
    fibers_ioctl-Kept fls_set_value args room live =
        elim (Option-cases (fetch u args 16 u.fls_args)) [
          | inl e ↦ rw (e, fibers_ioctl) (inl p)
          | inr (a, e) ↦
              rw (e, fibers_ioctl)
                (answered-Kept _ (do_fls_set_value-Kept g j cur k w sw p a.idx a.value))
        ]
    fibers_ioctl-Kept unknown args room live = inl p

-- Where the process itself goes away, so does the fiber.
abbrev Outlives : ℤ → ℤ → Context → Fls → World → Type 0
Outlives g j c s w = Parked g j c s w ⊎ (group_at g w ≡ none)

abbrev OutlivesResult : ℤ → ℤ → Context → Fls → Outcome → Type 0
OutlivesResult g j c s (ret r w) = Outlives g j c s w
OutlivesResult g j c s oops = Unit

module _ (g j : ℤ) (c : Context) (s : Fls) (k : Kernel) (w : World) (sw : SoundWorld w)
    (p : Parked g j c s w) where
  Cleans-Outlives : {h : ℤ} {o : Outcome} → Cleans k h w o → OutlivesResult g j c s o
  unfolding without
  Cleans-Outlives (nothing _) = inl p
  Cleans-Outlives {h} (cleans tg at _) = elim (ℤ_discrete g h) [
    | yes e ↦ inr (rw e (walk-delete_self ThreadGroup.tgid h w.groups sw.unique))
    | no n ↦
        let (tg', at', kept) = p in
        inl (tg', walk-delete_ne ThreadGroup.tgid h g w.groups n ∙ at', kept)
  ]
  Cleans-Outlives (use_after_free _ _ _ _) = tt

  fibers_release-Outlives : (cur : Current) → OutlivesResult g j c s (fibers_release k cur w)
  unfolding fibers_release
  fibers_release-Outlives cur = elim (Outcome-cases (cleanup_process k cur.tgid w)) [
    | inl e ↦ rw (e, fibers_release) tt
    | inr (r, w', e) ↦
        rw (e, fibers_release)
          (subst (OutlivesResult g j c s) e (Cleans-Outlives (cleanup_process-Cleans k cur.tgid w)))
  ]

  -- In one step of the system from a sound state a free fiber stays free with its registers and its storage, or a thread
  -- of its process enters it and gets these registers, or its process is cleaned up.
  pub Step-Parked :
      {w' : World}
      → Step k w w'
      → Parked g j c s w'
        ⊎ ((cur : Current) × (cur.pid ≢ pos 0) × Entered cur g j c s w')
        ⊎ (group_at g w' ≡ none)
  Step-Parked (ioctl u cur cmd args room live e) =
      elim (subst (KeptAnswer cur g j c s) e
        (fibers_ioctl-Kept g j c s cur k u w sw p cmd args room live)) [
          | inl still ↦ inl still
          | inr got ↦ inr (inl (cur, live, got))
        ]
  Step-Parked (close cur e) =
      elim (subst (OutlivesResult g j c s) e (fibers_release-Outlives cur)) [
        | inl still ↦ inl still
        | inr gone ↦ inr (inr gone)
      ]
  Step-Parked (compute cpu) = inl p

-- Steps after each of which fiber `j` of process `g` is there and free.
pub data Waits (k : Kernel) (g j : ℤ) (w : World) : World → Type 0 where
  now : Waits k g j w w
  later :
      {w' w'' : World} (f : Fiber)
      → Waits k g j w w'
      → Step k w' w''
      → fiber_in g j w'' ≡ some f
      → f.info.state ≡ pos 0
      → Waits k g j w w''

Waits-Parked :
    {k : Kernel} (g j : ℤ) (c : Context) (s : Fls) {w w' : World}
    → SoundWorld w
    → Parked g j c s w
    → Waits k g j w w'
    → SoundWorld w' × Parked g j c s w'
Waits-Parked g j c s sw p now = (sw, p)
Waits-Parked {k = k} g j c s sw p (later {w' = w'} f ws st here free) =
    let (sw', p') = Waits-Parked g j c s sw p ws in
    (
      Step-Sound sw' st,
      elim (Step-Parked g j c s k w' sw' p' st) [
        | inl still ↦ still
        | inr (inl (cur, live, (_, _, tg, f', at, there, _, runs))) ↦ absurd (ground (arith, live))
        | inr (inr gone) ↦ absurd (ground arith)
      ],
    )

-- A fiber is free in a sound state, and after each of some steps by any tasks. If it is run after one
-- more step, then the task that runs it has exactly the registers that the fiber had, and the fiber
-- has the storage that it had.
pub resumed :
    {k : Kernel} (g j : ℤ) (c : Context) (s : Fls) {w w' w'' : World} (f : Fiber)
    → SoundWorld w
    → Parked g j c s w
    → Waits k g j w w'
    → Step k w' w''
    → fiber_in g j w'' ≡ some f
    → f.info.state ≢ pos 0
    → (cur : Current) × (w''.cpu cur.pid ≡ c) × (f.info.state ≡ cur.pid) × (f.fls ≡ s)
resumed {k} g j c s {w' = w'} f sw p ws st here busy =
    let (sw', p') = Waits-Parked g j c s sw p ws in
    elim (Step-Parked g j c s k w' sw' p' st) [
      | inl (tg, at, (f', there, _, _, free)) ↦ absurd (ground (arith, busy))
      | inr (inl (cur, live, (_, regs, tg, f', at, there, fls, runs))) ↦
          (cur, regs, ground arith, ground arith)
      | inr (inr gone) ↦ absurd (ground arith)
    ]
