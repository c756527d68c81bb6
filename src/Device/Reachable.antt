-- ===== src/Device/Reachable.antt =====
-- The module under any sequence of calls by any tasks, with user code between them that changes its
-- own registers at will.
use fibers.Prelude.{
  ℕ, ◌≡◌, ◌≢◌, refl, true, some, [], ℤ, pos, arith, ◌⊎◌, subst, inl, inr, Option-cases, Bool-cases,
  List,
}
use fibers.Table.{walk}
use fibers.Kernel.{Kernel}
use fibers.Fiber.{Fiber, Thread, ThreadGroup, Context}
use fibers.Group.{Current, World, Outcome, ret, oops}
use fibers.Group.Lookup.{group_at, thread_at, fiber_at}
use fibers.Device.{
  UserMemory, Command, convert_thread_to_fiber, create_fiber, switch_to_fiber, fls_alloc,
  fls_get_value, fls_free, fls_set_value, unknown, Answer, answer, faults, answered, copied_out,
  fetch, address, fibers_ioctl, fibers_release,
}
use fibers.Calls.Cleanup.{cleanup_process}
use fibers.Invariant.{SoundWorld, SoundResult}
use fibers.Sound.Calls.{
  HasRoom, do_convert_thread_to_fiber-Sound, do_create_fiber-Sound, do_switch_to_fiber-Sound,
  do_fls_alloc-Sound, do_fls_get_value-Sound, do_fls_free-Sound, do_fls_set_value-Sound,
}
use fibers.Sound.Cleanup.{cleanup_process-Sound}

abbrev SoundAnswer : Answer → Type 0
SoundAnswer (answer r w _) = SoundWorld w
SoundAnswer faults = Unit

answered-Sound : (o : Outcome) → SoundResult o → SoundAnswer (answered o)
answered-Sound (ret r w) s = s
answered-Sound oops s = tt

copied_out-Sound :
    (u : UserMemory) (a : ℕ) (o : Outcome) → SoundResult o → SoundAnswer (copied_out u a o)
copied_out-Sound u a (ret r w) s = elim (Bool-cases (u.writable a)) [
  | inl e ↦ rw e s
  | inr e ↦ rw e s
]
copied_out-Sound u a oops s = tt

pub Outcome-cases : (o : Outcome) → (o ≡ oops) ⊎ ((r : ℤ) × (w : World) × (o ≡ ret r w))
Outcome-cases (ret r w) = inr (r, w, refl)
Outcome-cases oops = inl refl

module _ (k : Kernel) (u : UserMemory) (cur : Current) (w : World) (s : SoundWorld w) where
  -- Every command keeps every group sound, whatever the arguments and the caller's memory are.
  pub fibers_ioctl-Sound :
      (c : Command) (args : ℕ)
      → HasRoom cur.tgid w
      → cur.pid ≢ pos 0
      → SoundAnswer (fibers_ioctl k u cur c args w)
  unfolding fibers_ioctl
  fibers_ioctl-Sound convert_thread_to_fiber args room live =
      answered-Sound _ (do_convert_thread_to_fiber-Sound k cur w s room live)
  fibers_ioctl-Sound create_fiber args room live =
      elim (Option-cases (fetch u args 32 u.fib_args)) [
        | inl e ↦ rw (e, fibers_ioctl) s
        | inr (a, e) ↦
            rw (e, fibers_ioctl)
              (answered-Sound _ (
                do_create_fiber-Sound k cur w s a.stack_base a.stack_size a.entry_point a.params
                  room))
      ]
  fibers_ioctl-Sound switch_to_fiber args room live = elim (Option-cases (u.fid args)) [
    | inl e ↦ rw (e, fibers_ioctl) s
    | inr (j, e) ↦ rw (e, fibers_ioctl) (answered-Sound _ (do_switch_to_fiber-Sound k cur w s j))
  ]
  fibers_ioctl-Sound fls_alloc args room live = answered-Sound _ (do_fls_alloc-Sound k cur w s)
  fibers_ioctl-Sound fls_get_value args room live =
      elim (Option-cases (fetch u args 16 u.fls_args)) [
        | inl e ↦ rw (e, fibers_ioctl) s
        | inr (a, e) ↦
            rw (e, fibers_ioctl)
              (copied_out-Sound u (address a.value) _ (do_fls_get_value-Sound k cur w s a.idx))
      ]
  fibers_ioctl-Sound fls_free args room live = elim (Option-cases (fetch u args 16 u.fls_args)) [
    | inl e ↦ rw (e, fibers_ioctl) s
    | inr (a, e) ↦ rw (e, fibers_ioctl) (answered-Sound _ (do_fls_free-Sound k cur w s a.idx))
  ]
  fibers_ioctl-Sound fls_set_value args room live =
      elim (Option-cases (fetch u args 16 u.fls_args)) [
        | inl e ↦ rw (e, fibers_ioctl) s
        | inr (a, e) ↦
            rw (e, fibers_ioctl) (answered-Sound _ (do_fls_set_value-Sound k cur w s a.idx a.value))
      ]
  fibers_ioctl-Sound unknown args room live = s

module _ (k : Kernel) (cur : Current) (w : World) (s : SoundWorld w) where
  fibers_release-Sound : SoundResult (fibers_release k cur w)
  unfolding fibers_release
  fibers_release-Sound = elim (Outcome-cases (cleanup_process k cur.tgid w)) [
    | inl e ↦ rw (e, fibers_release) tt
    | inr (r, w', e) ↦
        rw (e, fibers_release) (subst SoundResult e (cleanup_process-Sound k cur.tgid w s))
  ]

-- One step of the system: a task calls into the module, closes the device, or user code runs and
-- leaves any registers behind.
pub data Step (k : Kernel) (w : World) : World → Type 0 where
  ioctl :
      (u : UserMemory) (cur : Current) (c : Command) (args : ℕ) {r : ℤ} {w' : World}
      {out : List (ℕ × ℤ)}
      → HasRoom cur.tgid w
      → cur.pid ≢ pos 0
      → fibers_ioctl k u cur c args w ≡ answer r w' out
      → Step k w w'
  close : (cur : Current) {r : ℤ} {w' : World} → fibers_release k cur w ≡ ret r w' → Step k w w'
  compute : (cpu : ℤ → Context) → Step k w (record w { cpu = cpu })

pub data Reach (k : Kernel) : World → Type 0 where
  loaded : (cpu : ℤ → Context) → Reach k (record { groups = []; cpu = cpu })
  next : {w w' : World} → Reach k w → Step k w w' → Reach k w'

pub Step-Sound : {k : Kernel} {w w' : World} → SoundWorld w → Step k w w' → SoundWorld w'
Step-Sound {k} {w} s (ioctl u cur c args room live e) =
    subst SoundAnswer e (fibers_ioctl-Sound k u cur w s c args room live)
Step-Sound {k} {w} s (close cur e) = subst SoundResult e (fibers_release-Sound k cur w s)
Step-Sound s (compute cpu) = record { unique = s.unique; sound = s.sound }

loaded-Sound : (cpu : ℤ → Context) → SoundWorld (record { groups = []; cpu = cpu })
unfolding walk
loaded-Sound cpu = record { unique = tt; sound = λ g tg e. cc }

-- Every state that is reached from the loaded module by calls of any tasks is sound: the
-- identifiers of a group's fibers are 0 to n - 1, a fiber is locked exactly while a thread runs it,
-- and a thread and the fiber that it runs name each other.
pub Reach-Sound : {k : Kernel} {w : World} → Reach k w → SoundWorld w
Reach-Sound (loaded cpu) = loaded-Sound cpu
Reach-Sound (next r st) = Step-Sound (Reach-Sound r) st

-- In every reachable state, if two threads of a process run the same fiber then they are one
-- thread, the fiber carries its pid, and the fiber is locked.
pub exclusive :
    {k : Kernel} {w : World}
    → Reach k w
    → (g p q : ℤ) (tg : ThreadGroup) (t u : Thread) → group_at g w ≡ some tg
    → thread_at p tg ≡ some t
    → thread_at q tg ≡ some u
    → t.current_fid ≡ u.current_fid
    → (p ≡ q)
      × (f : Fiber) × (fiber_at t.current_fid tg ≡ some f)
      × (f.info.state ≡ p)
      × (f.flock ≡ true)
exclusive r g p q tg t u here e d same =
    let (n, inv) = (Reach-Sound r).sound g tg here in
    let (live, f, there, runs) = inv.owns p t e in
    let (_, f', there', runs') = inv.owns q u d in
    (ground arith, f, there, runs, ground (arith, inv.locks t.current_fid f there))
