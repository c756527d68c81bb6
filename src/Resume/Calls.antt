-- ===== src/Resume/Calls.antt =====
-- The same for the whole module: a free fiber of process `g` through any call of any task.
use fibers.Prelude.{
  ℕ, ◌≡◌, ◌≢◌, ◌⊎◌, ◌∙◌, subst, inl, inr, refl, ite, false, none, some, ◌∷◌, ℤ, pos, arith,
  ℤ_discrete, Option-cases,
}
use fibers.Table.{walk}
use fibers.Table.Laws.{walk-key, walk-cons_self}
use fibers.Kernel.{Kernel}
use fibers.Fiber.{Fiber, Fls, ThreadGroup, Context}
use fibers.Group.{Current, World, Outcome, ret, oops, GroupOutcome, done, crash, generate_group}
use fibers.Group.Lookup.{group_at, fiber_at, get_group-walk}
use fibers.Group.View.{finished, finish-done, group_at-finished, cpu-finished_self}
use fibers.Calls.{finish, do_convert_thread_to_fiber, do_create_fiber, do_switch_to_fiber}
use fibers.Calls.Fls.{
  checked, in_group, alloc_slot, get_slot, free_slot, set_slot, do_fls_alloc, do_fls_get_value,
  do_fls_free, do_fls_set_value,
}
use fibers.Invariant.{SoundOutcome, SoundWorld}
use fibers.Switch.{switch_in-Switches}
use fibers.Convert.{convert_in-Converts, create_in-Creates}
use fibers.Sound.{convert_in-Sound, create_in-Sound, switch_in-Sound, on_current-Sound}
use fibers.Sound.Calls.{HasRoom, room_left, fresh_group, fresh_group-Inv}
use fibers.Resume.{
  ParkedIn, KeptIn, Switches-KeptIn, Converts-KeptIn, Creates-KeptIn, on_current-KeptIn,
}

-- Fiber `j` of process `g` is free, with these registers and this storage.
abbrev pub Parked : ℤ → ℤ → Context → Fls → World → Type 0
Parked g j c s w = (tg : ThreadGroup) × (group_at g w ≡ some tg) × ParkedIn j c s tg

-- The lock of fiber `j` of process `g` is released.
abbrev pub IsUnlocked : ℤ → ℤ → World → Type 0
IsUnlocked g j w =
    (tg : ThreadGroup) × (group_at g w ≡ some tg)
    × (f : Fiber) × (fiber_at j tg ≡ some f)
    × (f.flock ≡ false)

-- Task `cur` runs it, with these registers and this storage.
abbrev pub Entered : Current → ℤ → ℤ → Context → Fls → World → Type 0
Entered cur g j c s w =
    (cur.tgid ≡ g)
    × (w.cpu cur.pid ≡ c)
    × (tg : ThreadGroup) × (f : Fiber) × (group_at g w ≡ some tg)
    × (fiber_at j tg ≡ some f)
    × (f.fls ≡ s)
    × (f.info.state ≡ cur.pid)

abbrev pub Kept : Current → ℤ → ℤ → Context → Fls → Outcome → Type 0
Kept cur g j c s (ret r w) = Parked g j c s w ⊎ Entered cur g j c s w
Kept cur g j c s oops = Unit

pub finish-crash : (cur : Current) (w : World) → finish cur w crash ≡ oops
unfolding finish
finish-crash cur w = refl

module _ (g j : ℤ) {c : Context} {s : Fls} (cur : Current) where
  finish-Kept :
      (w : World) {tg : ThreadGroup} (r : GroupOutcome)
      → Parked g j c s w
      → group_at cur.tgid w ≡ some tg
      → SoundOutcome cur.tgid r
      → (ParkedIn j c s tg → KeptIn cur j c s r)
      → Kept cur g j c s (finish cur w r)
  finish-Kept w crash p here sound keep = rw (finish-crash cur w) tt
  finish-Kept w {tg} (done r tg' ctx) (old, there, kept) here (same, _, _) keep =
      rw (finish-done cur w r tg' ctx) (elim (ℤ_discrete cur.tgid g) [
        | no q ↦ inl (old, ground (arith, seen g), kept)
        | yes q ↦
            let this : old ≡ tg = ground arith in
            elim (keep (subst (ParkedIn j c s) this kept)) [
              | inl still ↦ inl (tg', ground (arith, seen g), still)
              | inr (regs, f, at, fls, runs) ↦ inr (
                q,
                cpu-finished_self cur w tg' ctx ∙ regs,
                tg',
                f,
                ground (arith, seen g),
                at,
                fls,
                runs,
              )
            ]
      ])
    where
      seen :
          (i : ℤ)
          → group_at i (finished cur w tg' ctx)
            ≡ ite (ℤ_discrete i cur.tgid) (some tg') (group_at i w)
      seen = group_at-finished cur w tg' ctx here same

  module _ (k : Kernel) (w : World) (sw : SoundWorld w) (p : Parked g j c s w) where
    own :
        (tg : ThreadGroup) (r : GroupOutcome)
        → group_at cur.tgid w ≡ some tg
        → SoundOutcome tg.tgid r
        → SoundOutcome cur.tgid r
    own tg r e h = subst (λ z. SoundOutcome z r) (walk-key ThreadGroup.tgid cur.tgid w.groups e) h

    pub do_switch_to_fiber-Kept : (i : ℤ) → Kept cur g j c s (do_switch_to_fiber k cur i w)
    unfolding do_switch_to_fiber
    do_switch_to_fiber-Kept i = elim (Option-cases (group_at cur.tgid w)) [
      | inl e ↦ rw (get_group-walk k cur.tgid w.groups, e, do_switch_to_fiber) (inl p)
      | inr (tg, e) ↦
          let (n, inv) = sw.sound cur.tgid tg e in
          rw (get_group-walk k cur.tgid w.groups, e, do_switch_to_fiber)
            (finish-Kept w _ p e (own tg _ e (switch_in-Sound k cur i (w.cpu cur.pid) tg (n, inv)))
              (λ q. Switches-KeptIn j tg q (switch_in-Switches k cur (w.cpu cur.pid) tg i inv)))
    ]

    pub do_create_fiber-Kept :
        (base size entry param : ℕ)
        → HasRoom cur.tgid w
        → Kept cur g j c s (do_create_fiber k cur base size entry param w)
    unfolding do_create_fiber
    do_create_fiber-Kept base size entry param room = elim (Option-cases (group_at cur.tgid w)) [
      | inl e ↦ rw (get_group-walk k cur.tgid w.groups, e, do_create_fiber) (inl p)
      | inr (tg, e) ↦
          let (n, inv) = sw.sound cur.tgid tg e in
          let left = room_left n inv (room tg e) in
          let ctx = w.cpu cur.pid in
          rw (get_group-walk k cur.tgid w.groups, e, do_create_fiber)
            (finish-Kept w _ p e
              (own tg _ e (create_in-Sound k cur base size entry param ctx tg inv left))
              (λ q.
                Creates-KeptIn j tg q inv left
                  (create_in-Creates base size entry param k cur ctx tg inv left)))
    ]

    in_group-Kept : (op : Fls → ℤ × Fls) → Kept cur g j c s (in_group k cur op w)
    unfolding in_group
    in_group-Kept op = elim (Option-cases (group_at cur.tgid w)) [
      | inl e ↦ rw (get_group-walk k cur.tgid w.groups, e, in_group) (inl p)
      | inr (tg, e) ↦
          let (n, inv) = sw.sound cur.tgid tg e in
          rw (get_group-walk k cur.tgid w.groups, e, in_group)
            (finish-Kept w _ p e
              (own tg _ e (on_current-Sound k cur op (w.cpu cur.pid) tg (n, inv)))
              (λ q. on_current-KeptIn j tg q k cur op (w.cpu cur.pid) inv))
    ]

    -- Another process's first conversion adds a group in front.
    beside :
        group_at cur.tgid w ≡ none
        → Parked g j c s (record w { groups = fresh_group cur.tgid ∷ w.groups })
    unfolding walk
    beside e = let (tg, there, kept) = p in (tg, ground arith, kept)

    pub do_convert_thread_to_fiber-Kept :
        HasRoom cur.tgid w → cur.pid ≢ pos 0 → Kept cur g j c s (do_convert_thread_to_fiber k cur w)
    unfolding do_convert_thread_to_fiber generate_group
    do_convert_thread_to_fiber-Kept room live = elim (Option-cases (group_at cur.tgid w)) [
      | inr (tg, e) ↦
          let (n, inv) = sw.sound cur.tgid tg e in
          let left = room_left n inv (room tg e) in
          rw (get_group-walk k cur.tgid w.groups, e, do_convert_thread_to_fiber)
            (finish-Kept w _ p e
              (own tg _ e (convert_in-Sound k cur (w.cpu cur.pid) tg inv left live))
              (λ q.
                Converts-KeptIn j tg q
                  (convert_in-Converts k cur (w.cpu cur.pid) tg inv left live)))
      | inl e ↦ elim (Option-cases cur.group_block) [
        | inl d ↦ rw (get_group-walk k cur.tgid w.groups, e, d, do_convert_thread_to_fiber) tt
        | inr (b, d) ↦
            let inv = fresh_group-Inv cur.tgid in
            rw (get_group-walk k cur.tgid w.groups, e, d, do_convert_thread_to_fiber)
              (finish-Kept _ _ (beside e) fresh_group-at
                (convert_in-Sound k cur (w.cpu cur.pid) (fresh_group cur.tgid) inv (omega arith)
                  live)
                (λ q. Converts-KeptIn j (fresh_group cur.tgid) q (
                  convert_in-Converts k cur (w.cpu cur.pid) (fresh_group cur.tgid) inv (omega arith)
                    live)))
      ]
    ]
      where
        fresh_group-at :
            group_at cur.tgid (record w { groups = fresh_group cur.tgid ∷ w.groups })
            ≡ some (fresh_group cur.tgid)
        fresh_group-at =
            walk-cons_self ThreadGroup.tgid cur.tgid (fresh_group cur.tgid) w.groups refl

    -- The storage calls, with and without an index in range.
    pub do_fls_alloc-Kept : Kept cur g j c s (do_fls_alloc k cur w)
    unfolding do_fls_alloc
    do_fls_alloc-Kept = in_group-Kept (alloc_slot k)

    pub do_fls_get_value-Kept : (i : ℤ) → Kept cur g j c s (do_fls_get_value k cur i w)
    unfolding do_fls_get_value
    do_fls_get_value-Kept i = elim (Option-cases (checked i)) [
      | inl e ↦ rw (e, do_fls_get_value) (inl p)
      | inr (n, e) ↦ rw (e, do_fls_get_value) (in_group-Kept (get_slot n))
    ]

    pub do_fls_free-Kept : (i : ℤ) → Kept cur g j c s (do_fls_free k cur i w)
    unfolding do_fls_free
    do_fls_free-Kept i = elim (Option-cases (checked i)) [
      | inl e ↦ rw (e, do_fls_free) (inl p)
      | inr (n, e) ↦ rw (e, do_fls_free) (in_group-Kept (free_slot n))
    ]

    pub do_fls_set_value-Kept : (i v : ℤ) → Kept cur g j c s (do_fls_set_value k cur i v w)
    unfolding do_fls_set_value
    do_fls_set_value-Kept i v = elim (Option-cases (checked i)) [
      | inl e ↦ rw (e, do_fls_set_value) (inl p)
      | inr (n, e) ↦ rw (e, do_fls_set_value) (in_group-Kept (set_slot n v))
    ]
