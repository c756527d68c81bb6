-- ===== src/Sound/Calls.antt =====
-- Every call of fibers/fiber.c keeps every group of the module sound.
use mathlib.Core.Option
use fibers.Prelude.{
  ℕ, zero, suc, ◌-◌, ◌^◌, ◌<◌, ◌≡◌, ◌≢◌, subst, refl, ite, none, some, [], ◌∷◌, ℤ, pos, arith, inl,
  inr, Option-cases, ℤ_discrete,
}
use fibers.Table.{walk, modify}
use fibers.Table.Laws.{walk-modify}
use fibers.Table.Unique.{modify-Unique}
use fibers.Kernel.{Kernel}
use fibers.Fiber.{ThreadGroup, Fls, no_fibers}
use fibers.Group.{Current, World, GroupOutcome, done, crash, generate_group, write_group}
use fibers.Group.Lookup.{group_at, get_group-walk}
use fibers.Calls.{finish, do_convert_thread_to_fiber, do_create_fiber, do_switch_to_fiber}
use fibers.Calls.Fls.{
  in_group, checked, alloc_slot, get_slot, free_slot, set_slot, do_fls_alloc, do_fls_get_value,
  do_fls_free, do_fls_set_value,
}
use fibers.Invariant.{Inv, SoundOutcome, SoundWorld, SoundResult}
use fibers.Sound.{convert_in-Sound, create_in-Sound, switch_in-Sound, on_current-Sound}

-- The group `g` can have one more fiber before its 32-bit counter wraps.
abbrev pub HasRoom : ℤ → World → Type 0
HasRoom g w = (tg : ThreadGroup) → group_at g w ≡ some tg → tg.fid_count ≢ pos (2 ^ 31 - 1)

pub room_left : (n : ℕ) {tg : ThreadGroup} → Inv n tg → tg.fid_count ≢ pos (2 ^ 31 - 1) → n < 2 ^ 31
room_left zero inv h = omega arith
room_left (suc n) inv h = ground (arith, inv.count, inv.small)

finish-Sound :
    (cur : Current) (w : World) (g : ℤ) (r : GroupOutcome)
    → SoundWorld w
    → SoundOutcome g r
    → SoundResult (finish cur w r)
unfolding finish write_group
finish-Sound cur w g crash s h = tt
finish-Sound cur w g (done r tg ctx) s (same, n, inv) = record {
  unique = modify-Unique ThreadGroup.tgid (λ _. tg) tg.tgid (λ _ _. refl) w.groups s.unique;
  sound = λ j tg' e. elim (ℤ_discrete j tg.tgid) [
    | yes p ↦ let this : tg ≡ tg' = ground (arith, seen j) in (n, subst (Inv n) this inv)
    | no p ↦ s.sound j tg' (ground (arith, seen j))
  ];
}
  where
    seen :
        (j : ℤ)
        → walk ThreadGroup.tgid j (modify ThreadGroup.tgid tg.tgid (λ _. tg) w.groups)
          ≡ ite (ℤ_discrete j tg.tgid) (Option.map (λ _. tg) (group_at j w)) (group_at j w)
    seen j = walk-modify ThreadGroup.tgid (λ _. tg) tg.tgid (λ _ _. refl) j w.groups

-- A group just made has no threads and no fibers.
abbrev pub fresh_group : ℤ → ThreadGroup
fresh_group g = record { tgid = g; fid_count = no_fibers; threads = []; fibers = [] }

pub fresh_group-Inv : (g : ℤ) → Inv 0 (fresh_group g)
unfolding walk
fresh_group-Inv g = record {
  small = omega arith;
  count = refl;
  range = λ j f e. cc;
  dense = λ i h. absurd (omega arith);
  locks = λ j f e. cc;
  owns = λ p t e. cc;
  held = λ j f e busy. cc;
}

fresh_group-Sound :
    (g : ℤ) (w : World)
    → SoundWorld w
    → group_at g w ≡ none
    → SoundWorld (record w { groups = fresh_group g ∷ w.groups })
unfolding walk
fresh_group-Sound g w s new = record {
  unique = (new, s.unique);
  sound = λ j tg e. elim (ℤ_discrete g j) [
    | yes p ↦
        let this : fresh_group g ≡ tg = ground arith in (0, subst (Inv 0) this (fresh_group-Inv g))
    | no p ↦ s.sound j tg (ground arith)
  ];
}

module _ (k : Kernel) (cur : Current) (w : World) (s : SoundWorld w) where
  pub do_switch_to_fiber-Sound : (j : ℤ) → SoundResult (do_switch_to_fiber k cur j w)
  unfolding do_switch_to_fiber
  do_switch_to_fiber-Sound j = elim (Option-cases (group_at cur.tgid w)) [
    | inl e ↦ rw (get_group-walk k cur.tgid w.groups, e, do_switch_to_fiber) s
    | inr (tg, e) ↦
        rw (get_group-walk k cur.tgid w.groups, e, do_switch_to_fiber)
          (finish-Sound cur w tg.tgid _ s
            (switch_in-Sound k cur j (w.cpu cur.pid) tg (s.sound cur.tgid tg e)))
  ]

  pub do_create_fiber-Sound :
      (base size entry param : ℕ)
      → HasRoom cur.tgid w
      → SoundResult (do_create_fiber k cur base size entry param w)
  unfolding do_create_fiber
  do_create_fiber-Sound base size entry param room = elim (Option-cases (group_at cur.tgid w)) [
    | inl e ↦ rw (get_group-walk k cur.tgid w.groups, e, do_create_fiber) s
    | inr (tg, e) ↦
        let (n, inv) = s.sound cur.tgid tg e in
        rw (get_group-walk k cur.tgid w.groups, e, do_create_fiber)
          (finish-Sound cur w tg.tgid _ s (
            create_in-Sound k cur base size entry param (w.cpu cur.pid) tg inv
              (room_left n inv (room tg e))))
  ]

  in_group-Sound : (op : Fls → ℤ × Fls) → SoundResult (in_group k cur op w)
  unfolding in_group
  in_group-Sound op = elim (Option-cases (group_at cur.tgid w)) [
    | inl e ↦ rw (get_group-walk k cur.tgid w.groups, e, in_group) s
    | inr (tg, e) ↦
        rw (get_group-walk k cur.tgid w.groups, e, in_group)
          (finish-Sound cur w tg.tgid _ s
            (on_current-Sound k cur op (w.cpu cur.pid) tg (s.sound cur.tgid tg e)))
  ]

  pub do_fls_alloc-Sound : SoundResult (do_fls_alloc k cur w)
  unfolding do_fls_alloc
  do_fls_alloc-Sound = in_group-Sound (alloc_slot k)

  pub do_fls_get_value-Sound : (i : ℤ) → SoundResult (do_fls_get_value k cur i w)
  unfolding do_fls_get_value
  do_fls_get_value-Sound i = elim (Option-cases (checked i)) [
    | inl e ↦ rw (e, do_fls_get_value) s
    | inr (n, e) ↦ rw (e, do_fls_get_value) (in_group-Sound (get_slot n))
  ]

  pub do_fls_free-Sound : (i : ℤ) → SoundResult (do_fls_free k cur i w)
  unfolding do_fls_free
  do_fls_free-Sound i = elim (Option-cases (checked i)) [
    | inl e ↦ rw (e, do_fls_free) s
    | inr (n, e) ↦ rw (e, do_fls_free) (in_group-Sound (free_slot n))
  ]

  pub do_fls_set_value-Sound : (i v : ℤ) → SoundResult (do_fls_set_value k cur i v w)
  unfolding do_fls_set_value
  do_fls_set_value-Sound i v = elim (Option-cases (checked i)) [
    | inl e ↦ rw (e, do_fls_set_value) s
    | inr (n, e) ↦ rw (e, do_fls_set_value) (in_group-Sound (set_slot n v))
  ]

  pub do_convert_thread_to_fiber-Sound :
      HasRoom cur.tgid w → cur.pid ≢ pos 0 → SoundResult (do_convert_thread_to_fiber k cur w)
  unfolding do_convert_thread_to_fiber generate_group
  do_convert_thread_to_fiber-Sound room live = elim (Option-cases (group_at cur.tgid w)) [
    | inr (tg, e) ↦
        let (n, inv) = s.sound cur.tgid tg e in
        rw (get_group-walk k cur.tgid w.groups, e, do_convert_thread_to_fiber)
          (finish-Sound cur w tg.tgid _ s
            (convert_in-Sound k cur (w.cpu cur.pid) tg inv (room_left n inv (room tg e)) live))
    | inl e ↦ elim (Option-cases cur.group_block) [
      | inl d ↦ rw (get_group-walk k cur.tgid w.groups, e, d, do_convert_thread_to_fiber) tt
      | inr (b, d) ↦
          rw (get_group-walk k cur.tgid w.groups, e, d, do_convert_thread_to_fiber)
            (finish-Sound cur _ cur.tgid _ (fresh_group-Sound cur.tgid w s e) (
              convert_in-Sound k cur (w.cpu cur.pid) (fresh_group cur.tgid)
                (fresh_group-Inv cur.tgid) (omega arith) live))
    ]
  ]
