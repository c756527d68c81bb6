-- ===== src/Sound/Cleanup.antt =====
-- cleanup_process and cleanup_all of fibers/fiber.c.
use mathlib.Core.Bool.{false≢true}
use fibers.Prelude.{
  sym, ◌∙◌, Bool-cases, ◌≡◌, ◌≢◌, refl, true, false, none, some, List, [], ◌∷◌, ℤ, pos, arith, inl,
  inr, ◌⊎◌, Option-cases, ℤ_discrete,
}
use fibers.Table.{walk, delete}
use fibers.Table.Laws.{walk-delete_ne, walk-key}
use fibers.Table.Unique.{delete-Unique, walk-delete_self}
use fibers.Kernel.{Kernel}
use fibers.Fiber.{ThreadGroup}
use fibers.Group.{World, Outcome, ret, oops}
use fibers.Group.Lookup.{group_at, get_group-walk}
use fibers.Calls.Cleanup.{free_nodes, free_group, cleanup_process, cleanup_each, cleanup_all}
use fibers.Invariant.{SoundWorld, SoundResult}

-- What is left after the group `g` is deleted.
unfoldable pub without : ℤ → World → World
without g w = record w { groups = delete ThreadGroup.tgid g w.groups }

pub without-Sound : (g : ℤ) (w : World) → SoundWorld w → SoundWorld (without g w)
unfolding without
without-Sound g w s = record {
  unique = delete-Unique ThreadGroup.tgid g w.groups s.unique;
  sound = λ j tg e. elim (ℤ_discrete j g) [
    | yes p ↦ ground (arith, walk-delete_self ThreadGroup.tgid g w.groups s.unique)
    | no p ↦ s.sound j tg (ground (arith, walk-delete_ne ThreadGroup.tgid g j w.groups p))
  ];
}

module _ {ℓ} {A : Type ℓ} where
  free_nodes-readable : (xs : List A) → free_nodes true xs ≡ true
  unfolding free_nodes
  free_nodes-readable [] = refl
  free_nodes-readable (x ∷ xs) = free_nodes-readable xs

  free_nodes-freed : (xs : List A) → xs ≢ [] → free_nodes false xs ≡ false
  unfolding free_nodes
  free_nodes-freed [] h = absurd (h refl)
  free_nodes-freed (x ∷ xs) h = refl

  List-cases : (xs : List A) → (xs ≡ []) ⊎ (xs ≢ [])
  List-cases [] = inl refl
  List-cases (x ∷ xs) = inr (λ e. cc)

module _ (k : Kernel) (tg : ThreadGroup) (w : World) where
  free_group-readable :
      k.freed_readable ≡ true → free_group k tg w ≡ ret (pos 0) (without tg.tgid w)
  unfolding free_group without
  free_group-readable r =
      ground (arith, free_nodes-readable tg.threads, free_nodes-readable tg.fibers)

  free_group-empty :
      tg.threads ≡ [] → tg.fibers ≡ [] → free_group k tg w ≡ ret (pos 0) (without tg.tgid w)
  unfolding free_group without free_nodes
  free_group-empty t f = ground arith

  free_group-freed :
      k.freed_readable ≡ false → (tg.threads ≢ []) ⊎ (tg.fibers ≢ []) → free_group k tg w ≡ oops
  unfolding free_group
  free_group-freed r (inl h) = ground (arith, free_nodes-freed tg.threads h)
  free_group-freed r (inr h) = ground (arith, free_nodes-freed tg.fibers h)

-- The ways in which the cleanup of process `g` ends.
pub data Cleans (k : Kernel) (g : ℤ) (w : World) : Outcome → Type 0 where
  nothing : group_at g w ≡ none → Cleans k g w (ret (pos 0) w)
  cleans :
      (tg : ThreadGroup)
      → group_at g w ≡ some tg
      → (k.freed_readable ≡ true) ⊎ ((tg.threads ≡ []) × (tg.fibers ≡ []))
      → Cleans k g w (ret (pos 0) (without g w))
  use_after_free :
      (tg : ThreadGroup)
      → group_at g w ≡ some tg
      → k.freed_readable ≡ false
      → (tg.threads ≢ []) ⊎ (tg.fibers ≢ [])
      → Cleans k g w oops

module _ (k : Kernel) where
  free_group-Cleans :
      (g : ℤ) (tg : ThreadGroup) (w : World)
      → group_at g w ≡ some tg
      → Cleans k g w (free_group k tg w)
  free_group-Cleans g tg w e =
      let same : tg.tgid ≡ g = walk-key ThreadGroup.tgid g w.groups e in
      elim (Bool-cases k.freed_readable) [
        | inl r ↦ rw (free_group-readable k tg w r, same) (cleans tg e (inl r))
        | inr r ↦ elim (List-cases tg.threads) [
          | inr t ↦ rw (free_group-freed k tg w r (inl t)) (use_after_free tg e r (inl t))
          | inl t ↦ elim (List-cases tg.fibers) [
            | inr f ↦ rw (free_group-freed k tg w r (inr f)) (use_after_free tg e r (inr f))
            | inl f ↦ rw (free_group-empty k tg w t f, same) (cleans tg e (inr (t, f)))
          ]
        ]
      ]

  -- The cleanup of a process ends in one of these ways.
  pub cleanup_process-Cleans : (g : ℤ) (w : World) → Cleans k g w (cleanup_process k g w)
  unfolding cleanup_process
  cleanup_process-Cleans g w = elim (Option-cases (group_at g w)) [
    | inl e ↦ rw (get_group-walk k g w.groups, e, cleanup_process) (nothing e)
    | inr (tg, e) ↦
        rw (get_group-walk k g w.groups, e, cleanup_process) (free_group-Cleans g tg w e)
  ]

  Cleans-Sound : {g : ℤ} {w : World} {r : Outcome} → SoundWorld w → Cleans k g w r → SoundResult r
  Cleans-Sound s (nothing _) = s
  Cleans-Sound {g} {w} s (cleans _ _ _) = without-Sound g w s
  Cleans-Sound s (use_after_free _ _ _ _) = tt

  pub cleanup_process-Sound :
      (g : ℤ) (w : World) → SoundWorld w → SoundResult (cleanup_process k g w)
  cleanup_process-Sound g w s = Cleans-Sound s (cleanup_process-Cleans g w)

  -- From a sound state, while freed memory can still be read, the cleanup of process `g` succeeds, the group of `g` is gone
  -- afterwards and no other is touched.
  pub cleanup_process-removes :
      (g j : ℤ) (w : World)
      → SoundWorld w
      → k.freed_readable ≡ true
      → j ≢ g
      → (w' : World) × (cleanup_process k g w ≡ ret (pos 0) w')
        × (group_at g w' ≡ none)
        × (group_at j w' ≡ group_at j w)
  unfolding without
  cleanup_process-removes g j w s r n = go (cleanup_process-Cleans g w)
    where
      go :
          {o : Outcome}
          → Cleans k g w o
          → (w' : World) × (o ≡ ret (pos 0) w')
            × (group_at g w' ≡ none)
            × (group_at j w' ≡ group_at j w)
      go (nothing e) = (w, refl, e, refl)
      go (cleans tg e _) = (
        without g w,
        refl,
        walk-delete_self ThreadGroup.tgid g w.groups s.unique,
        walk-delete_ne ThreadGroup.tgid g j w.groups n,
      )
      go (use_after_free tg e f _) = absurd (false≢true (sym f ∙ r))

  cleanup_process-ends :
      (tg : ThreadGroup) (w : World)
      → k.freed_readable ≡ true
      → group_at tg.tgid w ≡ some tg
      → cleanup_process k tg.tgid w ≡ ret (pos 0) (without tg.tgid w)
  unfolding cleanup_process
  cleanup_process-ends tg w r e =
      ground (arith, get_group-walk k tg.tgid w.groups, free_group-readable k tg w r)

  cleanup_each-empties :
      (gs : List ThreadGroup) (w : World)
      → k.freed_readable ≡ true
      → w.groups ≡ gs
      → cleanup_each k gs w ≡ ret (pos 0) (record w { groups = [] })
  unfolding cleanup_each without delete walk
  cleanup_each-empties [] w r e = ground arith
  cleanup_each-empties (tg ∷ gs) w r e =
      let rest : (without tg.tgid w).groups ≡ gs = ground arith in
      ground (
        arith,
        cleanup_process-ends tg w r (ground arith),
        cleanup_each-empties gs (without tg.tgid w) r rest,
      )

  -- While freed memory can still be read, cleanup_all succeeds and leaves no group, and the registers
  -- of every task as they were.
  pub cleanup_all-empties :
      (w : World)
      → k.freed_readable ≡ true
      → cleanup_all k w ≡ ret (pos 0) (record w { groups = [] })
  unfolding cleanup_all
  cleanup_all-empties w r = cleanup_each-empties w.groups w r refl
