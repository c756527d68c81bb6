-- ===== src/Table/Unique.antt =====
-- Tables in which no two nodes have the same key.
use fibers.Prelude.{◌≡◌, refl, List, [], ◌∷◌, none, arith, ℤ, ℤ_discrete}
use fibers.Table.{walk, modify, delete}
use fibers.Table.Laws.{walk-modify, walk-delete_ne}

module _ {ℓ} {A : Type ℓ} (key : A → ℤ) where
  abbrev pub Unique : List A → Type ℓ
  Unique [] = Unit
  Unique (x ∷ xs) = (walk key (key x) xs ≡ none) × Unique xs

  pub modify-Unique :
      (g : A → A) (k : ℤ)
      → ((x : A) → key x ≡ k → key (g x) ≡ k)
      → (xs : List A) → Unique xs
      → Unique (modify key k g xs)
  unfolding modify
  modify-Unique g k keeps [] u = tt
  modify-Unique g k keeps (x ∷ xs) u = elim (ℤ_discrete (key x) k) [
    | yes p ↦ ground (arith, keeps x)
    | no p ↦ ground (arith, walk-modify key g k keeps (key x) xs, modify-Unique g k keeps xs)
  ]

  pub delete-Unique : (k : ℤ) (xs : List A) → Unique xs → Unique (delete key k xs)
  unfolding delete
  delete-Unique k [] u = tt
  delete-Unique k (x ∷ xs) u = elim (ℤ_discrete (key x) k) [
    | yes p ↦ ground arith
    | no p ↦ ground (arith, walk-delete_ne key k (key x) xs p, delete-Unique k xs)
  ]

  -- After a deletion the key is gone.
  pub walk-delete_self : (k : ℤ) (xs : List A) → Unique xs → walk key k (delete key k xs) ≡ none
  unfolding walk delete
  walk-delete_self k [] u = refl
  walk-delete_self k (x ∷ xs) u = ground (arith, walk-delete_self k xs u.1)
