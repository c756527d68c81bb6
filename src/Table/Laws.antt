-- ===== src/Table/Laws.antt =====
-- Walks, writes and deletions of a table, each seen through a walk for the same or another key.
use mathlib.Core.Option
use fibers.Prelude.{ℕ, ◌≡◌, ◌≢◌, refl, ite, List, [], ◌∷◌, some, arith, ℤ, ℤ_discrete, length}
use fibers.Table.{possible, walk, modify, delete}

module _ {ℓ} {A : Type ℓ} (key : A → ℤ) where
  pub walk-possible :
      (bucket : ℤ → ℕ) (k : ℤ) (xs : List A) → walk key k (possible bucket key k xs) ≡ walk key k xs
  unfolding walk possible
  walk-possible bucket k [] = refl
  walk-possible bucket k (x ∷ xs) = ground (arith, walk-possible bucket k xs)

  pub walk-key : (k : ℤ) (xs : List A) {x : A} → walk key k xs ≡ some x → key x ≡ k
  unfolding walk
  walk-key k [] e = cc
  walk-key k (y ∷ xs) {x} e = ground (arith, walk-key k xs {x = x})

  pub walk-cons_self : (k : ℤ) (x : A) (xs : List A) → key x ≡ k → walk key k (x ∷ xs) ≡ some x
  unfolding walk
  walk-cons_self k x xs h = ground arith

  pub walk-cons_ne : (k : ℤ) (x : A) (xs : List A) → key x ≢ k → walk key k (x ∷ xs) ≡ walk key k xs
  unfolding walk
  walk-cons_ne k x xs h = ground arith

  pub walk-delete_ne :
      (k j : ℤ) (xs : List A) → j ≢ k → walk key j (delete key k xs) ≡ walk key j xs
  unfolding walk delete
  walk-delete_ne k j [] n = refl
  walk-delete_ne k j (z ∷ xs) n = ground (arith, walk-delete_ne k j xs n)

  -- A write that leaves the node's key alone.
  module _ (g : A → A) (k : ℤ) (keeps : (x : A) → key x ≡ k → key (g x) ≡ k) where
    pub walk-modify :
        (j : ℤ) (xs : List A)
        → walk key j (modify key k g xs)
          ≡ ite (ℤ_discrete j k) (Option.map g (walk key j xs)) (walk key j xs)
    unfolding walk modify
    walk-modify j [] = ground arith
    walk-modify j (z ∷ xs) = ground (arith, keeps z, walk-modify j xs)

  pub length-modify : (g : A → A) (k : ℤ) (xs : List A) → length (modify key k g xs) ≡ length xs
  unfolding modify
  length-modify g k [] = refl
  length-modify g k (z ∷ xs) = ground (arith, length-modify g k xs)
