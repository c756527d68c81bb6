-- ===== src/Table.antt =====
-- The chained hash tables of linux/hashtable.h, as far as fibers/fiber.c relies on them. A table is
-- its nodes, newest first, since `hash_add_rcu` inserts at the head of a chain. The hash function is
-- the kernel's: it is a parameter, and nothing is assumed of it.
pub mod Laws
pub mod Unique
use fibers.Prelude.{ℕ, ite, List, [], ◌∷◌, Option, none, some, ℕ_discrete, ℤ, ℤ_discrete}

module _ {ℓ} {A : Type ℓ} where
  -- The nodes that `hash_for_each_possible_rcu` visits, in its order: those whose key falls into the
  -- bucket of `k`.
  unfoldable pub possible : (ℤ → ℕ) → (A → ℤ) → ℤ → List A → List A
  possible bucket key k [] = []
  possible bucket key k (x ∷ xs) =
      ite (ℕ_discrete (bucket (key x)) (bucket k)) (x ∷ possible bucket key k xs)
        (possible bucket key k xs)

  -- The loop that the three `get_` functions share: stop at the first node with this key.
  unfoldable pub walk : (A → ℤ) → ℤ → List A → Option A
  walk key k [] = none
  walk key k (x ∷ xs) = ite (ℤ_discrete (key x) k) (some x) (walk key k xs)

  -- A write through the pointer that a walk for `k` returned.
  unfoldable pub modify : (A → ℤ) → ℤ → (A → A) → List A → List A
  modify key k g [] = []
  modify key k g (x ∷ xs) = ite (ℤ_discrete (key x) k) (g x ∷ xs) (x ∷ modify key k g xs)

  -- `hash_del_rcu` of the node that a walk for `k` returned.
  unfoldable pub delete : (A → ℤ) → ℤ → List A → List A
  delete key k [] = []
  delete key k (x ∷ xs) = ite (ℤ_discrete (key x) k) xs (x ∷ delete key k xs)
