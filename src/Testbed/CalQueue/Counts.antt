-- ===== src/Testbed/CalQueue/Counts.antt =====
-- How often events stand in the buckets of a calendar: each test on events counts them.
use fibers.Prelude.{
  ℕ, zero, suc, ◌+◌, ◌≤◌, ◌<◌, ◌≡◌, refl, ◌⊎◌, inl, inr, Bool, true, List, [], ◌∷◌, arith,
  ℕ_discrete, update, if◌then◌else◌,
}
use fibers.Testbed.Double.{Double}
use fibers.Testbed.CalQueue.{Node, clear, place, place_after}

abbrev pub one : Bool → ℕ
one b = if b then 1 else 0

module _ {A : Type 0} (f : A → Bool) where
  abbrev pub count : List A → ℕ
  count [] = 0
  count (x ∷ xs) = one (f x) + count xs

  -- The events in `n` chains from `base` on.
  unfoldable pub total : (ℕ → List A) → ℕ → ℕ → ℕ
  total calq base zero = 0
  total calq base (suc n) = total calq base n + count (calq (base + n))

  pub total-update_out :
      (calq : ℕ → List A) (j : ℕ) (chain : List A) (base n : ℕ)
      → (j < base) ⊎ (base + n ≤ j)
      → total (update calq j chain) base n ≡ total calq base n
  unfolding total
  total-update_out calq j chain base zero h = refl
  total-update_out calq j chain base (suc n) (inl h) =
      ground (arith, total-update_out calq j chain base n (inl h))
  total-update_out calq j chain base (suc n) (inr h) =
      ground (arith, total-update_out calq j chain base n (inr (omega arith)))

  pub total-update :
      (calq : ℕ → List A) (i : ℕ) (chain : List A) (base n : ℕ)
      → i < n
      → total (update calq (base + i) chain) base n + count (calq (base + i))
        ≡ total calq base n + count chain
  unfolding total
  total-update calq i chain base (suc n) h = elim (ℕ_discrete i n) [
    | yes p ↦ ground (arith, total-update_out calq (base + n) chain base n (inr (omega arith)))
    | no p ↦ ground (arith, total-update calq i chain base n (omega (arith, p)))
  ]
  total-update calq i chain base zero h = absurd (omega arith)

  pub total-eq :
      (calq calq' : ℕ → List A) (base n : ℕ)
      → ((j : ℕ) → base ≤ j → j < base + n → calq' j ≡ calq j)
      → total calq' base n ≡ total calq base n
  unfolding total
  total-eq calq calq' base zero h = refl
  total-eq calq calq' base (suc n) h =
      let rest = total-eq calq calq' base n (λ j low high. h j low (omega (arith, low, high))) in
      ground (arith, rest, h (base + n) (omega arith) (omega arith))

  pub count-le-total :
      (calq : ℕ → List A) (i base n : ℕ) → i < n → count (calq (base + i)) ≤ total calq base n
  unfolding total
  count-le-total calq i base (suc n) h = elim (ℕ_discrete i n) [
    | yes p ↦ ground arith
    | no p ↦ omega (arith, p, count-le-total calq i base n (omega (arith, p)))
  ]
  count-le-total calq i base zero h = absurd (omega arith)

module _ {A : Type 0} (f : A → Bool) where
  count-le : (xs : List A) → count f xs ≤ count (λ _. true) xs
  count-le [] = omega arith
  count-le (x ∷ xs) = ground (arith, count-le xs)

  -- No more events pass a test than there are.
  pub total-le :
      (calq : ℕ → List A) (base n : ℕ) → total f calq base n ≤ total (λ _. true) calq base n
  unfolding total
  total-le calq base zero = omega arith
  total-le calq base (suc n) = omega (arith, total-le calq base n, count-le (calq (base + n)))

module _ {W P : Type 0} (calq : ℕ → List (Node W P)) where
  -- Buckets that are cleared are empty, the others are as before.
  pub clear-in : (base n i : ℕ) → i < n → clear base n calq (base + i) ≡ []
  unfolding clear
  clear-in base zero i h = absurd (omega arith)
  clear-in base (suc n) i h = elim (ℕ_discrete i n) [
    | yes p ↦ ground arith
    | no p ↦ ground (arith, clear-in base n i (omega (arith, p)))
  ]

  pub clear-out : (base n j : ℕ) → (j < base) ⊎ (base + n ≤ j) → clear base n calq j ≡ calq j
  unfolding clear
  clear-out base zero j h = refl
  clear-out base (suc n) j (inl h) = ground (arith, clear-out base n j (inl h))
  clear-out base (suc n) j (inr h) = ground (arith, clear-out base n j (inr (omega arith)))

  total-clear_below :
      (f : Node W P → Bool) (base n m : ℕ) → m ≤ n → total f (clear base n calq) base m ≡ 0
  unfolding total
  total-clear_below f base n zero h = refl
  total-clear_below f base n (suc m) h =
      ground (arith, total-clear_below f base n m (omega arith), clear-in base n m (omega arith))

  pub total-clear : (f : Node W P → Bool) (base n : ℕ) → total f (clear base n calq) base n ≡ 0
  total-clear f base n = total-clear_below f base n n (omega arith)

module _ {W P : Type 0} ⦃d : Double W⦄ (f : Node W P → Bool) (e : Node W P) where
  count-place_after : (xs : List (Node W P)) → count f (place_after e xs) ≡ one (f e) + count f xs
  unfolding place_after
  count-place_after [] = refl
  count-place_after (x ∷ xs) = ground (arith, count-place_after xs)

  pub count-place : (xs : List (Node W P)) → count f (place e xs) ≡ one (f e) + count f xs
  unfolding place
  count-place [] = refl
  count-place (x ∷ xs) = ground (arith, count-place_after xs)
