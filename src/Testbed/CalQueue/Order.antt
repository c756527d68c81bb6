-- ===== src/Testbed/CalQueue/Order.antt =====
-- The order of events in the buckets of libfibers/testbed/src/calqueue.c, where their times are numbers.
pub mod Buckets
pub mod Direct
pub mod Search
pub mod Calls
pub mod Resizes
pub mod Trace
use fibers.Prelude.{
  ℕ, zero, suc, ◌+◌, ◌≤◌, ◌<◌, ◌≡◌, refl, sym, ap, subst, ◌⊎◌, inl, inr, Bool, true, false, List,
  [], ◌∷◌, arith, if◌then◌else◌, Bool-cases,
}
use fibers.Testbed.Double.{Double}
use fibers.Testbed.CalQueue.{Node, place, place_after}

-- What the processor's comparisons give on doubles that are numbers (`real`).
pub record IsOrder (W : Type 0) ⦃d : Double W⦄ (real : W → Type 0) : Type 0 where
  pub lt-le : (a b : W) → real a → real b → d.lt a b ≡ true → d.le a b ≡ true
  pub lt-ge : (a b : W) → real a → real b → d.lt a b ≡ false → d.le b a ≡ true
  pub le-ge : (a b : W) → real a → real b → d.le a b ≡ false → d.le b a ≡ true
  pub le-refl : (a : W) → real a → d.le a a ≡ true
  pub le-trans :
      (a b c : W) → real a → real b → real c → d.le a b ≡ true → d.le b c ≡ true → d.le a c ≡ true

module _ {W P : Type 0} ⦃d : Double W⦄ where
  -- No event of the chain is before `a`.
  abbrev pub AllFrom : W → List (Node W P) → Type 0
  AllFrom a [] = Unit
  AllFrom a (x ∷ xs) = (d.le a x.priority ≡ true) × AllFrom a xs

  -- All times are numbers, and no event stands behind a later one.
  abbrev pub IsSorted : (W → Type 0) → List (Node W P) → Type 0
  IsSorted real [] = Unit
  IsSorted real (x ∷ xs) = real x.priority × AllFrom x.priority xs × IsSorted real xs

module _ {W P : Type 0} ⦃d : Double W⦄ {real : W → Type 0} (o : IsOrder W real) where
  pub AllFrom-le :
      (a b : W) (xs : List (Node W P))
      → real a
      → real b
      → d.le a b ≡ true
      → IsSorted real xs
      → AllFrom b xs
      → AllFrom a xs
  AllFrom-le a b [] ra rb le s h = tt
  AllFrom-le a b (x ∷ xs) ra rb le (rx, _, s) (from, h) =
      (o.le-trans a b x.priority ra rb rx le from, AllFrom-le a b xs ra rb le s h)

  place_after-AllFrom :
      (a : W) (e : Node W P) (xs : List (Node W P))
      → d.le a e.priority ≡ true
      → AllFrom a xs
      → AllFrom a (place_after e xs)
  unfolding place_after
  place_after-AllFrom a e [] le h = (le, tt)
  place_after-AllFrom a e (x ∷ xs) le (from, h) = elim (Bool-cases (d.le x.priority e.priority)) [
    | inl c ↦ rw c (from, place_after-AllFrom a e xs le h)
    | inr c ↦ rw c (le, (from, h))
  ]

  place_after-IsSorted :
      (e : Node W P) (xs : List (Node W P))
      → real e.priority
      → IsSorted real xs
      → IsSorted real (place_after e xs)
  unfolding place_after
  place_after-IsSorted e [] re s = (re, tt, tt)
  place_after-IsSorted e (x ∷ xs) re (rx, from, s) =
      elim (Bool-cases (d.le x.priority e.priority)) [
        | inl c ↦
            rw c (rx, place_after-AllFrom x.priority e xs c from, place_after-IsSorted e xs re s)
        | inr c ↦
            let le = o.le-ge x.priority e.priority rx re c in
            rw c (re, (le, AllFrom-le e.priority x.priority xs re rx le s from), (rx, from, s))
      ]

  pub place-IsSorted :
      (e : Node W P) (xs : List (Node W P))
      → real e.priority
      → IsSorted real xs
      → IsSorted real (place e xs)
  unfolding place
  place-IsSorted e [] re s = (re, tt, tt)
  place-IsSorted e (x ∷ xs) re (rx, from, s) = elim (Bool-cases (d.lt e.priority x.priority)) [
    | inl c ↦
        let le = o.lt-le e.priority x.priority re rx c in
        rw c (re, (le, AllFrom-le e.priority x.priority xs re rx le s from), (rx, from, s))
    | inr c ↦
        let le = o.lt-ge e.priority x.priority re rx c in
        rw c (rx, place_after-AllFrom x.priority e xs le from, place_after-IsSorted e xs re s)
  ]
