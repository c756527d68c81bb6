-- ===== src/Testbed/CalQueue/Order/Direct.antt =====
-- The direct search of calqueue_deq in libfibers/testbed/src/calqueue.c: where the buckets are sorted, it
-- finds an event that is not after any other.
use fibers.Prelude.{
  ℕ, zero, suc, ◌+◌, ◌<◌, ◌≡◌, refl, sym, ap, subst, ◌∙◌, inl, inr, true, false, ◌||◌, Option, none,
  some, List, [], ◌∷◌, arith, Bool-cases, ℕ_discrete, ◌^◌,
}
use fibers.Testbed.Double.{Double}
use fibers.Testbed.CalQueue.{Node, CalQueue, calendar, direct, is_none}
use fibers.Testbed.CalQueue.Order.{IsOrder, AllFrom, AllFrom-le, IsSorted}

module _ {W P : Type 0} ⦃d : Double W⦄ where
  -- The first event of a chain is not before `a`.
  abbrev HeadFrom : W → List (Node W P) → Type 0
  HeadFrom a [] = Unit
  HeadFrom a (x ∷ _) = d.le a x.priority ≡ true

  -- No event of the calendar is before `a`.
  abbrev pub IsLeast : CalQueue W P → W → Type 0
  IsLeast q a = (j : ℕ) → j < q.nbuckets → AllFrom a (calendar q j)

module _ {W P : Type 0} ⦃d : Double W⦄ {real : W → Type 0} (o : IsOrder W real)
    (q : CalQueue W P) where
  -- What `temp2` and `lowest` are before bucket `i`.
  Found : ℕ → Option ℕ → W → Type 0
  Found i none lowest = (j : ℕ) → j < i → calendar q j ≡ []
  Found i (some r) lowest =
      (r < q.nbuckets)
      × (real lowest)
      × ((e : Node W P) × (es : List (Node W P)) × (calendar q r ≡ e ∷ es) × (e.priority ≡ lowest))
      × ((j : ℕ) → j < i → HeadFrom lowest (calendar q j))

  abbrev pub IsSortedUp : Type 0
  IsSortedUp = (i : ℕ) → i < q.nbuckets → IsSorted real (calendar q i)

  heads_up :
      (a : W) (i : ℕ)
      → ((j : ℕ) → j < i → HeadFrom a (calendar q j))
      → HeadFrom a (calendar q i)
      → (j : ℕ) → j < suc i
      → HeadFrom a (calendar q j)
  heads_up a i before now j h = elim (ℕ_discrete j i) [
    | yes e ↦ subst (λ x. HeadFrom a (calendar q x)) (sym e) now
    | no ne ↦ before j (omega (arith, ne))
  ]

  HeadFrom-le :
      (a b : W) (xs : List (Node W P))
      → real a
      → real b
      → d.le a b ≡ true
      → IsSorted real xs
      → HeadFrom b xs
      → HeadFrom a xs
  HeadFrom-le a b [] ra rb le s h = tt
  HeadFrom-le a b (x ∷ xs) ra rb le (rx, _, _) h = o.le-trans a b x.priority ra rb rx le h

  -- The search goes on: bucket `i` is empty, ...
  Found-suc :
      (i : ℕ) (found : Option ℕ) (lowest : W)
      → calendar q i ≡ []
      → Found i found lowest
      → Found (suc i) found lowest
  unfolding Found
  Found-suc i none lowest at f = λ j h. elim (ℕ_discrete j i) [
    | yes e ↦ ap (calendar q) e ∙ at
    | no ne ↦ f j (omega (arith, ne))
  ]
  Found-suc i (some r) lowest at (below, rl, head, least) =
      (below, rl, head, heads_up lowest i least (subst (HeadFrom lowest) (sym at) tt))

  -- ... or its first event is the first, or before the others, ...
  Found-lower :
      (i : ℕ) (found : Option ℕ) (lowest : W) (e : Node W P) (es : List (Node W P))
      → IsSortedUp
      → i < q.nbuckets
      → real e.priority
      → calendar q i ≡ e ∷ es
      → (is_none found || d.lt e.priority lowest) ≡ true
      → Found i found lowest
      → Found (suc i) (some i) e.priority
  unfolding Found
  Found-lower i none lowest e es s below re at lower f = (
    below,
    re,
    (e, es, at, refl),
    heads_up e.priority i (λ j h. subst (HeadFrom e.priority) (sym (f j h)) tt)
        (subst (HeadFrom e.priority) (sym at) (o.le-refl e.priority re)),
  )
  Found-lower i (some r) lowest e es s below re at lower (_, rl, _, least) =
      let le = o.lt-le e.priority lowest re rl lower in
      (
        below,
        re,
        (e, es, at, refl),
        heads_up e.priority i
            (λ j h.
              HeadFrom-le e.priority lowest (calendar q j) re rl le (s j (omega (arith, below, h)))
                (least j h))
            (subst (HeadFrom e.priority) (sym at) (o.le-refl e.priority re)),
      )

  -- ... or not.
  Found-higher :
      (i : ℕ) (found : Option ℕ) (lowest : W) (e : Node W P) (es : List (Node W P))
      → real e.priority
      → calendar q i ≡ e ∷ es
      → (is_none found || d.lt e.priority lowest) ≡ false
      → Found i found lowest
      → Found (suc i) found lowest
  unfolding Found
  Found-higher i none lowest e es re at higher f = absurd (ground arith)
  Found-higher i (some r) lowest e es re at higher (below, rl, head, least) = (
    below,
    rl,
    head,
    heads_up lowest i least
        (subst (HeadFrom lowest) (sym at) (o.lt-ge e.priority lowest re rl higher)),
  )

  direct-Found :
      (n i : ℕ) (found : Option ℕ) (lowest : W)
      → IsSortedUp
      → i + n ≡ q.nbuckets
      → Found i found lowest
      → (lowest' : W) × Found q.nbuckets (direct n q i found lowest) lowest'
  unfolding direct
  direct-Found zero i found lowest s h f =
      (lowest, subst (λ x. Found x found lowest) (ground arith) f)
  direct-Found (suc n) i found lowest s h f =
      split (calendar q i) refl
        (λ found' lowest'. direct-Found n (suc i) found' lowest' s (omega arith))
    where
      split :
          (c : List (Node W P))
          → calendar q i ≡ c
          → ((found' : Option ℕ) (lowest' : W)
              → Found (suc i) found' lowest'
              → (l : W) × Found q.nbuckets (direct n q (suc i) found' lowest') l)
          → (l : W) × Found q.nbuckets (direct (suc n) q i found lowest) l
      split [] at rest = rw (direct, at) (rest found lowest (Found-suc i found lowest at f))
      split (e ∷ es) at rest =
          let below : i < q.nbuckets = omega arith in
          let re = (subst (IsSorted real) at (s i below)).0 in
          elim (Bool-cases (is_none found || d.lt e.priority lowest)) [
            | inl lower ↦
                rw (direct, at, lower)
                  (rest (some i) e.priority (Found-lower i found lowest e es s below re at lower f))
            | inr higher ↦
                rw (direct, at, higher)
                  (rest found lowest (Found-higher i found lowest e es re at higher f))
          ]

  HeadFrom-AllFrom :
      (a : W) (xs : List (Node W P)) → real a → IsSorted real xs → HeadFrom a xs → AllFrom a xs
  HeadFrom-AllFrom a [] ra s h = tt
  HeadFrom-AllFrom a (x ∷ xs) ra (rx, from, s) h = (h, AllFrom-le o a x.priority xs ra rx h s from)

  -- The bucket that the direct search chooses starts with an event that is not after any other.
  unfoldable pub Chooses : Option ℕ → Type 0
  Chooses none = Unit
  Chooses (some r) =
      (r < q.nbuckets)
      × ((e : Node W P) × (es : List (Node W P)) × (calendar q r ≡ e ∷ es) × IsLeast q e.priority)

  Found-Chooses :
      (found : Option ℕ) (lowest : W) → IsSortedUp → Found q.nbuckets found lowest → Chooses found
  unfolding Found Chooses
  Found-Chooses none lowest s f = tt
  Found-Chooses (some r) lowest s (below, rl, (e, es, at, same), least) = (
    below,
    (
      e,
      es,
      at,
      λ j h.
          subst (λ a. AllFrom a (calendar q j)) (sym same)
            (HeadFrom-AllFrom lowest (calendar q j) rl (s j h) (least j h)),
    ),
  )

  pub direct-Chooses : IsSortedUp → Chooses (direct q.nbuckets q 0 none (d.of_nat (2 ^ 63)))
  unfolding Found
  direct-Chooses s =
      let (l, f) =
        direct-Found q.nbuckets 0 none (d.of_nat (2 ^ 63)) s (omega arith)
          (λ j h. absurd (omega (arith, h))) in
      Found-Chooses (direct q.nbuckets q 0 none (d.of_nat (2 ^ 63))) l s f
