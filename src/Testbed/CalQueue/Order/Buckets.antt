-- ===== src/Testbed/CalQueue/Order/Buckets.antt =====
-- Each call of libfibers/testbed/src/calqueue.c keeps the buckets sorted, also where it resizes. What
-- is shown here is about calls that return; Trace.antt and Calls.antt show that they do.
use fibers.Prelude.{
  ℕ, ◌+◌, ◌<◌, ◌≡◌, refl, sym, subst, inl, inr, List, [], ◌∷◌, ℤ, pos, negsuc, update,
}
use fibers.Testbed.Double.{Double}
use fibers.Testbed.CalQueue.{Node, CalQueue, rem, bot_of, calendar, insert, process}
use fibers.Testbed.Run.{Gives}
use fibers.Testbed.CalQueue.Size.{InRange}
use fibers.Testbed.CalQueue.Order.{IsOrder, AllFrom, IsSorted, place-IsSorted}
use fibers.Locking.{update-cases}

module _ {W P : Type 0} ⦃d : Double W⦄ (real : W → Type 0) where
  -- The chains of the cells `S` of the array are sorted; the calendar has `nb` buckets from `fs` on.
  pub record IsKept (S : ℕ → Type 0) (fs nb : ℕ) (q : CalQueue W P) : Type 0 where
    pub sorted : (j : ℕ) → S j → IsSorted real (q.calq j)
    pub firstsub : q.firstsub ≡ fs
    pub nbuckets : q.nbuckets ≡ nb
    pub last : InRange q.lastbucket nb
    pub bot : q.bot_threshold ≡ bot_of nb

  abbrev pub AllReal : List (Node W P) → Type 0
  AllReal [] = Unit
  AllReal (x ∷ xs) = real x.priority × AllReal xs

  pub IsSorted-AllReal : (xs : List (Node W P)) → IsSorted real xs → AllReal xs
  IsSorted-AllReal [] s = tt
  IsSorted-AllReal (x ∷ xs) (r, _, s) = (r, IsSorted-AllReal xs s)

module _ {W P : Type 0} ⦃d : Double W⦄ {real : W → Type 0} (o : IsOrder W real) (S : ℕ → Type 0)
    (fs nb : ℕ) (within : (i : ℕ) → i < nb → S (fs + i)) where
  update-IsSorted :
      (calq : ℕ → List (Node W P)) (c : ℕ) (chain : List (Node W P))
      → ((j : ℕ) → S j → IsSorted real (calq j))
      → (S c → IsSorted real chain)
      → (j : ℕ) → S j
      → IsSorted real (update calq c chain j)
  update-IsSorted calq c chain s new j here = elim (update-cases calq c chain j) [
    | inl (e, at) ↦ subst (IsSorted real) (sym at) (new (subst S (sym e) here))
    | inr (ne, at) ↦ subst (IsSorted real) (sym at) (s j here)
  ]

  pub insert-IsKept :
      (q : CalQueue W P) (e : Node W P)
      → real e.priority
      → IsKept real S fs nb q
      → Gives (insert q e) (IsKept real S fs nb)
  unfolding insert
  insert-IsKept q e re k = split (rem (d.to_int (d.div e.priority q.cwidth)) q.nbuckets) refl
    where
      split :
          (z : ℤ)
          → rem (d.to_int (d.div e.priority q.cwidth)) q.nbuckets ≡ z
          → Gives (insert q e) (IsKept real S fs nb)
      split (negsuc _) at = rw (insert, at) tt
      split (pos i) at =
          rw (insert, at)
            (record {
              sorted =
                  update-IsSorted q.calq (q.firstsub + i) _ k.sorted
                    (λ here. place-IsSorted o e (calendar q i) re (k.sorted _ here));
              firstsub = k.firstsub;
              nbuckets = k.nbuckets;
              last = k.last;
              bot = k.bot;
            })

  -- The first event of the bucket is taken out.
  abbrev pub TakesFrom : CalQueue W P → ℕ → Node W P × CalQueue W P → Type 0
  TakesFrom q i (e, q') =
      real e.priority
      × IsKept real S fs nb q'
      × AllFrom e.priority (calendar q i)
      × ((rest : List (Node W P)) × (calendar q i ≡ e ∷ rest))

  pub process-IsKept :
      (q : CalQueue W P) (i : ℕ)
      → i < nb
      → IsKept real S fs nb q
      → Gives (process q i) (TakesFrom q i)
  unfolding process
  process-IsKept q i below k = split (calendar q i) refl
    where
      here : S (q.firstsub + i)
      here = subst (λ b. S (b + i)) (sym k.firstsub) (within i below)

      split : (c : List (Node W P)) → calendar q i ≡ c → Gives (process q i) (TakesFrom q i)
      split [] at = rw (process, at) tt
      split (e ∷ rest) at =
          let (re, from, s) = subst (IsSorted real) at (k.sorted _ here) in
          rw (process, at)
            (
              re,
              record {
                sorted = update-IsSorted q.calq (q.firstsub + i) rest k.sorted (λ _. s);
                firstsub = k.firstsub;
                nbuckets = k.nbuckets;
                last = below;
                bot = k.bot;
              },
              subst (AllFrom e.priority) (sym at) (o.le-refl e.priority re, from),
              (rest, at),
            )
