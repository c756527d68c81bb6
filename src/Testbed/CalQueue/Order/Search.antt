-- ===== src/Testbed/CalQueue/Order/Search.antt =====
-- The searches of calqueue_deq in libfibers/testbed/src/calqueue.c: which event they take out, where the
-- buckets are sorted.
use fibers.Prelude.{
  ℕ, zero, suc, ◌+◌, ◌<◌, ◌≡◌, refl, sym, ap, subst, ◌∙◌, inl, inr, Option, none, some, List, ◌∷◌,
  pos, arith, ◌==◌, Bool-cases, ◌^◌,
}
use fibers.Testbed.Double.{Double}
use fibers.Testbed.CalQueue.{
  Node, CalQueue, done, ◌>>=◌, calendar, look, direct, process, pick, remove, next_bucket, is_due,
}
use fibers.Testbed.Run.{Gives, Gives-map}
use fibers.Testbed.CalQueue.Remove.{remove-at}
use fibers.Testbed.CalQueue.Order.{IsOrder, AllFrom}
use fibers.Testbed.CalQueue.Order.Buckets.{IsKept, process-IsKept}
use fibers.Testbed.CalQueue.Order.Direct.{IsLeast, IsSortedUp, Chooses, direct-Chooses}

module _ {W P : Type 0} ⦃d : Double W⦄ where
  -- The event is the node at the head of a bucket of the calendar: where the search of a year hits, of
  -- the bucket that it hits, and then it is not after any other of this bucket; where it misses, of some
  -- bucket, and then it is not after any other of the queue.
  abbrev pub IsFirst : CalQueue W P → Option ℕ → Node W P → Type 0
  IsFirst q none e =
      IsLeast q e.priority
      × ((j : ℕ) × (j < q.nbuckets) × (rest : List (Node W P)) × (calendar q j ≡ e ∷ rest))
  IsFirst q (some i) e =
      AllFrom e.priority (calendar q i) × ((rest : List (Node W P)) × (calendar q i ≡ e ∷ rest))

abbrev pub HitIn : ℕ → Option ℕ → Type 0
HitIn nb none = Unit
HitIn nb (some i) = i < nb

module _ {W P : Type 0} ⦃d : Double W⦄ where
  pub look-HitIn :
      (rounds : ℕ) (q : CalQueue W P) (l i : ℕ) (top : W)
      → i < q.nbuckets
      → Gives (look rounds q l i top) (λ (hit, top'). HitIn q.nbuckets hit)
  unfolding look
  look-HitIn zero q l i top below = tt
  look-HitIn (suc rounds) q l i top below = elim (Bool-cases (is_due (calendar q i) top)) [
    | inl due ↦ rw due below
    | inr late ↦ elim (Bool-cases (next_bucket i q.nbuckets == l)) [
      | inl end ↦ rw (late, end) tt
      | inr on ↦
          rw (late, on)
            (look-HitIn rounds q l (next_bucket i q.nbuckets) (d.add top q.cwidth) (ground arith))
    ]
  ]

module _ {W P : Type 0} ⦃d : Double W⦄ {real : W → Type 0} (o : IsOrder W real) (S : ℕ → Type 0)
    (fs nb : ℕ) (within : (i : ℕ) → i < nb → S (fs + i)) where
  abbrev pub Takes : CalQueue W P → Option ℕ → Node W P × CalQueue W P → Type 0
  Takes q hit (e, q') = real e.priority × IsKept real S fs nb q' × IsFirst q hit e

  kept-up : (q : CalQueue W P) → IsKept real S fs nb q → IsSortedUp o q
  kept-up q k i below =
      k.sorted (q.firstsub + i)
        (subst (λ b. S (b + i)) (sym k.firstsub) (within i (ground (arith, k.nbuckets))))

  pub pick-Takes :
      (q : CalQueue W P) (hit : Option ℕ)
      → IsKept real S fs nb q
      → HitIn nb hit
      → Gives (pick q hit) (Takes q hit)
  unfolding pick Chooses
  pick-Takes q (some i) k below =
      Gives-map (process q i) _ _ (process-IsKept o S fs nb within q i below k)
        (λ (e, q') (re, k', from, head). (re, k', (from, head)))
  pick-Takes q none k _ =
      split (direct q.nbuckets q 0 none (d.of_nat (2 ^ 63))) refl (direct-Chooses o q (kept-up q k))
    where
      split :
          (found : Option ℕ)
          → direct q.nbuckets q 0 none (d.of_nat (2 ^ 63)) ≡ found
          → Chooses o q found
          → Gives (pick q none) (Takes q none)
      split none at c = rw (pick, at) tt
      split (some r) at (below, (e, es, head, least)) =
          rw (pick, at)
            (Gives-map (process q r) _ _
              (process-IsKept o S fs nb within q r (ground (arith, k.nbuckets, below)) k)
              (λ (e', q') (re, k', _, (rest, head')).
                let same : e ≡ e' = cc in
                (re, k', (subst (λ x. IsLeast q x.priority) same least, (r, below, rest, head')))))

  pub moved-Kept :
      (q : CalQueue W P) (top : W)
      → IsKept real S fs nb q
      → IsKept real S fs nb (record q { buckettop = top })
  moved-Kept q top k = record {
    sorted = k.sorted;
    firstsub = k.firstsub;
    nbuckets = k.nbuckets;
    last = k.last;
    bot = k.bot;
  }

  moved-Takes :
      (q : CalQueue W P) (top : W) (hit : Option ℕ) (r : Node W P × CalQueue W P)
      → Takes (record q { buckettop = top }) hit r
      → Takes q hit r
  moved-Takes q top none r t = t
  moved-Takes q top (some i) r t = t

  -- calqueue_deq up to its test of the threshold, after a search of a year that found `hit`.
  pub remove-Takes :
      (q : CalQueue W P) (l : ℕ) (hit : Option ℕ) (top : W)
      → q.lastbucket ≡ pos l
      → l < nb
      → look q.nbuckets q l l q.buckettop ≡ done (hit, top)
      → IsKept real S fs nb q
      → Gives (remove q) (Takes q hit)
  remove-Takes q l hit top last below at k =
      let less : l < q.nbuckets = ground (arith, k.nbuckets, below) in
      let seen =
        subst (λ r. Gives r (λ (h, _). HitIn q.nbuckets h)) at
          (look-HitIn q.nbuckets q l l q.buckettop less) in
      subst (λ r. Gives r (Takes q hit))
        (sym (remove-at q last ∙ ap (λ r. r >>= λ (h, t). pick (record q { buckettop = t }) h) at))
        (Gives-map (pick (record q { buckettop = top }) hit) _ _
          (pick-Takes (record q { buckettop = top }) hit (moved-Kept q top k)
            (subst (λ n. HitIn n hit) k.nbuckets seen))
          (moved-Takes q top hit))
