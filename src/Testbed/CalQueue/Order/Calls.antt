-- ===== src/Testbed/CalQueue/Order/Calls.antt =====
-- Puts, removals and resizes of libfibers/testbed/src/calqueue.c keep the buckets sorted. What is shown
-- here is about calls that return; Grow.antt and Calls.antt of the queue show that they do.
use fibers.Prelude.{
  ℕ, zero, suc, ◌+◌, ◌*◌, ◌/◌, ◌<◌, ◌≡◌, refl, sym, subst, inl, inr, ◌&&◌, Option, none, some, List,
  [], ◌∷◌, ℤ, pos, negsuc, arith, ltb, ◌==◌, Bool-cases,
}
use fibers.Testbed.Double.{Double}
use fibers.Testbed.CalQueue.{
  Node, CalQueue, Run, done, fault, ◌>>=◌, is_below, insert, look, pick, remove, maxnbuckets,
}
use fibers.Testbed.Run.{Gives, Gives-bind, Gives-map}
use fibers.Testbed.CalQueue.Resizing.{put, deq, sample, refill, copy, resize}
use fibers.Testbed.CalQueue.Remove.{remove-at}
use fibers.Testbed.CalQueue.Order.{IsOrder}
use fibers.Testbed.CalQueue.Size.{InRange}
use fibers.Testbed.CalQueue.Order.Buckets.{IsKept, AllReal, IsSorted-AllReal, insert-IsKept}
use fibers.Testbed.CalQueue.Order.Search.{Takes, HitIn, look-HitIn, pick-Takes, moved-Kept}

module _ {W P : Type 0} ⦃d : Double W⦄ where
  -- A resize that does nothing where it returns: what puts call while a calendar is filled.
  abbrev pub IsStill : (CalQueue W P → ℕ → Run (CalQueue W P)) → Type 0
  IsStill r = (q : CalQueue W P) (n : ℕ) → Gives (r q n) (λ q'. q' ≡ q)

  pub resize-IsStill : IsStill (resize 0)
  unfolding resize
  resize-IsStill q n = elim (Bool-cases q.resize_enabled) [ inl e ↦ rw e tt | inr e ↦ rw e refl ]

module _ {W P : Type 0} ⦃d : Double W⦄ {real : W → Type 0} (o : IsOrder W real) (S : ℕ → Type 0)
    (fs nb : ℕ) (within : (i : ℕ) → i < nb → S (fs + i)) where
  unfoldable pub Kept : CalQueue W P → Type 0
  Kept q = IsKept real S fs nb q

  abbrev pub AlsoReal : Node W P × CalQueue W P → Type 0
  AlsoReal (e, q') = real e.priority × Kept q'

  Takes-Real :
      (q : CalQueue W P) (hit : Option ℕ) (r : Node W P × CalQueue W P)
      → Takes o S fs nb within q hit r
      → AlsoReal r
  unfolding Kept
  Takes-Real q none r (re, k, _) = (re, k)
  Takes-Real q (some i) r (re, k, _) = (re, k)

  pub remove-Kept : (q : CalQueue W P) → Kept q → Gives (remove q) AlsoReal
  unfolding remove Kept
  remove-Kept q k = split q.lastbucket refl
    where
      split : (z : ℤ) → q.lastbucket ≡ z → Gives (remove q) AlsoReal
      split (negsuc n) last = rw (remove, last) tt
      split (pos l) last =
          let below : l < q.nbuckets =
            ground (arith, k.nbuckets, subst (λ z. InRange z nb) last k.last) in
          subst (λ r. Gives r AlsoReal) (sym (remove-at q last))
            (Gives-bind (look q.nbuckets q l l q.buckettop) _ (λ (hit, top). HitIn q.nbuckets hit) _
              (look-HitIn q.nbuckets q l l q.buckettop below)
              (λ (hit, top) seen.
                Gives-map (pick (record q { buckettop = top }) hit) _ _
                  (pick-Takes o S fs nb within (record q { buckettop = top }) hit
                    (moved-Kept o S fs nb within q top k)
                    (subst (λ n. HitIn n hit) k.nbuckets seen))
                  (Takes-Real (record q { buckettop = top }) hit)))

  module _ (r : CalQueue W P → ℕ → Run (CalQueue W P)) (still : IsStill r) where
    put-Kept : (q : CalQueue W P) (e : Node W P) → real e.priority → Kept q → Gives (put r q e) Kept
    unfolding put Kept
    put-Kept q e re k =
        Gives-bind (insert q e) _ Kept _ (insert-IsKept o S fs nb within q e re k) (λ q' k'.
          elim (Bool-cases (ltb q'.top_threshold q'.qsize && ltb q'.nbuckets maxnbuckets)) [
            | inl full ↦ rw full (
                Gives-map (r q' (2 * q'.nbuckets)) _ _ (still q' (2 * q'.nbuckets))
                  (λ q'' e. subst Kept (sym e) k'))
            | inr fits ↦ rw fits k'
          ])

    abbrev MaybeReal : Option (Node W P) × CalQueue W P → Type 0
    MaybeReal (none, q') = Kept q'
    MaybeReal (some e, q') = real e.priority × Kept q'

    deq-Kept : (q : CalQueue W P) → Kept q → Gives (deq r q) MaybeReal
    unfolding deq
    deq-Kept q k = elim (Bool-cases (q.qsize == 0)) [
      | inl empty ↦ rw empty k
      | inr filled ↦ rw filled (
          Gives-bind (remove q) _ AlsoReal _ (remove-Kept q k) (λ (e, q') (re, k').
            elim (Bool-cases (is_below q'.qsize q'.bot_threshold)) [
              | inl low ↦ rw low (
                  Gives-bind (r q' (q'.nbuckets / 2)) _ _ _ (still q' (q'.nbuckets / 2))
                    (λ q'' e'. (re, subst Kept (sym e') k')))
              | inr high ↦ rw high (re, k')
            ]))
    ]

    pub sample-Kept :
        (n : ℕ) (q : CalQueue W P)
        → Kept q
        → Gives (sample r n q) (λ (es, q'). AllReal real es × Kept q')
    unfolding sample
    sample-Kept zero q k = (tt, k)
    sample-Kept (suc n) q k =
        Gives-bind (deq r q) _ MaybeReal _ (deq-Kept q k) (next (sample-Kept n))
      where
        next :
            ((q' : CalQueue W P)
              → Kept q'
              → Gives (sample r n q') (λ (es, q''). AllReal real es × Kept q''))
            → (t : Option (Node W P) × CalQueue W P) → MaybeReal t
            → Gives
                (elim t.0 [
                  | none ↦ fault
                  | some e ↦ sample r n t.1 >>= λ (es, q''). done (e ∷ es, q'')
                ])
                (λ (es, q'). AllReal real es × Kept q')
        next rest (none, q') k' = tt
        next rest (some e, q') (re, k') =
            Gives-bind (sample r n q') _ _ _ (rest q' k') (λ (es, q'') (res, k''). ((re, res), k''))

    pub refill-Kept :
        (es : List (Node W P)) (q : CalQueue W P)
        → AllReal real es
        → Kept q
        → Gives (refill r es q) Kept
    unfolding refill
    refill-Kept [] q re k = k
    refill-Kept (e ∷ es) q (re, res) k =
        Gives-bind (put r q e) _ Kept _ (put-Kept q e re k) (λ q'. refill-Kept es q' res)

    pub copy-Kept :
        (old n : ℕ) (q : CalQueue W P)
        → ((i : ℕ) → i < n → S (old + i))
        → Kept q
        → Gives (copy r old n q) Kept
    unfolding copy Kept
    copy-Kept old zero q there k = k
    copy-Kept old (suc n) q there k =
        Gives-bind (refill r (q.calq (old + n)) q) _ Kept _
          (refill-Kept (q.calq (old + n)) q
            (IsSorted-AllReal real (q.calq (old + n)) (k.sorted (old + n) (there n (omega arith))))
            k)
          (λ q'. copy-Kept old n q' (λ i h. there i (omega (arith, h))))
