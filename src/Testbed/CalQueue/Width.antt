-- ===== src/Testbed/CalQueue/Width.antt =====
-- new_width of libfibers/testbed/src/calqueue.c: the sampled events are all put back.
use fibers.Prelude.{
  ℕ, zero, suc, ◌+◌, ◌*◌, ◌/◌, ◌≤◌, ◌<◌, ◌≡◌, refl, sym, subst, ◌∙◌, ◌⊎◌, inl, inr, Bool, true,
  false, ◌&&◌, some, List, [], ◌∷◌, arith, ltb, ◌==◌, Bool-cases,
}
use fibers.Testbed.Double.{Double}
use fibers.Testbed.CalQueue.{Node, CalQueue, Run, done, insert, remove, maxnbuckets, is_below}
use fibers.Testbed.CalQueue.Resizing.{samples, put, deq, sample, refill, new_width}
use fibers.Testbed.CalQueue.Counts.{count}
use fibers.Testbed.CalQueue.Size.{HasNegative, IsBucket}
use fibers.Testbed.CalQueue.Invariant.{
  EndsOrNegative, EndsOrNegative-bind, EndsOrNegative-map, events, IsCalendar, IsSame,
}
use fibers.Testbed.CalQueue.Insert.{Inserts, insert-Inserts}
use fibers.Testbed.CalQueue.Remove.{Removes, remove-Removes}

samples-le : (n : ℕ) → ltb n 2 ≡ false → samples n ≤ n
samples-le n h = ground arith

module _ {W P : Type 0} where
  abbrev pub length : List (Node W P) → ℕ
  length [] = 0
  length (_ ∷ es) = suc (length es)

  -- A resize that is switched off does nothing.
  abbrev pub IsQuiet : (CalQueue W P → ℕ → Run (CalQueue W P)) → Type 0
  IsQuiet resize = (q : CalQueue W P) (n : ℕ) → q.resize_enabled ≡ false → resize q n ≡ done q

module _ {W P : Type 0} ⦃d : Double W⦄ where
  -- The events `es` are added, and nothing is lost.
  pub record Adds (q : CalQueue W P) (es : List (Node W P)) (q' : CalQueue W P) : Type 0 where
    pub calendar : IsCalendar q'
    pub same : IsSame q q'
    pub qsize : q'.qsize ≡ length es + q.qsize
    pub adds : (f : Node W P → Bool) → events f q' ≡ count f es + events f q
    pub outside : (j : ℕ) → (j < q.firstsub) ⊎ (q.firstsub + q.nbuckets ≤ j) → q'.calq j ≡ q.calq j

  -- The events `es` are taken out, and nothing else is lost.
  pub record Takes (q : CalQueue W P) (es : List (Node W P)) (q' : CalQueue W P) : Type 0 where
    pub calendar : IsCalendar q'
    pub same : IsSame q q'
    pub qsize : q.qsize ≡ length es + q'.qsize
    pub takes : (f : Node W P → Bool) → events f q ≡ count f es + events f q'

  pub IsSame-trans : {q q' q'' : CalQueue W P} → IsSame q q' → IsSame q' q'' → IsSame q q''
  IsSame-trans s s' = record {
    nbuckets = s'.nbuckets ∙ s.nbuckets;
    firstsub = s'.firstsub ∙ s.firstsub;
    resize_enabled = s'.resize_enabled ∙ s.resize_enabled;
  }

  -- What lies outside a calendar lies outside it in its other states.
  pub moved :
      {q q' : CalQueue W P}
      → IsSame q q'
      → (j : ℕ) → (j < q.firstsub) ⊎ (q.firstsub + q.nbuckets ≤ j)
      → (j < q'.firstsub) ⊎ (q'.firstsub + q'.nbuckets ≤ j)
  moved s j (inl h) = inl (omega (arith, s.firstsub))
  moved s j (inr h) = inr (omega (arith, s.firstsub, s.nbuckets))

  -- Several puts in a row, where `K q n` says that `n` more can be made.
  module _ (resize : CalQueue W P → ℕ → Run (CalQueue W P)) (K : CalQueue W P → ℕ → Type 0)
      (puts : (q : CalQueue W P) (e : Node W P) (n : ℕ)
        → IsCalendar q
        → K q (suc n)
        → EndsOrNegative (HasNegative W) (put resize q e) (λ q'. Inserts q e q' × K q' n)) where
    pub refill-Adds :
        (es : List (Node W P)) (q : CalQueue W P) (n : ℕ)
        → IsCalendar q
        → K q (length es + n)
        → EndsOrNegative (HasNegative W) (refill resize es q) (λ q'. Adds q es q' × K q' n)
    unfolding refill
    refill-Adds [] q n c k = (
      record {
        calendar = c;
        same = record { nbuckets = refl; firstsub = refl; resize_enabled = refl };
        qsize = omega arith;
        adds = λ f. omega arith;
        outside = λ j h. refl;
      },
      subst (K q) (omega arith) k,
    )
    refill-Adds (e ∷ es) q n c k =
        EndsOrNegative-bind _ (put resize q e) _ (λ q'. Inserts q e q' × K q' (length es + n)) _
          (puts q e (length es + n) c (subst (K q) (omega arith) k))
          (λ q' (i, k').
            EndsOrNegative-map _ (refill resize es q') _ _ (refill-Adds es q' n i.calendar k')
              (λ q'' (a, k''). (
                record {
                  calendar = a.calendar;
                  same = IsSame-trans i.same a.same;
                  qsize = omega (arith, i.qsize, a.qsize);
                  adds = λ f. omega (arith, i.adds f, a.adds f);
                  outside = λ j h. a.outside j (moved i.same j h) ∙ i.outside j h;
                },
                k'',
              )))

  module _ (resize : CalQueue W P → ℕ → Run (CalQueue W P)) (quiet : IsQuiet resize) where
    -- While resizes are switched off, a put only inserts ...
    put-quiet :
        (q : CalQueue W P) (e : Node W P)
        → IsCalendar q
        → q.resize_enabled ≡ false
        → EndsOrNegative (HasNegative W) (put resize q e) (Inserts q e)
    unfolding put
    put-quiet q e c off =
        EndsOrNegative-bind _ (insert q e) _ (Inserts q e) _ (insert-Inserts q e c) (λ q' i.
          elim (Bool-cases (ltb q'.top_threshold q'.qsize && ltb q'.nbuckets maxnbuckets)) [
            | inl full ↦ rw (full, quiet q' (2 * q'.nbuckets) (i.same.resize_enabled ∙ off)) i
            | inr fits ↦ rw fits i
          ])

    -- ... and a removal only removes.
    deq-quiet :
        (q : CalQueue W P)
        → IsCalendar q
        → 0 < q.qsize
        → q.resize_enabled ≡ false
        → EndsOrNegative
            (HasNegative W)
            (deq resize q)
            (λ (n, q'). (e : Node W P) × (n ≡ some e) × Removes q e q')
    unfolding deq
    deq-quiet q c more off =
        let filled : (q.qsize == 0) ≡ false = ground arith in
        rw filled (
          EndsOrNegative-bind _ (remove q) _ (λ (e, q'). Removes q e q') _ (remove-Removes q c more)
            (λ (e, q') r. elim (Bool-cases (is_below q'.qsize q'.bot_threshold)) [
              | inl low ↦
                  rw (low, quiet q' (q'.nbuckets / 2) (r.same.resize_enabled ∙ off)) (e, refl, r)
              | inr high ↦ rw high (e, refl, r)
            ]))

    sample-Takes :
        (n : ℕ) (q : CalQueue W P)
        → IsCalendar q
        → n ≤ q.qsize
        → q.resize_enabled ≡ false
        → EndsOrNegative
            (HasNegative W)
            (sample resize n q)
            (λ (es, q'). Takes q es q' × (length es ≡ n))
    unfolding sample
    sample-Takes zero q c h off = (
      record {
        calendar = c;
        same = record { nbuckets = refl; firstsub = refl; resize_enabled = refl };
        qsize = omega arith;
        takes = λ f. omega arith;
      },
      refl,
    )
    sample-Takes (suc n) q c h off =
        EndsOrNegative-bind _ (deq resize q) _
          (λ (m, q'). (e : Node W P) × (m ≡ some e) × Removes q e q') _
          (deq-quiet q c (omega arith) off)
          (λ (m, q') (e, got, r). rw got (
            EndsOrNegative-bind _ (sample resize n q') _
              (λ (es, q''). Takes q' es q'' × (length es ≡ n)) _
              (sample-Takes n q' r.calendar (omega (arith, r.qsize)) (r.same.resize_enabled ∙ off))
              (λ (es, q'') (s, len). (
                record {
                  calendar = s.calendar;
                  same = IsSame-trans r.same s.same;
                  qsize = omega (arith, r.qsize, s.qsize);
                  takes = λ f. omega (arith, r.takes f, s.takes f);
                },
                omega (arith, len),
              ))))

  refill_quiet :
      (resize : CalQueue W P → ℕ → Run (CalQueue W P)) (quiet : IsQuiet resize)
      (es : List (Node W P)) (q : CalQueue W P)
      → IsCalendar q
      → q.resize_enabled ≡ false
      → EndsOrNegative
          (HasNegative W)
          (refill resize es q)
          (λ q'. Adds q es q' × (q'.resize_enabled ≡ false))
  refill_quiet resize quiet es q c off =
      refill-Adds resize (λ q n. q.resize_enabled ≡ false)
        (λ q e n c off.
          EndsOrNegative-map _ (put resize q e) (Inserts q e) _ (put-quiet resize quiet q e c off)
            (λ q' i. (i, i.same.resize_enabled ∙ off)))
        es q 0 c off

  switched_off :
      (q : CalQueue W P) → IsCalendar q → IsCalendar (record q { resize_enabled = false })
  switched_off q c = record {
    size = c.size;
    base = c.base;
    last = c.last;
    counted = c.counted;
    top = c.top;
    bot = c.bot;
  }

  -- What the measurement leaves: the same calendar with the same events.
  pub record Keeps (q q' : CalQueue W P) : Type 0 where
    pub calendar : IsCalendar q'
    pub nbuckets : q'.nbuckets ≡ q.nbuckets
    pub firstsub : q'.firstsub ≡ q.firstsub
    pub resize_enabled : q'.resize_enabled ≡ true
    pub qsize : q'.qsize ≡ q.qsize
    pub keeps : (f : Node W P → Bool) → events f q' ≡ events f q

  pub new_width-Keeps :
      (resize : CalQueue W P → ℕ → Run (CalQueue W P)) (quiet : IsQuiet resize) (q : CalQueue W P)
      → IsCalendar q
      → q.resize_enabled ≡ true
      → EndsOrNegative (HasNegative W) (new_width resize q) (λ (w, q'). Keeps q q')
  unfolding new_width
  new_width-Keeps resize quiet q c on = elim (Bool-cases (ltb q.qsize 2)) [
    | inl few ↦ rw few (record {
      calendar = c;
      nbuckets = refl;
      firstsub = refl;
      resize_enabled = on;
      qsize = refl;
      keeps = λ f. refl;
    })
    | inr many ↦ rw many (
        EndsOrNegative-bind _
          (sample resize (samples q.qsize) (record q { resize_enabled = false })) _
          (λ (es, q').
            Takes (record q { resize_enabled = false }) es q' × (length es ≡ samples q.qsize))
          _
          (sample-Takes resize quiet (samples q.qsize) (record q { resize_enabled = false })
            (switched_off q c) (samples-le q.qsize many) refl)
          (λ (es, q') (s, _).
            EndsOrNegative-bind _ (refill resize es q') _
              (λ q''. Adds q' es q'' × (q''.resize_enabled ≡ false)) _
              (refill_quiet resize quiet es q' s.calendar s.same.resize_enabled)
              (λ q'' (a, _). record {
                calendar = record {
                  size = a.calendar.size;
                  base = a.calendar.base;
                  last =
                      subst (IsBucket W q.lastbucket) (sym (a.same.nbuckets ∙ s.same.nbuckets))
                        c.last;
                  counted = a.calendar.counted;
                  top = a.calendar.top;
                  bot = a.calendar.bot;
                };
                nbuckets = a.same.nbuckets ∙ s.same.nbuckets;
                firstsub = a.same.firstsub ∙ s.same.firstsub;
                resize_enabled = refl;
                qsize = omega (arith, s.qsize, a.qsize);
                keeps = λ f. omega (arith, s.takes f, a.adds f);
              })))
  ]
