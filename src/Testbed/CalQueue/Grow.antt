-- ===== src/Testbed/CalQueue/Grow.antt =====
-- resize of libfibers/testbed/src/calqueue.c: the events move to a calendar at the other end of the
-- array.
use fibers.Prelude.{
  ℕ, zero, suc, ◌+◌, ◌-◌, ◌*◌, ◌≤◌, ◌<◌, ◌≡◌, refl, sym, ◌∙◌, ◌⊎◌, inl, inr, Bool, true, false,
  List, [], ◌∷◌, arith, ltb, ◌==◌, Bool-cases,
}
use fibers.Testbed.Double.{Double}
use fibers.Testbed.CalQueue.{Node, CalQueue, Run, ◌>>=◌, insert, localinit, calqspace}
use fibers.Testbed.CalQueue.Resizing.{put, refill, copy, new_width, rebuild, resize}
use fibers.Testbed.CalQueue.Counts.{count, total, total-eq, clear-out, total-clear}
use fibers.Testbed.CalQueue.Size.{IsSize, HasNegative, long-IsBucket}
use fibers.Testbed.CalQueue.Invariant.{
  EndsOrNegative, EndsOrNegative-bind, EndsOrNegative-map, events, IsCalendar, IsSame,
}
use fibers.Testbed.CalQueue.Insert.{Inserts, insert-Inserts}
use fibers.Testbed.CalQueue.Width.{
  length, IsQuiet, Adds, IsSame-trans, refill-Adds, Keeps, new_width-Keeps,
}

module _ {W P : Type 0} ⦃d : Double W⦄ where
  length-count : (es : List (Node W P)) → length es ≡ count (λ _. true) es
  length-count [] = refl
  length-count (e ∷ es) = omega (arith, length-count es)

  resize-IsQuiet : (nest : ℕ) → IsQuiet {W = W} {P = P} (resize nest)
  unfolding resize
  resize-IsQuiet zero q n off = rw off
  resize-IsQuiet (suc nest) q n off = rw off

  -- Chains outside the calendar.
  abbrev Apart : CalQueue W P → ℕ → ℕ → Type 0
  Apart q base n = (base + n ≤ q.firstsub) ⊎ (q.firstsub + q.nbuckets ≤ base)

  -- The chains are added, and nothing is lost.
  record Copies (q : CalQueue W P) (base n : ℕ) (q' : CalQueue W P) : Type 0 where
    calendar : IsCalendar q'
    same : IsSame q q'
    qsize : q'.qsize ≡ total (λ _. true) q.calq base n + q.qsize
    adds : (f : Node W P → Bool) → events f q' ≡ total f q.calq base n + events f q

  module _ (resize : CalQueue W P → ℕ → Run (CalQueue W P)) where
    -- A put below the threshold only inserts.
    put-low :
        (q : CalQueue W P) (e : Node W P) (n : ℕ)
        → IsCalendar q
        → suc n + q.qsize ≤ 2 * q.nbuckets
        → EndsOrNegative
            (HasNegative W)
            (put resize q e)
            (λ q'. Inserts q e q' × (n + q'.qsize ≤ 2 * q'.nbuckets))
    unfolding put
    put-low q e n c room =
        EndsOrNegative-bind _ (insert q e) _ (Inserts q e) _ (insert-Inserts q e c) (λ q' i.
          let fits : ltb q'.top_threshold q'.qsize ≡ false =
            ground (arith, i.qsize, i.same.nbuckets, i.calendar.top) in
          rw fits (i, omega (arith, i.qsize, i.same.nbuckets)))

    Apart-outside :
        (q : CalQueue W P) (base n j : ℕ)
        → Apart q base n
        → base ≤ j
        → j < base + n
        → (j < q.firstsub) ⊎ (q.firstsub + q.nbuckets ≤ j)
    Apart-outside q base n j (inl h) low high = inl (omega arith)
    Apart-outside q base n j (inr h) low high = inr (omega arith)

    Apart-fewer :
        (q q' : CalQueue W P) (base n : ℕ) → IsSame q q' → Apart q base (suc n) → Apart q' base n
    Apart-fewer q q' base n s (inl h) = inl (omega (arith, s.firstsub))
    Apart-fewer q q' base n s (inr h) = inr (omega (arith, s.firstsub, s.nbuckets))

    copy-Copies :
        (base n : ℕ) (q : CalQueue W P)
        → IsCalendar q
        → Apart q base n
        → total (λ _. true) q.calq base n + q.qsize ≤ 2 * q.nbuckets
        → EndsOrNegative (HasNegative W) (copy resize base n q) (Copies q base n)
    unfolding copy total
    copy-Copies base zero q c apart room = record {
      calendar = c;
      same = record { nbuckets = refl; firstsub = refl; resize_enabled = refl };
      qsize = omega arith;
      adds = λ f. omega arith;
    }
    copy-Copies base (suc n) q c apart room =
        let chain = q.calq (base + n) in
        let rest = total (λ (_ : Node W P). true) q.calq base n in
        EndsOrNegative-bind _ (refill resize chain q) _
          (λ q'. Adds q chain q' × (rest + q'.qsize ≤ 2 * q'.nbuckets)) _
          (refill-Adds resize (λ q n. n + q.qsize ≤ 2 * q.nbuckets) put-low chain q rest c
            (omega (arith, room, length-count chain)))
          (λ q' (a, room').
            let still : (f : Node W P → Bool) → total f q'.calq base n ≡ total f q.calq base n =
              λ f. total-eq f q.calq q'.calq base n (λ j low high.
                a.outside j (Apart-outside q base (suc n) j apart low (omega (arith, high)))) in
            EndsOrNegative-map _ (copy resize base n q') (Copies q' base n) _
              (copy-Copies base n q' a.calendar (Apart-fewer q q' base n a.same apart)
                (omega (arith, still (λ _. true))))
              (λ q'' p. record {
                calendar = p.calendar;
                same = IsSame-trans a.same p.same;
                qsize = omega (arith, p.qsize, a.qsize, still (λ _. true), length-count chain);
                adds = λ f. omega (arith, p.adds f, a.adds f, still f);
              }))

  -- The calendar has `n` buckets, and the same events.
  pub record Resizes (q : CalQueue W P) (n : ℕ) (q' : CalQueue W P) : Type 0 where
    pub calendar : IsCalendar q'
    pub nbuckets : q'.nbuckets ≡ n
    pub resize_enabled : q'.resize_enabled ≡ true
    pub qsize : q'.qsize ≡ q.qsize
    pub keeps : (f : Node W P → Bool) → events f q' ≡ events f q

  -- A calendar that localinit has set up is empty.
  module _ (q : CalQueue W P) (base n : ℕ) (w p : W) where
    abbrev q₀ : CalQueue W P
    q₀ = localinit q base n w p

    pub localinit-empty : (f : Node W P → Bool) → events f q₀ ≡ 0
    unfolding localinit
    localinit-empty f = total-clear q.calq f base n

    pub localinit-IsCalendar : IsSize n → (base ≡ 0) ⊎ (base + n ≡ calqspace) → IsCalendar q₀
    unfolding localinit
    localinit-IsCalendar size at = record {
      size = size;
      base = at;
      last = long-IsBucket p w n size;
      counted = sym (total-clear q.calq (λ _. true) base n);
      top = refl;
      bot = refl;
    }

    localinit-old :
        (f : Node W P → Bool) (old m : ℕ)
        → (old + m ≤ base) ⊎ (base + n ≤ old)
        → total f q₀.calq old m ≡ total f q.calq old m
    unfolding localinit
    localinit-old f old m (inl h) =
        total-eq f q.calq _ old m (λ j low high. clear-out q.calq base n j (inl (omega arith)))
    localinit-old f old m (inr h) =
        total-eq f q.calq _ old m (λ j low high. clear-out q.calq base n j (inr (omega arith)))

    -- Filled from the old calendar, which lies apart.
    fill-Resizes :
        (resize : CalQueue W P → ℕ → Run (CalQueue W P))
        → IsSize n
        → (base ≡ 0) ⊎ (base + n ≡ calqspace)
        → (q.firstsub + q.nbuckets ≤ base) ⊎ (base + n ≤ q.firstsub)
        → IsCalendar q
        → q.resize_enabled ≡ true
        → q.qsize ≤ 2 * n
        → EndsOrNegative (HasNegative W) (copy resize q.firstsub q.nbuckets q₀) (Resizes q n)
    unfolding localinit
    fill-Resizes resize size at apart c on room =
        let old : (f : Node W P → Bool) → total f q₀.calq q.firstsub q.nbuckets ≡ events f q =
          λ f. localinit-old f q.firstsub q.nbuckets apart in
        EndsOrNegative-map _ (copy resize q.firstsub q.nbuckets q₀)
          (Copies q₀ q.firstsub q.nbuckets) _
          (copy-Copies resize q.firstsub q.nbuckets q₀ (localinit-IsCalendar size at) apart
            (omega (arith, old (λ _. true), c.counted)))
          (λ q' p. record {
            calendar = p.calendar;
            nbuckets = p.same.nbuckets;
            resize_enabled = p.same.resize_enabled ∙ on;
            qsize = omega (arith, p.qsize, old (λ _. true), c.counted);
            keeps = λ f. omega (arith, p.adds f, old f, localinit-empty f);
          })

module _ {W P : Type 0} ⦃d : Double W⦄ where
  rebuild-Resizes :
      (resize : CalQueue W P → ℕ → Run (CalQueue W P)) (w : W) (q : CalQueue W P) (n : ℕ)
      → IsCalendar q
      → q.resize_enabled ≡ true
      → IsSize n
      → q.nbuckets + n ≤ calqspace
      → q.qsize ≤ 2 * n
      → EndsOrNegative (HasNegative W) (rebuild resize n (w, q)) (Resizes q n)
  unfolding rebuild
  rebuild-Resizes resize w q n c on size fits room = elim (Bool-cases (q.firstsub == 0)) [
    | inl low ↦
        let zero_base : q.firstsub ≡ 0 = ground arith in
        rw low (
          fill-Resizes q (calqspace - n) n w q.lastprio resize size (inr (omega arith))
            (inl (omega arith)) c on room)
    | inr high ↦
        let top_base : q.firstsub + q.nbuckets ≡ calqspace = ground (arith, c.base) in
        rw high
          (fill-Resizes q 0 n w q.lastprio resize size (inl refl) (inr (omega arith)) c on room)
  ]

  resize-on :
      (nest : ℕ) (q : CalQueue W P) (n : ℕ)
      → q.resize_enabled ≡ true
      → resize (suc nest) q n ≡ (new_width (resize nest) q >>= rebuild (resize nest) n)
  unfolding resize
  resize-on nest q n on = ground arith

  -- A resize of a sound calendar (IsCalendar) between sizes that fit beside each other, with at most twice
  -- as many events as the new size, ends with the new size and the same events, or some quotient of two
  -- doubles has a negative remainder (HasNegative), and it comes to a negative index of the calendar; it
  -- does not resize again on the way.
  pub resize-Resizes :
      (nest : ℕ) (q : CalQueue W P) (n : ℕ)
      → IsCalendar q
      → q.resize_enabled ≡ true
      → IsSize n
      → q.nbuckets + n ≤ calqspace
      → q.qsize ≤ 2 * n
      → EndsOrNegative (HasNegative W) (resize (suc nest) q n) (Resizes q n)
  resize-Resizes nest q n c on size fits room = rw (resize-on nest q n on) (
      EndsOrNegative-bind _ (new_width (resize nest) q) _ (λ (w, q'). Keeps q q') _
        (new_width-Keeps (resize nest) (resize-IsQuiet nest) q c on)
        (λ (w, q') k.
          EndsOrNegative-map _ (rebuild (resize nest) n (w, q')) (Resizes q' n) _
            (rebuild-Resizes (resize nest) w q' n k.calendar k.resize_enabled size
              (omega (arith, k.nbuckets)) (omega (arith, k.qsize)))
            (λ q'' r. record {
              calendar = r.calendar;
              nbuckets = r.nbuckets;
              resize_enabled = r.resize_enabled;
              qsize = r.qsize ∙ k.qsize;
              keeps = λ f. r.keeps f ∙ k.keeps f;
            })))
