-- ===== src/Testbed/CalQueue/Order/Resizes.antt =====
-- Resizes, puts and removals of libfibers/testbed/src/calqueue.c keep the buckets sorted.
use fibers.Prelude.{
  ℕ, ◌+◌, ◌-◌, ◌*◌, ◌/◌, ◌≤◌, ◌<◌, ◌≡◌, refl, sym, ap, subst, ◌∙◌, ◌⊎◌, inl, inr, false, ◌&&◌,
  Option, none, some, arith, ltb, ◌==◌, if◌then◌else◌, Bool-cases,
}
use fibers.Testbed.Double.{Double}
use fibers.Testbed.CalQueue.{
  Node, CalQueue, done, ◌>>=◌, bot_of, is_below, insert, remove, localinit, clear, calqspace,
  maxnbuckets,
}
use fibers.Testbed.Run.{Gives, Gives-bind, Gives-map, Gives-if}
use fibers.Testbed.CalQueue.Resizing.{
  put, deq, sample, refill, samples, new_width, rebuild, resize, copy,
}
use fibers.Testbed.CalQueue.Size.{InRange, rem-InRange}
use fibers.Testbed.CalQueue.Counts.{clear-in, clear-out}
use fibers.Testbed.CalQueue.Order.{IsOrder, IsSorted}
use fibers.Testbed.CalQueue.Order.Buckets.{IsKept, AllReal, insert-IsKept}
use fibers.Testbed.CalQueue.Order.Calls.{Kept, sample-Kept, refill-Kept, copy-Kept, resize-IsStill}

abbrev pub Cells : ℕ → ℕ → ℕ → Type 0
Cells fs nb j = (fs ≤ j) × (j < fs + nb)

module _ {W P : Type 0} ⦃d : Double W⦄ (real : W → Type 0) where
  -- The buckets of the calendar are sorted, and searches begin at one of them.
  abbrev pub IsOrdered : CalQueue W P → Type 0
  IsOrdered q = (0 < q.nbuckets) × IsKept real (Cells q.firstsub q.nbuckets) q.firstsub q.nbuckets q

abbrev pub cells_within : (fs nb i : ℕ) → i < nb → Cells fs nb (fs + i)
cells_within fs nb i h = (omega arith, omega (arith, h))

-- A calendar that is cleared is sorted, and cells that were sorted are.
pub localinit-Kept :
    {W P : Type 0} ⦃d : Double W⦄ {real : W → Type 0} (S : ℕ → Type 0) (q : CalQueue W P)
    (qbase newsize : ℕ) (w p : W)
    → 0 < newsize
    → ((j : ℕ) → S j → IsSorted real (q.calq j))
    → IsKept real (λ j. S j ⊎ Cells qbase newsize j) qbase newsize (localinit q qbase newsize w p)
unfolding localinit
localinit-Kept ⦃d = d⦄ {real = real} S q qbase newsize w p more before = record {
  sorted = λ j here. sorted_now j here;
  firstsub = refl;
  nbuckets = refl;
  last = rem-InRange (d.to_long (d.div p w)) newsize more;
  bot = refl;
}
  where
    cleared : (j : ℕ) → Cells qbase newsize j → IsSorted real (clear qbase newsize q.calq j)
    cleared j (low, high) =
        let at : qbase + (j - qbase) ≡ j = omega (arith, low) in
        subst (IsSorted real)
          (sym (
            ap (clear qbase newsize q.calq) (sym at)
            ∙ clear-in q.calq qbase newsize (j - qbase) (omega (arith, low, high))))
          tt

    sorted_now :
        (j : ℕ) → S j ⊎ Cells qbase newsize j → IsSorted real (clear qbase newsize q.calq j)
    sorted_now j (inr here) = cleared j here
    sorted_now j (inl old) = elim (Bool-cases (ltb j qbase)) [
      | inl below ↦
          subst (IsSorted real) (sym (clear-out q.calq qbase newsize j (inl (ground arith))))
            (before j old)
      | inr above ↦ elim (Bool-cases (ltb j (qbase + newsize))) [
        | inl inside ↦ cleared j (ground arith, ground arith)
        | inr behind ↦
            subst (IsSorted real) (sym (clear-out q.calq qbase newsize j (inr (ground arith))))
              (before j old)
      ]
    ]

right : (A : Type 0) {B : Type 0} → B → A ⊎ B
right A b = inr b

-- Only the cells of the calendar matter.
pub Kept-IsOrdered :
    {W P : Type 0} ⦃d : Double W⦄ {real : W → Type 0} (S : ℕ → Type 0) (fs nb : ℕ)
    (q : CalQueue W P)
    → ((i : ℕ) → i < nb → S (fs + i))
    → 0 < nb
    → IsKept real S fs nb q
    → IsOrdered real q
Kept-IsOrdered {real = real} S fs nb q within more k = (
  ground (arith, k.nbuckets, more),
  record {
    sorted = λ j (low, high). k.sorted j (
        subst S (omega (arith, low, k.firstsub))
          (within (j - fs) (omega (arith, low, high, k.firstsub, k.nbuckets))));
    firstsub = refl;
    nbuckets = refl;
    last = subst (InRange q.lastbucket) (sym k.nbuckets) k.last;
    bot = k.bot ∙ ap bot_of (sym k.nbuckets);
  },
)

module _ {W P : Type 0} ⦃d : Double W⦄ {real : W → Type 0} (o : IsOrder W real) where
  module _ (S : ℕ → Type 0) (fs nb : ℕ) (within : (i : ℕ) → i < nb → S (fs + i)) where
    new_width-Kept :
        (q : CalQueue W P)
        → IsKept real S fs nb q
        → Gives (new_width (resize 0) q) (λ (w, q'). IsKept real S fs nb q')
    unfolding new_width Kept
    new_width-Kept q k = elim (Bool-cases (ltb q.qsize 2)) [
      | inl few ↦ rw few k
      | inr many ↦ rw many (
          Gives-bind (sample (resize 0) (samples q.qsize) (record q { resize_enabled = false })) _
            (λ (es, q'). AllReal real es × IsKept real S fs nb q') _
            (sample-Kept o S fs nb within (resize 0) resize-IsStill (samples q.qsize)
              (record q { resize_enabled = false })
              (record {
                sorted = k.sorted;
                firstsub = k.firstsub;
                nbuckets = k.nbuckets;
                last = k.last;
                bot = k.bot;
              }))
            (λ (es, q') (res, k').
              Gives-bind (refill (resize 0) es q') _ (IsKept real S fs nb) _
                (refill-Kept o S fs nb within (resize 0) resize-IsStill es q' res k')
                (λ q'' k''. record {
                  sorted = k''.sorted;
                  firstsub = k''.firstsub;
                  nbuckets = k''.nbuckets;
                  last = k.last;
                  bot = k''.bot;
                })))
    ]

    rebuild-Ordered :
        (q : CalQueue W P) (newsize : ℕ) (w : W)
        → 0 < newsize
        → IsKept real S fs nb q
        → Gives (rebuild (resize 0) newsize (w, q)) (IsOrdered real)
    unfolding rebuild Kept
    rebuild-Ordered q newsize w more k =
        let qbase = if q.firstsub == 0 then calqspace - newsize else 0 in
        let S' : ℕ → Type 0 = λ j. S j ⊎ Cells qbase newsize j in
        let here =
          λ (i : ℕ) (h : i < newsize). right (S (qbase + i)) (cells_within qbase newsize i h) in
        Gives-map (copy (resize 0) q.firstsub q.nbuckets (localinit q qbase newsize w q.lastprio)) _
          _
          (copy-Kept o S' qbase newsize here (resize 0) resize-IsStill q.firstsub q.nbuckets _
            (λ i h.
              inl
                (subst (λ b. S (b + i)) (sym k.firstsub) (within i (omega (arith, h, k.nbuckets)))))
            (localinit-Kept S q qbase newsize w q.lastprio more k.sorted))
          (λ q' k'. Kept-IsOrdered S' qbase newsize q' here more k')

  resize-IsOrdered :
      (q : CalQueue W P) (newsize : ℕ)
      → 0 < newsize
      → IsOrdered real q
      → Gives (resize 1 q newsize) (IsOrdered real)
  unfolding resize
  resize-IsOrdered q newsize more (some_buckets, k) =
      let S = Cells q.firstsub q.nbuckets in
      let within = cells_within q.firstsub q.nbuckets in
      Gives-if q.resize_enabled (new_width (resize 0) q >>= rebuild (resize 0) newsize) (done q)
        (IsOrdered real)
        (λ on.
          Gives-bind (new_width (resize 0) q) _ (λ (w, q'). IsKept real S q.firstsub q.nbuckets q')
            _ (new_width-Kept S q.firstsub q.nbuckets within q k)
            (λ (w, q') k'. rebuild-Ordered S q.firstsub q.nbuckets within q' newsize w more k'))
        (λ off. (some_buckets, k))

  pub put-IsOrdered :
      (q : CalQueue W P) (e : Node W P)
      → real e.priority
      → IsOrdered real q
      → Gives (put (resize 1) q e) (IsOrdered real)
  unfolding put
  put-IsOrdered q e re (more, k) =
      let S = Cells q.firstsub q.nbuckets in
      let within = cells_within q.firstsub q.nbuckets in
      Gives-bind (insert q e) _ (IsOrdered real) _
        (Gives-map (insert q e) _ _ (insert-IsKept o S q.firstsub q.nbuckets within q e re k)
          (λ q' k'. Kept-IsOrdered S q.firstsub q.nbuckets q' within more k'))
        (λ q' ordered.
          elim (Bool-cases (ltb q'.top_threshold q'.qsize && ltb q'.nbuckets maxnbuckets)) [
            | inl full ↦
                rw full (resize-IsOrdered q' (2 * q'.nbuckets) (omega (arith, ordered.0)) ordered)
            | inr fits ↦ rw fits ordered
          ])

  -- What holds of the node that calqueue_deq returns, if it returns one.
  abbrev pub Maybe : (Node W P → Type 0) → CalQueue W P → Option (Node W P) → Type 0
  Maybe Q q none = q.qsize ≡ 0
  Maybe Q q (some e) = Q e

  pub deq-IsOrdered :
      (q : CalQueue W P) (Q : Node W P → Type 0)
      → IsOrdered real q
      → Gives
          (remove q)
          (λ (e, q'). Q e × IsKept real (Cells q.firstsub q.nbuckets) q.firstsub q.nbuckets q')
      → Gives (deq (resize 1) q) (λ (t, q'). Maybe Q q t × IsOrdered real q')
  unfolding deq
  deq-IsOrdered q Q (more, k) taken =
      let S = Cells q.firstsub q.nbuckets in
      let within = cells_within q.firstsub q.nbuckets in
      Gives-if (q.qsize == 0) (done (none, q))
        (remove q >>= λ (e, q').
          (if is_below q'.qsize q'.bot_threshold then resize 1 q' (q'.nbuckets / 2) else done q')
          >>= λ q''. done (some e, q''))
        (λ (t, q'). Maybe Q q t × IsOrdered real q') (λ empty. (ground arith, (more, k)))
        (λ filled. Gives-bind (remove q) _ _ _ taken (λ (e, q') (first, k').
          let ordered = Kept-IsOrdered S q.firstsub q.nbuckets q' within more k' in
          Gives-bind
            (if is_below q'.qsize q'.bot_threshold then resize 1 q' (q'.nbuckets / 2) else done q')
            _ (IsOrdered real) _
            (Gives-if (is_below q'.qsize q'.bot_threshold) (resize 1 q' (q'.nbuckets / 2)) (done q')
              (IsOrdered real)
              (λ low.
                resize-IsOrdered q' (q'.nbuckets / 2) (ground (arith, low, ordered.1.bot)) ordered)
              (λ high. ordered))
            (λ q'' s. (first, s))))
