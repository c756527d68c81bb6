-- ===== src/Testbed/CalQueue/Resizing.antt =====
-- libfibers/testbed/src/calqueue.c: new_width, resize, and the calls of the queue.
use fibers.Prelude.{
  ℕ, zero, suc, ◌+◌, ◌-◌, ◌*◌, ◌/◌, Bool, true, false, ◌&&◌, Option, none, some, List, [], ◌∷◌, ltb,
  ◌==◌, if◌then◌else◌,
}
use fibers.Testbed.Double.{Double}
use fibers.Testbed.CalQueue.{
  Node, CalQueue, Run, done, fault, no_fuel, ◌>>=◌, calqspace, maxnbuckets, is_below, localinit,
  insert, remove,
}

-- How many events new_width takes out to measure their gaps.
abbrev pub samples : ℕ → ℕ
samples qsize = let n = if ltb 5 qsize then 5 + qsize / 10 else qsize in if ltb 25 n then 25 else n

module _ {W P : Type 0} ⦃d : Double W⦄ where
  -- `resize` is passed in: it calls calqueue_put, and calqueue_put calls it.
  module _ (resize : CalQueue W P → ℕ → Run (CalQueue W P)) where
    unfoldable pub put : CalQueue W P → Node W P → Run (CalQueue W P)
    put q e = insert q e >>= λ q'.
        if ltb q'.top_threshold q'.qsize && ltb q'.nbuckets maxnbuckets
        then resize q' (2 * q'.nbuckets)
        else done q'

    unfoldable pub deq : CalQueue W P → Run (Option (Node W P) × CalQueue W P)
    deq q =
        if q.qsize == 0
        then done (none, q)
        else (remove q >>= λ (e, q').
            (if is_below q'.qsize q'.bot_threshold then resize q' (q'.nbuckets / 2) else done q')
            >>= λ q''. done (some e, q''))

    -- `n` events from the front; their priorities are read, so there has to be an event each time.
    unfoldable pub sample : ℕ → CalQueue W P → Run (List (Node W P) × CalQueue W P)
    sample zero q = done ([], q)
    sample (suc n) q = deq q >>= λ (t, q'). elim t [
      | none ↦ fault
      | some e ↦ sample n q' >>= λ (es, q''). done (e ∷ es, q'')
    ]

    -- The sampled events are put back one by one.
    unfoldable pub refill : List (Node W P) → CalQueue W P → Run (CalQueue W P)
    refill [] q = done q
    refill (e ∷ es) q = put q e >>= refill es

    -- The chain of an old bucket is put in the new calendar.
    unfoldable pub copy : ℕ → ℕ → CalQueue W P → Run (CalQueue W P)
    copy oldcalendar zero q = done q
    copy oldcalendar (suc i) q = refill (q.calq (oldcalendar + i)) q >>= copy oldcalendar i

  -- The sum of the gaps between neighbours, from `acc` on.
  unfoldable pub gaps : W → List (Node W P) → W
  gaps acc [] = acc
  gaps acc (e ∷ []) = acc
  gaps acc (e ∷ f ∷ es) = gaps (d.add acc (d.sub f.priority e.priority)) (f ∷ es)

  -- The same without the large gaps, and how many were added.
  unfoldable pub small_gaps : W → W → ℕ → List (Node W P) → W × ℕ
  small_gaps average acc j [] = (acc, j)
  small_gaps average acc j (e ∷ []) = (acc, j)
  small_gaps average acc j (e ∷ f ∷ es) =
      let gap = d.sub f.priority e.priority in
      let small = d.lt gap (d.mul average (d.of_nat 2)) in
      small_gaps average (if small then d.add acc gap else acc) (if small then suc j else j)
        (f ∷ es)

  unfoldable pub width_of : List (Node W P) → W
  width_of es =
      let average = d.div (gaps (d.of_nat 0) es) (d.of_nat (count es - 1)) in
      let (newaverage, j) = small_gaps average (d.of_nat 0) 0 es in
      d.mul (d.div newaverage (d.of_nat j)) (d.of_nat 3)
    where
      count : List (Node W P) → ℕ
      count [] = 0
      count (_ ∷ es) = suc (count es)

  -- new_width, and the queue afterwards.
  unfoldable pub new_width :
      (CalQueue W P → ℕ → Run (CalQueue W P)) → CalQueue W P → Run (W × CalQueue W P)
  new_width resize q =
      if ltb q.qsize 2
      then done (d.of_nat 1, q)
      else (sample resize (samples q.qsize) (record q { resize_enabled = false }) >>= λ (es, q').
          refill resize es q' >>= λ q''. done (
            width_of es,
            record q'' {
              lastbucket = q.lastbucket;
              lastprio = q.lastprio;
              buckettop = q.buckettop;
              resize_enabled = true;
            },
          ))

  -- The second half of resize: a calendar of `newsize` buckets at the other end of the array, filled
  -- from the old one.
  unfoldable pub rebuild :
      (CalQueue W P → ℕ → Run (CalQueue W P)) → ℕ → W × CalQueue W P → Run (CalQueue W P)
  rebuild resize newsize (bwidth, q) =
      let qbase = if q.firstsub == 0 then calqspace - newsize else 0 in
      copy resize q.firstsub q.nbuckets (localinit q qbase newsize bwidth q.lastprio)

  -- The first argument bounds how deep resizes nest: the puts of a resize may resize themselves.
  unfoldable pub resize : ℕ → CalQueue W P → ℕ → Run (CalQueue W P)
  resize zero q newsize = if q.resize_enabled then no_fuel else done q
  resize (suc nest) q newsize =
      if q.resize_enabled
      then (new_width (resize nest) q >>= rebuild (resize nest) newsize)
      else done q

  -- One resize does not nest: see `put-Puts`.
  unfoldable pub calqueue_put : CalQueue W P → W → P → Run (CalQueue W P)
  calqueue_put q priority payload =
      put (resize 1) q (record { priority = priority; payload = payload })

  unfoldable pub calqueue_get : CalQueue W P → Run (Option P × CalQueue W P)
  calqueue_get q = deq (resize 1) q >>= λ (node, q').
      done (elim node [ none ↦ none | some e ↦ some e.payload ], q')

  -- Over memory with any contents.
  unfoldable pub calqueue_init : CalQueue W P → CalQueue W P
  calqueue_init q = record (localinit q 0 2 (d.of_nat 1) (d.of_nat 0)) { resize_enabled = true }

module _ {W P : Type 0} where
  unfoldable pub calqueue_empty : CalQueue W P → Bool
  calqueue_empty q = q.qsize == 0
