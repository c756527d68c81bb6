-- ===== src/Testbed/CalQueue/Calls.antt =====
-- The calls of libfibers/testbed/src/calqueue.c on a queue that is between calls.
use fibers.Prelude.{
  suc, ◌+◌, ◌*◌, ◌/◌, ◌≤◌, ◌<◌, ◌≡◌, ◌∙◌, inl, inr, Bool, true, ◌&&◌, Option, none, some, arith,
  ltb, ◌==◌, if◌then◌else◌, Bool-cases,
}
use fibers.Testbed.Double.{Double}
use fibers.Testbed.CalQueue.{Node, CalQueue, done, ◌>>=◌, insert, remove, maxnbuckets, is_below}
use fibers.Testbed.CalQueue.Resizing.{put, deq, resize}
use fibers.Testbed.CalQueue.Counts.{one}
use fibers.Testbed.CalQueue.Size.{HasNegative, IsSize-pos, IsSize-le, IsSize-double, IsSize-half}
use fibers.Testbed.CalQueue.Invariant.{
  EndsOrNegative, EndsOrNegative-bind, EndsOrNegative-map, events, IsCalendar, IsValid,
}
use fibers.Testbed.CalQueue.Insert.{Inserts, insert-Inserts}
use fibers.Testbed.CalQueue.Remove.{Removes, remove-Removes}
use fibers.Testbed.CalQueue.Grow.{Resizes, resize-Resizes}

module _ {W P : Type 0} ⦃d : Double W⦄ where
  -- A valid queue with one event more.
  pub record Puts (q : CalQueue W P) (e : Node W P) (q' : CalQueue W P) : Type 0 where
    pub valid : IsValid q'
    pub qsize : q'.qsize ≡ suc q.qsize
    pub adds : (f : Node W P → Bool) → events f q' ≡ one (f e) + events f q

  -- A valid queue with one event less, or the empty queue.
  pub data Gets (q : CalQueue W P) : Option (Node W P) × CalQueue W P → Type 0 where
    nothing : q.qsize ≡ 0 → Gets q (none, q)
    got :
        {e : Node W P} {q' : CalQueue W P}
        → IsValid q'
        → q.qsize ≡ suc q'.qsize
        → ((f : Node W P → Bool) → events f q ≡ one (f e) + events f q')
        → Gets q (some e, q')

  doubled-valid :
      (q' : CalQueue W P)
      → IsCalendar q'
      → q'.resize_enabled ≡ true
      → q'.nbuckets < maxnbuckets
      → q'.qsize ≤ suc (2 * q'.nbuckets)
      → EndsOrNegative
          (HasNegative W)
          (resize 1 q' (2 * q'.nbuckets))
          (Resizes q' (2 * q'.nbuckets))
  doubled-valid q' c on less most =
      resize-Resizes 0 q' (2 * q'.nbuckets) c on (IsSize-double q'.nbuckets c.size less)
        (let le = IsSize-le (2 * q'.nbuckets) (IsSize-double q'.nbuckets c.size less) in
          omega (arith, le))
        (omega (arith, IsSize-pos q'.nbuckets c.size))

  halved-valid :
      (q' : CalQueue W P)
      → IsCalendar q'
      → q'.resize_enabled ≡ true
      → is_below q'.qsize q'.bot_threshold ≡ true
      → EndsOrNegative
          (HasNegative W)
          (resize 1 q' (q'.nbuckets / 2))
          (Resizes q' (q'.nbuckets / 2))
  halved-valid q' c on low =
      let few : suc (suc q'.qsize) < q'.nbuckets / 2 = ground (arith, c.bot) in
      resize-Resizes 0 q' (q'.nbuckets / 2) c on (IsSize-half q'.nbuckets c.size (omega arith))
        (omega (arith, IsSize-le q'.nbuckets c.size)) (omega arith)

  -- From a valid queue a put ends in a valid queue that holds the events of before and the new one, each
  -- as often, with no resize inside a resize; or it comes to a negative index.
  pub put-Puts :
      (q : CalQueue W P) (e : Node W P)
      → IsValid q
      → EndsOrNegative (HasNegative W) (put (resize 1) q e) (Puts q e)
  unfolding put
  put-Puts q e v =
      EndsOrNegative-bind _ (insert q e) _ (Inserts q e) _ (insert-Inserts q e v.calendar) (λ q' i.
        let c = i.calendar in
        let on = i.same.resize_enabled ∙ v.resize_enabled in
        elim (Bool-cases (ltb q'.top_threshold q'.qsize && ltb q'.nbuckets maxnbuckets)) [
          | inl full ↦
              let less : q'.nbuckets < maxnbuckets = ground arith in
              rw full (
                EndsOrNegative-map _ (resize 1 q' (2 * q'.nbuckets)) (Resizes q' (2 * q'.nbuckets))
                  _
                  (doubled-valid q' c on less
                    (ground (arith, v.not_full, i.qsize, i.same.nbuckets)))
                  (λ q'' r. record {
                    valid = record {
                      calendar = r.calendar;
                      resize_enabled = r.resize_enabled;
                      not_full = inl (
                          ground (
                            arith,
                            r.qsize,
                            r.nbuckets,
                            v.not_full,
                            i.qsize,
                            i.same.nbuckets,
                            IsSize-pos q'.nbuckets c.size,
                          ));
                    };
                    qsize = r.qsize ∙ i.qsize;
                    adds = λ f. r.keeps f ∙ i.adds f;
                  }))
          | inr fits ↦ rw fits (record {
            valid = record {
              calendar = c;
              resize_enabled = on;
              not_full = ground (arith, IsSize-le q'.nbuckets c.size, c.top);
            };
            qsize = i.qsize;
            adds = i.adds;
          })
        ])

  -- A removal from a queue with events.
  deq-Gets :
      (q : CalQueue W P)
      → IsValid q
      → 0 < q.qsize
      → EndsOrNegative
          (HasNegative W)
          (remove q >>= λ (e, q').
            (if is_below q'.qsize q'.bot_threshold then resize 1 q' (q'.nbuckets / 2) else done q')
            >>= λ q''. done (some e, q''))
          (Gets q)
  deq-Gets q v more =
      EndsOrNegative-bind _ (remove q) _ (λ (e, q'). Removes q e q') _
        (remove-Removes q v.calendar more)
        (λ (e, q') r.
          let c = r.calendar in
          let on = r.same.resize_enabled ∙ v.resize_enabled in
          elim (Bool-cases (is_below q'.qsize q'.bot_threshold)) [
            | inl low ↦ rw low (
                EndsOrNegative-bind _ (resize 1 q' (q'.nbuckets / 2)) _
                  (Resizes q' (q'.nbuckets / 2)) _ (halved-valid q' c on low)
                  (λ q'' s.
                    got
                      (record {
                        calendar = s.calendar;
                        resize_enabled = s.resize_enabled;
                        not_full = inl (ground (arith, s.qsize, s.nbuckets, c.bot));
                      })
                      (ground (arith, r.qsize, s.qsize))
                      (λ f. omega (arith, r.takes f, s.keeps f))))
            | inr high ↦ rw high (
                got
                  (record {
                    calendar = c;
                    resize_enabled = on;
                    not_full = ground (arith, v.not_full, r.qsize, r.same.nbuckets);
                  })
                  r.qsize r.takes)
          ])

  -- From a valid queue a removal ends: the queue is empty, or an event is taken out of it, and the
  -- other events stay, each as often, in a valid queue.
  pub deq-ends :
      (q : CalQueue W P) → IsValid q → EndsOrNegative (HasNegative W) (deq (resize 1) q) (Gets q)
  unfolding deq
  deq-ends q v = elim (Bool-cases (q.qsize == 0)) [
    | inl empty ↦ let z : q.qsize ≡ 0 = ground arith in rw empty (nothing z)
    | inr filled ↦ rw filled (deq-Gets q v (ground arith))
  ]
