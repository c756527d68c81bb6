-- ===== src/Testbed/CalQueue/Insert.antt =====
-- calqueue_put of libfibers/testbed/src/calqueue.c, up to its test of the threshold.
use fibers.Prelude.{
  ℕ, suc, ◌+◌, ◌≤◌, ◌<◌, ◌≡◌, refl, ◌⊎◌, inl, inr, Bool, true, ℤ, pos, negsuc, arith, ℕ_discrete,
}
use fibers.Testbed.Double.{Double}
use fibers.Testbed.CalQueue.{Node, CalQueue, rem, insert, place, write, calendar}
use fibers.Testbed.CalQueue.Counts.{one, total-update, count-place}
use fibers.Testbed.CalQueue.Size.{IsSize-pos, InRange, rem-InRange, HasNegative}
use fibers.Testbed.CalQueue.Invariant.{EndsOrNegative, events, IsCalendar, IsSame}

module _ {W P : Type 0} ⦃d : Double W⦄ where
  -- The event is added, and nothing is lost.
  pub record Inserts (q : CalQueue W P) (e : Node W P) (q' : CalQueue W P) : Type 0 where
    pub calendar : IsCalendar q'
    pub same : IsSame q q'
    pub qsize : q'.qsize ≡ suc q.qsize
    pub adds : (f : Node W P → Bool) → events f q' ≡ one (f e) + events f q
    pub outside : (j : ℕ) → (j < q.firstsub) ⊎ (q.firstsub + q.nbuckets ≤ j) → q'.calq j ≡ q.calq j

  events-write :
      (q : CalQueue W P) (e : Node W P) (i : ℕ) (f : Node W P → Bool)
      → i < q.nbuckets
      → events f (write q i (place e (calendar q i))) ≡ one (f e) + events f q
  events-write q e i f h = omega (
    arith,
    total-update f q.calq i (place e (calendar q i)) q.firstsub q.nbuckets h,
    count-place f e (calendar q i),
  )

  pub insert-Inserts :
      (q : CalQueue W P) (e : Node W P)
      → IsCalendar q
      → EndsOrNegative (HasNegative W) (insert q e) (Inserts q e)
  unfolding insert
  insert-Inserts q e c = split (rem (d.to_int (d.div e.priority q.cwidth)) q.nbuckets) refl (
      rem-InRange (d.to_int (d.div e.priority q.cwidth)) q.nbuckets
        (omega (arith, IsSize-pos q.nbuckets c.size)))
    where
      split :
          (z : ℤ)
          → rem (d.to_int (d.div e.priority q.cwidth)) q.nbuckets ≡ z
          → InRange z q.nbuckets
          → EndsOrNegative (HasNegative W) (insert q e) (Inserts q e)
      split (negsuc k) at _ =
          rw (insert, at) (HasNegative.by_int e.priority q.cwidth q.nbuckets k c.size at)
      split (pos i) at below =
          rw (insert, at)
            (record {
              calendar = record {
                size = c.size;
                base = c.base;
                last = c.last;
                counted = omega (arith, c.counted, events-write q e i (λ _. true) below);
                top = c.top;
                bot = c.bot;
              };
              same = record { nbuckets = refl; firstsub = refl; resize_enabled = refl };
              qsize = refl;
              adds = λ f. events-write q e i f below;
              outside = λ j apart. elim (ℕ_discrete (q.firstsub + i) j) [
                | yes p ↦
                    absurd (elim apart [ inl h ↦ omega (arith, p) | inr h ↦ omega (arith, p) ])
                | no p ↦ ground (arith, p)
              ];
            })
