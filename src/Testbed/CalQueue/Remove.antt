-- ===== src/Testbed/CalQueue/Remove.antt =====
-- calqueue_deq of libfibers/testbed/src/calqueue.c, up to its test of the threshold: the search of a
-- year, the direct search, and the removal.
use fibers.Prelude.{
  ℕ, zero, suc, ◌+◌, ◌-◌, ◌^◌, ◌≤◌, ◌<◌, ◌≡◌, refl, ◌⊎◌, inl, inr, Bool, true, Option, none, some,
  List, [], ◌∷◌, ℤ, pos, negsuc, arith, ltb, ◌==◌, if◌then◌else◌, Bool-cases,
}
use fibers.Testbed.Double.{Double}
use fibers.Testbed.CalQueue.{
  Node, CalQueue, ◌>>=◌, look, direct, pick, process, remove, is_due, next_bucket, write, calendar,
}
use fibers.Testbed.CalQueue.Counts.{one, total, total-update}
use fibers.Testbed.CalQueue.Size.{HasNegative, IsBucket}
use fibers.Testbed.CalQueue.Invariant.{
  EndsOrNegative, EndsOrNegative-bind, EndsOrNegative-map, events, IsCalendar, IsSame,
}

-- How many buckets a search visits from `i` to the one before `l`.
abbrev way : ℕ → ℕ → ℕ → ℕ
way i l nbuckets = if ltb i l then l - i else nbuckets - i + l

module _ {W P : Type 0} ⦃d : Double W⦄ where
  -- Bucket `i` has a first event.
  abbrev HasHead : CalQueue W P → ℕ → Type 0
  HasHead q i = (i < q.nbuckets) × (e : Node W P) × (es : List (Node W P)) × (calendar q i ≡ e ∷ es)

  abbrev Hits : CalQueue W P → Option ℕ → Type 0
  Hits q none = Unit
  Hits q (some i) = HasHead q i

  List-cases :
      (xs : List (Node W P)) → (xs ≡ []) ⊎ ((x : Node W P) × (ys : List (Node W P)) × (xs ≡ x ∷ ys))
  List-cases [] = inl refl
  List-cases (x ∷ xs) = inr (x, xs, refl)

  -- The event is taken out, and nothing else is lost.
  pub record Removes (q : CalQueue W P) (e : Node W P) (q' : CalQueue W P) : Type 0 where
    pub calendar : IsCalendar q'
    pub same : IsSame q q'
    pub qsize : q.qsize ≡ suc q'.qsize
    pub takes : (f : Node W P → Bool) → events f q ≡ one (f e) + events f q'

module _ {W P : Type 0} ⦃d : Double W⦄ where
  due-cons :
      (xs : List (Node W P)) (top : W)
      → is_due xs top ≡ true
      → (x : Node W P) × (ys : List (Node W P)) × (xs ≡ x ∷ ys)
  due-cons [] top h = cc
  due-cons (x ∷ xs) top h = (x, xs, refl)

module _ {W P : Type 0} ⦃d : Double W⦄ (q : CalQueue W P) where
  look-Hits :
      (rounds l i : ℕ) (top : W)
      → i < q.nbuckets
      → l < q.nbuckets
      → way i l q.nbuckets ≤ rounds
      → EndsOrNegative (HasNegative W) (look rounds q l i top) (λ (hit, top'). Hits q hit)
  unfolding look
  look-Hits zero l i top hi hl h = absurd (ground arith)
  look-Hits (suc rounds) l i top hi hl h = elim (Bool-cases (is_due (calendar q i) top)) [
    | inl due ↦ let (e, es, at) = due-cons (calendar q i) top due in rw due (hi, e, es, at)
    | inr late ↦ elim (Bool-cases (next_bucket i q.nbuckets == l)) [
      | inl end ↦ rw (late, end) tt
      | inr on ↦
          rw (late, on)
            (look-Hits rounds l (next_bucket i q.nbuckets) (d.add top q.cwidth) (ground arith) hl
              (ground arith))
    ]
  ]

  -- The direct search keeps a bucket that it has found ...
  direct-keeps :
      (n i j : ℕ) (lowest : W)
      → i + n ≡ q.nbuckets
      → HasHead q j
      → (r : ℕ) × (direct n q i (some j) lowest ≡ some r) × HasHead q r
  unfolding direct
  direct-keeps zero i j lowest h head = (j, refl, head)
  direct-keeps (suc n) i j lowest h head = elim (List-cases (calendar q i)) [
    | inl e ↦ rw (e, direct) (direct-keeps n (suc i) j lowest (omega arith) head)
    | inr (x, xs, e) ↦ elim (Bool-cases (d.lt x.priority lowest)) [
      | inl lower ↦
          rw (e, direct, lower)
            (direct-keeps n (suc i) i x.priority (omega arith) (omega arith, x, xs, e))
      | inr higher ↦ rw (e, direct, higher) (direct-keeps n (suc i) j lowest (omega arith) head)
    ]
  ]

  -- ... and finds one where some bucket is not empty.
  direct-finds :
      (n i : ℕ) (lowest : W)
      → i + n ≡ q.nbuckets
      → total (λ _. true) q.calq q.firstsub i ≡ 0
      → 0 < events (λ _. true) q
      → (r : ℕ) × (direct n q i none lowest ≡ some r) × HasHead q r
  unfolding direct total
  direct-finds zero i lowest h before some_left = absurd (ground arith)
  direct-finds (suc n) i lowest h before some_left = elim (List-cases (calendar q i)) [
    | inl e ↦ rw (e, direct) (direct-finds n (suc i) lowest (omega arith) (ground arith) some_left)
    | inr (x, xs, e) ↦
        rw (e, direct) (direct-keeps n (suc i) i x.priority (omega arith) (omega arith, x, xs, e))
  ]

  process-Removes :
      (i : ℕ)
      → IsCalendar q
      → HasHead q i
      → EndsOrNegative (HasNegative W) (process q i) (λ (e, q'). Removes q e q')
  unfolding process
  process-Removes i c (below, e, es, at) =
      let gone = λ (f : Node W P → Bool). total-update f q.calq i es q.firstsub q.nbuckets below in
      let takes : (f : Node W P → Bool) → events f q ≡ one (f e) + events f (write q i es) =
        λ f. ground (arith, gone f) in
      rw (at, process)
        (record {
          calendar = record {
            size = c.size;
            base = c.base;
            last = below;
            counted = omega (arith, c.counted, takes (λ _. true));
            top = c.top;
            bot = c.bot;
          };
          same = record { nbuckets = refl; firstsub = refl; resize_enabled = refl };
          qsize = omega (arith, c.counted, takes (λ _. true));
          takes = takes;
        })

module _ {W P : Type 0} ⦃d : Double W⦄ (q : CalQueue W P) where
  pick-Removes :
      (hit : Option ℕ)
      → IsCalendar q
      → 0 < q.qsize
      → Hits q hit
      → EndsOrNegative (HasNegative W) (pick q hit) (λ (e, q'). Removes q e q')
  unfolding pick total
  pick-Removes (some i) c more head = process-Removes q i c head
  pick-Removes none c more _ =
      let (r, found, head) =
        direct-finds q q.nbuckets 0 (d.of_nat (2 ^ 63)) (omega arith) refl
          (omega (arith, c.counted)) in
      rw (found, pick) (process-Removes q r c head)

module _ {W P : Type 0} ⦃d : Double W⦄ (q : CalQueue W P) where
  pub remove-at :
      {l : ℕ}
      → q.lastbucket ≡ pos l
      → remove q ≡ (
          look q.nbuckets q l l q.buckettop >>= λ (hit, top).
          pick (record q { buckettop = top }) hit)
  unfolding remove
  remove-at e = ground arith

  -- The place of the search is not part of the calendar.
  moved-Removes :
      {top : W} {e : Node W P} {q' : CalQueue W P}
      → Removes (record q { buckettop = top }) e q'
      → Removes q e q'
  moved-Removes r = record {
    calendar = r.calendar;
    same = record {
      nbuckets = r.same.nbuckets;
      firstsub = r.same.firstsub;
      resize_enabled = r.same.resize_enabled;
    };
    qsize = r.qsize;
    takes = r.takes;
  }

  moved-IsCalendar : (top : W) → IsCalendar q → IsCalendar (record q { buckettop = top })
  moved-IsCalendar top c = record {
    size = c.size;
    base = c.base;
    last = c.last;
    counted = c.counted;
    top = c.top;
    bot = c.bot;
  }

  moved-Hits : (top : W) (hit : Option ℕ) → Hits q hit → Hits (record q { buckettop = top }) hit
  moved-Hits top none h = tt
  moved-Hits top (some i) h = h

  -- In a sound calendar (IsCalendar) that is not empty, the searches end, within one year and one visit
  -- to each bucket, and one event is taken out; the others stay. Or they begin at a negative number.
  pub remove-Removes :
      IsCalendar q
      → 0 < q.qsize
      → EndsOrNegative (HasNegative W) (remove q) (λ (e, q'). Removes q e q')
  unfolding remove
  remove-Removes c more = split q.lastbucket refl c.last
    where
      split :
          (z : ℤ)
          → q.lastbucket ≡ z
          → IsBucket W z q.nbuckets
          → EndsOrNegative (HasNegative W) (remove q) (λ (e, q'). Removes q e q')
      split (negsuc k) at less = rw (remove, at) less
      split (pos l) at below = rw (remove-at at) (
          EndsOrNegative-bind _ (look q.nbuckets q l l q.buckettop) _ (λ (hit, top'). Hits q hit) _
            (look-Hits q q.nbuckets l l q.buckettop below below (ground arith))
            (λ (hit, top) found.
              EndsOrNegative-map _ (pick (record q { buckettop = top }) hit)
                (λ (e, q'). Removes (record q { buckettop = top }) e q') _
                (pick-Removes (record q { buckettop = top }) hit (moved-IsCalendar top c) more
                  (moved-Hits top hit found))
                (λ (e, q') r. moved-Removes r)))
