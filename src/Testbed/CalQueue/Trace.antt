-- ===== src/Testbed/CalQueue/Trace.antt =====
-- Any sequence of calls of libfibers/testbed/src/calqueue.c, from calqueue_init on.
use fibers.Prelude.{
  ℕ, suc, ◌+◌, ◌<◌, ◌≡◌, refl, ◌⊎◌, inl, inr, Bool, true, false, Option, none, some, List, [], ◌∷◌,
  arith, ◌==◌, Bool-cases,
}
use fibers.Testbed.Double.{Double}
use fibers.Testbed.CalQueue.{Node, CalQueue, Run, done, ◌>>=◌, localinit}
use fibers.Testbed.CalQueue.Resizing.{
  deq, resize, calqueue_put, calqueue_get, calqueue_init, calqueue_empty,
}
use fibers.Testbed.CalQueue.Counts.{one, count}
use fibers.Testbed.CalQueue.Size.{HasNegative}
use fibers.Testbed.CalQueue.Invariant.{
  EndsOrNegative, EndsOrNegative-bind, EndsOrNegative-map, events, IsValid,
}
use fibers.Testbed.CalQueue.Grow.{localinit-IsCalendar, localinit-empty}
use fibers.Testbed.CalQueue.Calls.{Puts, Gets, nothing, got, put-Puts, deq-ends}

module _ {W P : Type 0} ⦃d : Double W⦄ where
  -- The events whose payload passes `g`.
  abbrev pub payloads : (P → Bool) → CalQueue W P → ℕ
  payloads g q = events (λ e. g e.payload) q

  -- One payload less, or the empty queue.
  pub data Pops (q : CalQueue W P) : Option P × CalQueue W P → Type 0 where
    empty : q.qsize ≡ 0 → Pops q (none, q)
    pops :
        {x : P} {q' : CalQueue W P}
        → IsValid q'
        → q.qsize ≡ suc q'.qsize
        → ((g : P → Bool) → payloads g q ≡ one (g x) + payloads g q')
        → Pops q (some x, q')

  -- calqueue_empty tells a valid queue with no events from the others.
  pub calqueue_empty_iff :
      (q : CalQueue W P)
      → IsValid q
      → ((calqueue_empty q ≡ true) × (events (λ _. true) q ≡ 0))
        ⊎ ((calqueue_empty q ≡ false) × (0 < events (λ _. true) q))
  unfolding calqueue_empty
  calqueue_empty_iff q v = elim (Bool-cases (q.qsize == 0)) [
    | inl e ↦ inl (e, ground (arith, v.calendar.counted))
    | inr e ↦ inr (e, ground (arith, v.calendar.counted))
  ]

module _ {W P : Type 0} ⦃d : Double W⦄ where
  -- The queue that calqueue_init sets up in any memory is valid and empty.
  pub calqueue_init-IsValid :
      (q : CalQueue W P) → IsValid (calqueue_init q) × (calqueue_empty (calqueue_init q) ≡ true)
  unfolding calqueue_init calqueue_empty localinit
  calqueue_init-IsValid q =
      let c =
        localinit-IsCalendar q 0 2 (d.of_nat 1) (d.of_nat 0) (0, omega arith, refl) (inl refl) in
      (
        record {
          calendar = record {
            size = c.size;
            base = c.base;
            last = c.last;
            counted = c.counted;
            top = c.top;
            bot = c.bot;
          };
          resize_enabled = refl;
          not_full = inl (omega arith);
        },
        refl,
      )

  pub init-empty : (q : CalQueue W P) (f : Node W P → Bool) → events f (calqueue_init q) ≡ 0
  unfolding calqueue_init
  init-empty q f = localinit-empty q 0 2 (d.of_nat 1) (d.of_nat 0) f

  -- From a valid queue calqueue_put ends in a valid queue with the new event and those of before, each as
  -- often as before, or a negative quotient (HasNegative) takes it to a negative index of the calendar.
  pub calqueue_put-Puts :
      (q : CalQueue W P) (p : W) (x : P)
      → IsValid q
      → EndsOrNegative
          (HasNegative W)
          (calqueue_put q p x)
          (Puts q (record { priority = p; payload = x }))
  unfolding calqueue_put
  calqueue_put-Puts q p x v = put-Puts q (record { priority = p; payload = x }) v

  -- From a valid queue calqueue_get ends: it returns nothing, and the queue is empty and unchanged, or
  -- the payload of one event, and the queue is valid and has lost this event alone. Or a negative quotient
  -- (HasNegative) takes it to a negative index of the calendar.
  pub calqueue_get-Pops :
      (q : CalQueue W P) → IsValid q → EndsOrNegative (HasNegative W) (calqueue_get q) (Pops q)
  unfolding calqueue_get
  calqueue_get-Pops q v =
      EndsOrNegative-bind _ (deq (resize 1) q) _ (Gets q) _ (deq-ends q v)
        (λ (n, q') g. payload_of g)
    where
      payload_of :
          {r : Option (Node W P) × CalQueue W P}
          → Gets q r
          → Pops q (elim r.0 [ none ↦ none | some e ↦ some e.payload ], r.1)
      payload_of (nothing z) = empty z
      payload_of (got v' s h) = pops v' s (λ g. h (λ e. g e.payload))

abbrev pub keep : {P : Type 0} → Option P → List P → List P
keep none xs = xs
keep (some x) xs = x ∷ xs

count-keep :
    {P : Type 0} (g : P → Bool) (r : Option P) (xs : List P)
    → count g (keep r xs) ≡ count g (keep r []) + count g xs
count-keep g none xs = omega arith
count-keep g (some x) xs = omega arith

-- A program of calls.
pub data Call (W P : Type 0) : Type 0 where
  put_call : W → P → Call W P
  get_call : Call W P

module _ {W P : Type 0} ⦃d : Double W⦄ where
  -- The payloads that a program puts in and that pass `g`.
  abbrev pub put_in : (P → Bool) → List (Call W P) → ℕ
  put_in g [] = 0
  put_in g (put_call p x ∷ cs) = one (g x) + put_in g cs
  put_in g (get_call ∷ cs) = put_in g cs

module _ {W P : Type 0} ⦃d : Double W⦄ where
  -- Its run: the payloads that it got, and the queue at the end.
  unfoldable pub execute : List (Call W P) → CalQueue W P → Run (List P × CalQueue W P)
  execute [] q = done ([], q)
  execute (put_call p x ∷ cs) q = calqueue_put q p x >>= execute cs
  execute (get_call ∷ cs) q =
      calqueue_get q >>= λ (r, q'). execute cs q' >>= λ (out, q''). done (keep r out, q'')

  Pops-IsValid :
      {q : CalQueue W P} {r : Option P × CalQueue W P}
      → Pops q r
      → IsValid q
      → IsValid r.1 × ((g : P → Bool) → payloads g q ≡ count g (keep r.0 []) + payloads g r.1)
  Pops-IsValid (empty z) v = (v, λ g. omega arith)
  Pops-IsValid (pops v' s h) v = (v', λ g. omega (arith, h g))

  record Runs (cs : List (Call W P)) (q : CalQueue W P) (r : List P × CalQueue W P) : Type 0 where
    valid : IsValid r.1
    conserved : (g : P → Bool) → count g r.0 + payloads g r.1 ≡ put_in g cs + payloads g q

  execute-Runs :
      (cs : List (Call W P)) (q : CalQueue W P)
      → IsValid q
      → EndsOrNegative (HasNegative W) (execute cs q) (Runs cs q)
  unfolding execute
  execute-Runs [] q v = record { valid = v; conserved = λ g. refl }
  execute-Runs (put_call p x ∷ cs) q v =
      EndsOrNegative-bind _ (calqueue_put q p x) _ (Puts q (record { priority = p; payload = x })) _
        (calqueue_put-Puts q p x v)
        (λ q' a.
          EndsOrNegative-map _ (execute cs q') (Runs cs q') _ (execute-Runs cs q' a.valid) (λ r s.
            record {
              valid = s.valid;
              conserved = λ g. omega (arith, s.conserved g, a.adds (λ e. g e.payload));
            }))
  execute-Runs (get_call ∷ cs) q v =
      EndsOrNegative-bind _ (calqueue_get q) _ (Pops q) _ (calqueue_get-Pops q v) (λ (r, q') a.
        EndsOrNegative-bind _ (execute cs q') _ (Runs cs q') _
          (execute-Runs cs q' (Pops-IsValid a v).0)
          (λ (out, q'') s. record {
            valid = s.valid;
            conserved =
                λ g. omega (arith, s.conserved g, (Pops-IsValid a v).1 g, count-keep g r out);
          }))

  -- Any program of puts and gets on a queue that calqueue_init has set up ends, and what it got, together
  -- with what is left in the queue, is what it put in: every test on payloads counts as many. Or some
  -- quotient of two doubles has a negative remainder (HasNegative), and the program comes to a negative
  -- index of the calendar.
  pub calqueue-conserves :
      (cs : List (Call W P)) (q : CalQueue W P)
      → EndsOrNegative
          (HasNegative W)
          (execute cs (calqueue_init q))
          (λ (out, q'). (g : P → Bool) → count g out + payloads g q' ≡ put_in g cs)
  calqueue-conserves cs q =
      EndsOrNegative-map _ (execute cs (calqueue_init q)) (Runs cs (calqueue_init q)) _
        (execute-Runs cs (calqueue_init q) (calqueue_init-IsValid q).0)
        (λ r s g. omega (arith, s.conserved g, init-empty q (λ e. g e.payload)))
