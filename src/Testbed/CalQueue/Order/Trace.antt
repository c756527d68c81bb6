-- ===== src/Testbed/CalQueue/Order/Trace.antt =====
-- The order of the events that libfibers/testbed/src/calqueue.c returns.
use fibers.Prelude.{
  ℕ, ◌<◌, ◌≡◌, refl, subst, ◌⊎◌, inl, inr, Option, none, some, List, [], ◌∷◌, pos, arith,
}
use fibers.Testbed.Double.{Double}
use fibers.Testbed.CalQueue.{Node, CalQueue, done, look, remove}
use fibers.Testbed.Run.{
  Gives, Gives-bind, Gives-map, EndsOrNegative, EndsOrNegative-both, EndsOrNegative-map,
}
use fibers.Testbed.CalQueue.Resizing.{deq, resize, calqueue_put, calqueue_get, calqueue_init}
use fibers.Testbed.CalQueue.Invariant.{IsValid}
use fibers.Testbed.CalQueue.Size.{HasNegative, InRange}
use fibers.Testbed.CalQueue.Trace.{
  Call, put_call, get_call, execute, calqueue-conserves, Pops, calqueue_get-Pops,
}
use fibers.Testbed.CalQueue.Order.{IsOrder}
use fibers.Testbed.CalQueue.Order.Buckets.{IsKept}
use fibers.Testbed.CalQueue.Order.Search.{IsFirst, Takes, remove-Takes}
use fibers.Testbed.CalQueue.Order.Calls.{Kept, remove-Kept}
use fibers.Testbed.CalQueue.Order.Resizes.{
  localinit-Kept, Kept-IsOrdered, Cells, cells_within, IsOrdered, Maybe, put-IsOrdered,
  deq-IsOrdered,
}

module _ {W P : Type 0} (real : W → Type 0) where
  -- All times that a program puts in are numbers.
  abbrev pub AllPuts : List (Call W P) → Type 0
  AllPuts [] = Unit
  AllPuts (put_call p x ∷ cs) = real p × AllPuts cs
  AllPuts (get_call ∷ cs) = AllPuts cs

module _ {W P : Type 0} ⦃d : Double W⦄ {real : W → Type 0} (o : IsOrder W real) where
  -- Nothing from an empty queue, or the payload of a first event of the queue (IsFirst); and the buckets
  -- are sorted.
  abbrev pub Returns : CalQueue W P → Option ℕ → Option P × CalQueue W P → Type 0
  Returns q hit (x, q') =
      (((x ≡ none) × (q.qsize ≡ 0)) ⊎ ((e : Node W P) × (x ≡ some e.payload) × IsFirst q hit e))
      × IsOrdered real q'

  init-IsOrdered : (q : CalQueue W P) → IsOrdered real (calqueue_init q)
  unfolding calqueue_init
  init-IsOrdered q =
      let k =
        localinit-Kept {real = real} (λ j. ⊥) q 0 2 (d.of_nat 1) (d.of_nat 0) (omega arith)
          (λ j h. absurd h) in
      Kept-IsOrdered _ 0 2 (calqueue_init q) (λ i h. inr (omega arith, omega (arith, h)))
        (omega arith)
        (record {
          sorted = k.sorted;
          firstsub = k.firstsub;
          nbuckets = k.nbuckets;
          last = k.last;
          bot = k.bot;
        })

  calqueue_put-IsOrdered :
      (q : CalQueue W P) (p : W) (x : P)
      → real p
      → IsOrdered real q
      → Gives (calqueue_put q p x) (IsOrdered real)
  unfolding calqueue_put
  calqueue_put-IsOrdered q p x rp ordered =
      put-IsOrdered o q (record { priority = p; payload = x }) rp ordered

  calqueue_get-IsOrdered :
      (q : CalQueue W P) → IsOrdered real q → Gives (calqueue_get q) (λ (x, q'). IsOrdered real q')
  unfolding calqueue_get Kept
  calqueue_get-IsOrdered q ordered =
      Gives-bind (deq (resize 1) q) _ _ _
        (deq-IsOrdered o q (λ e. real e.priority) ordered
          (remove-Kept o _ q.firstsub q.nbuckets (cells_within q.firstsub q.nbuckets) q ordered.1))
        (λ (t, q') (_, ordered'). ordered')

  execute-keeps :
      (cs : List (Call W P)) (q : CalQueue W P)
      → AllPuts real cs
      → IsOrdered real q
      → Gives (execute cs q) (λ (out, q'). IsOrdered real q')
  unfolding execute
  execute-keeps [] q r ordered = ordered
  execute-keeps (put_call p x ∷ cs) q (rp, r) ordered =
      Gives-bind (calqueue_put q p x) _ (IsOrdered real) _ (calqueue_put-IsOrdered q p x rp ordered)
        (λ q' ordered'. execute-keeps cs q' r ordered')
  execute-keeps (get_call ∷ cs) q r ordered =
      Gives-bind (calqueue_get q) _ _ _ (calqueue_get-IsOrdered q ordered) (λ (x, q') ordered'.
        Gives-bind (execute cs q') _ _ _ (execute-keeps cs q' r ordered')
          (λ (out, q'') ordered''. ordered''))

  -- Where the times that are put in are numbers, which the processor orders (IsOrder): any program of puts
  -- and gets on a queue that calqueue_init has set up ends, and then no event stands behind a later one in
  -- its bucket; or some quotient of two doubles has a negative remainder (HasNegative), and the program
  -- comes to a negative index of the calendar.
  pub execute-IsOrdered :
      (cs : List (Call W P)) (q : CalQueue W P)
      → AllPuts real cs
      → EndsOrNegative
          (HasNegative W)
          (execute cs (calqueue_init q))
          (λ (out, q'). IsOrdered real q')
  execute-IsOrdered cs q r =
      EndsOrNegative-map _ (execute cs (calqueue_init q)) _ _
        (EndsOrNegative-both _ (execute cs (calqueue_init q)) _ (λ (out, q'). IsOrdered real q')
          (calqueue-conserves cs q) (execute-keeps cs (calqueue_init q) r (init-IsOrdered q)))
        (λ a (_, ordered). ordered)

  -- Where the times in the queue are ordered numbers (IsOrdered), and the queue is valid and the search of
  -- a year ends with `hit`: calqueue_get ends, and the queue was empty and it returns nothing, or it returns
  -- the payload of the node at the head of a bucket of the queue: of the bucket that the search has hit,
  -- and this node is not after any other there, or, where the search has missed, of some bucket, and this
  -- node is not after any other of the whole queue. The buckets are still sorted. Or some quotient of two
  -- doubles has a negative remainder (HasNegative), and it comes to a negative index of the calendar.
  pub calqueue_get-IsFirst :
      (q : CalQueue W P) (l : ℕ) (hit : Option ℕ) (top : W)
      → IsValid q
      → IsOrdered real q
      → q.lastbucket ≡ pos l
      → look q.nbuckets q l l q.buckettop ≡ done (hit, top)
      → EndsOrNegative (HasNegative W) (calqueue_get q) (Returns q hit)
  unfolding calqueue_get
  calqueue_get-IsFirst q l hit top v ordered last at =
      let within = cells_within q.firstsub q.nbuckets in
      let below : l < q.nbuckets =
        ground (arith, subst (λ z. InRange z q.nbuckets) last ordered.1.last) in
      EndsOrNegative-map _ (calqueue_get q) _ _
        (EndsOrNegative-both _ (calqueue_get q) (Pops q) _ (calqueue_get-Pops q v) (
          Gives-bind (deq (resize 1) q) _ _ (Returns q hit)
            (deq-IsOrdered o q (IsFirst q hit) ordered (
              Gives-map (remove q) _ _
                (remove-Takes o _ q.firstsub q.nbuckets within q l hit top last below at ordered.1)
                (first hit)))
            returned))
        (λ a (_, r). r)
    where
      first :
          (h : Option ℕ) (r : Node W P × CalQueue W P)
          → Takes o
              (Cells q.firstsub q.nbuckets)
              q.firstsub
              q.nbuckets
              (cells_within q.firstsub q.nbuckets)
              q
              h
              r
          → IsFirst q h r.0 × IsKept real (Cells q.firstsub q.nbuckets) q.firstsub q.nbuckets r.1
      first none r (_, k, f) = (f, k)
      first (some i) r (_, k, f) = (f, k)

      returned :
          (r : Option (Node W P) × CalQueue W P)
          → Maybe o (IsFirst q hit) q r.0 × IsOrdered real r.1
          → Returns q hit (elim r.0 [ none ↦ none | some e ↦ some e.payload ], r.1)
      returned (none, q') (empty, ordered') = (inl (refl, empty), ordered')
      returned (some e, q') (f, ordered') = (inr (e, refl, f), ordered')
