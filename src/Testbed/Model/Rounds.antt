-- ===== src/Testbed/Model/Rounds.antt =====
-- The loop of main_loop (libfibers/testbed/src/main.c), with the handler of model.c, the channels of
-- channel.c and the calendar queue of calqueue.c: no round of it fails.
use fibers.Prelude.{
  ℕ, zero, suc, ◌≤◌, ◌<◌, ◌≡◌, refl, ◌⊎◌, inl, inr, Bool, true, false, not, Option, none, some, pos,
  arith, ◌==◌, if◌then◌else◌,
}
use fibers.Testbed.Run.{Run, done, stopped, ◌>>=◌, EndsOrNegative, EndsOrNegative-bind}
use fibers.Testbed.Double.{Double, Math, HasSigns}
use fibers.Testbed.Numerical.{Rng}
use fibers.Testbed.CalQueue.Counts.{total-le}
use fibers.Testbed.CalQueue.Size.{HasNegative}
use fibers.Testbed.CalQueue.Invariant.{IsValid}
use fibers.Testbed.CalQueue.Resizing.{calqueue_put, calqueue_get, calqueue_init}
use fibers.Testbed.CalQueue.Calls.{Puts}
use fibers.Testbed.CalQueue.Trace.{
  payloads, calqueue_put-Puts, Pops, empty, pops, calqueue_get-Pops, calqueue_init-IsValid,
  init-empty,
}
use fibers.Testbed.Channel.{Lp}
use fibers.Testbed.Model.{
  Msg, Queue, Memory, Reply, new_state, code, Sim, init, start_call, end_call, complete_calls,
  executing, process_start, process_end, process_init, process_event, serve, rounds, begin, after,
}
use fibers.Testbed.Model.Invariant.{
  is_start, is_end, is_other, is_other-cases, IsCell, IsAccounted, IsRunning, IsSim, Progress,
}
use fibers.Testbed.Model.Cases.{IsLeft, start-IsRunning, end-Progress, IsStarted, init-IsStarted}

payloads-le :
    {W : Type 0} ⦃d : Double W⦄ (g : Msg W → Bool) (q : Queue W)
    → payloads g q ≤ payloads (λ _. true) q
payloads-le g q = total-le (λ e. g e.payload) q.calq q.firstsub q.nbuckets

module _ {W : Type 0} ⦃d : Double W⦄ ⦃m : Math W⦄ (t : HasSigns W) (memory : Memory W) where
  -- What ProcessEvent leaves behind lets main_loop go on, or leave its loop with all calls complete.
  abbrev Handles : ℕ → Reply W × Option (Lp W) × Queue W × Rng → Type 0
  Handles id (reply, state, q, r) = Progress id (after reply state q r)

  started :
      (id : ℕ) (q : Queue W) (r : Rng) (reply : Reply W)
      → IsStarted t memory id reply q
      → Handles id (reply, none, q, r)
  started id q r (new_state lp) h = h
  started id q r (code ret) h = elim h [ ]

  event-starting :
      (id : ℕ) (msg : Msg W) (q : Queue W) (r : Rng)
      → msg.receiver ≡ id
      → msg.type ≡ init
      → IsValid q
      → ((g : Msg W → Bool) → payloads g q ≡ 0)
      → EndsOrNegative (HasNegative W) (process_event memory msg none q r) (Handles id)
  unfolding process_event
  event-starting id msg q r me kind v none_left =
      let to_init : (msg.type == init) ≡ true = ground arith in
      rw (process_event, to_init)
        (EndsOrNegative-bind _ (process_init memory msg q r) _
          (λ (reply, q', r'). IsStarted t memory id reply q') _
          (init-IsStarted t memory id msg q r me v none_left)
          (λ (reply, q', r') h. started id q' r' reply h))

  event-running :
      (id : ℕ) (msg : Msg W) (lp : Lp W) (q : Queue W) (r : Rng)
      → (msg.receiver ≡ id)
        × ((msg.type ≡ start_call) ⊎ ((msg.type ≡ end_call) × (ch : ℕ) × (msg.channel ≡ pos ch)))
      → IsLeft t memory id msg q lp
      → IsCell lp
      → IsAccounted 0 lp
      → lp.complete_calls < complete_calls
      → EndsOrNegative (HasNegative W) (process_event memory msg (some lp) q r) (Handles id)
  unfolding process_event
  event-running id msg lp q r (me, inl start) l cell calls less =
      let not_init : (msg.type == init) ≡ false = ground arith in
      let to_start : (msg.type == start_call) ≡ true = ground arith in
      rw (process_event, not_init, to_start)
        (EndsOrNegative-bind _ (process_start memory msg (executing msg lp) q r) _
          (λ (lp', q', r'). IsRunning id q' lp') _
          (start-IsRunning t memory id msg lp q r me start l cell calls less)
          (λ (lp', q', r') h. h))
  event-running id msg lp q r (me, inr (end, ch, at)) l cell calls less =
      let not_init : (msg.type == init) ≡ false = ground arith in
      let not_start : (msg.type == start_call) ≡ false = ground arith in
      let to_end : (msg.type == end_call) ≡ true = ground arith in
      rw (process_event, not_init, not_start, to_end)
        (EndsOrNegative-bind _ (process_end msg (executing msg lp) r) _
          (λ (ret, lp', r').
            Progress id (not (ret == 0), record { queue = q; state = some lp'; rng = r' }))
          _ (end-Progress t memory id msg ch lp q r end at l cell calls less)
          (λ (ret, lp', r') h. h))

  -- A round, when the queue has been asked for an event.
  abbrev dispatch : ℕ → Option (Lp W) → Rng → Option (Msg W) × Queue W → Run (Bool × Sim W)
  dispatch id state r (none, q) = stopped
  dispatch id state r (some msg, q) =
      if msg.receiver == id
      then (process_event memory msg state q r >>= λ (reply, state', q', r').
          done (after reply state' q' r'))
      else stopped

  handled :
      (id : ℕ) (state : Option (Lp W)) (r : Rng) (msg : Msg W) (q : Queue W)
      → msg.receiver ≡ id
      → EndsOrNegative (HasNegative W) (process_event memory msg state q r) (Handles id)
      → EndsOrNegative (HasNegative W) (dispatch id state r (some msg, q)) (Progress id)
  handled id state r msg q me h =
      let mine : (msg.receiver == id) ≡ true = ground arith in
      rw mine (
        EndsOrNegative-bind _ (process_event memory msg state q r) _ (Handles id) _ h
          (λ (reply, state', q', r') p. p))

  dispatch-Progress :
      (id : ℕ) (q : Queue W) (state : Option (Lp W)) (r : Rng)
      → IsSim id q state
      → (popped : Option (Msg W) × Queue W) → Pops q popped
      → EndsOrNegative (HasNegative W) (dispatch id state r popped) (Progress id)
  dispatch-Progress id q none r s (none, q') (empty z) =
      absurd (omega (arith, z, s.valid.calendar.counted, s.only (λ _. true)))
  dispatch-Progress id q none r s (some msg, q') (pops v size h) =
      let me : msg.receiver ≡ id = ground (
        arith,
        s.only (λ m. not (m.receiver == id)),
        h (λ m. not (m.receiver == id)),
        s.receiver,
      ) in
      let kind : msg.type ≡ init =
        ground (arith, s.only (λ m. not (m.type == init)), h (λ m. not (m.type == init)), s.type) in
      handled id none r msg q' me (
        event-starting id msg q' r me kind v
          (λ g. omega (arith, s.only (λ _. true), h (λ _. true), payloads-le g q')))
  dispatch-Progress id q (some lp) r s (none, q') (empty z) =
      absurd (omega (arith, z, s.valid.calendar.counted, s.starts, payloads-le is_start q))
  dispatch-Progress id q (some lp) r s (some msg, q') (pops v size h) =
      let kinds = is_other-cases id msg (ground (arith, h (is_other id), s.others)) in
      handled id (some lp) r msg q' kinds.0 (
        event-running id msg lp q' r kinds
          (record {
            valid = v;
            others = omega (arith, h (is_other id), s.others);
            starts = omega (arith, h is_start, s.starts);
            ends = λ i. omega (arith, h (is_end i), s.ends i);
          })
          s.cell s.calls s.incomplete)

  serve-Progress :
      (id : ℕ) (s : Sim W)
      → IsSim id s.queue s.state
      → EndsOrNegative (HasNegative W) (serve id memory s) (Progress id)
  unfolding serve
  serve-Progress id s h =
      EndsOrNegative-bind _ (calqueue_get s.queue) _ (Pops s.queue) _
        (calqueue_get-Pops s.queue (sim-valid s.state h))
        (λ popped p. dispatched popped (dispatch-Progress id s.queue s.state s.rng h popped p))
    where
      sim-valid : (state : Option (Lp W)) → IsSim id s.queue state → IsValid s.queue
      sim-valid none h = h.valid
      sim-valid (some lp) h = h.valid

      dispatched :
          (popped : Option (Msg W) × Queue W)
          → EndsOrNegative (HasNegative W) (dispatch id s.state s.rng popped) (Progress id)
          → EndsOrNegative
              (HasNegative W)
              (elim popped.0 [
                | none ↦ stopped
                | some msg ↦
                    if msg.receiver == id
                    then (process_event memory msg s.state popped.1 s.rng
                        >>= λ (reply, state, q', r'). done (after reply state q' r'))
                    else stopped
              ])
              (Progress id)
      dispatched (none, q) e = e
      dispatched (some msg, q) e = e

  -- From a state that fits, any number of rounds ends, in a state that fits or out of the loop.
  pub rounds-Progress :
      (n id : ℕ) (s : Sim W)
      → IsSim id s.queue s.state
      → EndsOrNegative (HasNegative W) (rounds n id memory s) (Progress id)
  unfolding rounds
  rounds-Progress zero id s h = h
  rounds-Progress (suc n) id s h =
      EndsOrNegative-bind _ (serve id memory s) _ (Progress id) _ (serve-Progress id s h)
        (λ (left, s') p. next left s' p (rounds-Progress n id s'))
    where
      next :
          (left : Bool) (s' : Sim W)
          → Progress id (left, s')
          → (IsSim id s'.queue s'.state
              → EndsOrNegative (HasNegative W) (rounds n id memory s') (Progress id))
          → EndsOrNegative
              (HasNegative W)
              (if left then done (true, s') else rounds n id memory s')
              (Progress id)
      next true s' p h = p
      next false s' p h = h p

  -- Where numbers of the source and products of what is not negative are not negative (HasSigns), a fiber
  -- that begins as main_loop does, with its queue and its cell in memory of any contents, runs any number
  -- of rounds without an abort, an exit, another read outside its arrays or a want of fuel, or some
  -- quotient of two doubles has a negative remainder (HasNegative), and the fiber comes to a negative index
  -- of its calendar. Up to there each round finds an event of its own cell, and a channel for each call
  -- that the counter lets in. After the rounds the fiber is still in the loop, with a queue and a cell that
  -- fit (IsSim), or has left it with exactly COMPLETE_CALLS calls complete and a cell that is consistent.
  pub main_loop-Progress :
      (n id : ℕ) (block : Msg W) (q : Queue W) (r : Rng)
      → EndsOrNegative (HasNegative W) (begin id block q r >>= rounds n id memory) (Progress id)
  unfolding begin
  main_loop-Progress n id block q r =
      let msg = record block { type = init; receiver = id; sender = id } in
      EndsOrNegative-bind _ (begin id block q r) _ (λ s. IsSim id s.queue s.state) _
        (EndsOrNegative-bind _ (calqueue_put (calqueue_init q) (d.of_nat 0) msg) _
          (Puts (calqueue_init q) _) _
          (calqueue_put-Puts (calqueue_init q) (d.of_nat 0) msg (calqueue_init-IsValid q).0)
          (λ q' p. record {
            msg = msg;
            type = refl;
            receiver = refl;
            valid = p.valid;
            only = λ g. omega (arith, p.adds (λ e. g e.payload), init-empty q (λ e. g e.payload));
          }))
        (λ s h. rounds-Progress n id s h)
