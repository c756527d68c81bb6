-- ===== src/Testbed/Model/Cases.antt =====
-- The three cases of ProcessEvent (libfibers/testbed/src/model.c) on an event that main_loop has taken
-- out of its queue.
use fibers.Prelude.{
  ℕ, suc, ◌+◌, ◌<◌, ◌≡◌, refl, ap, ◌∙◌, inl, inr, Bool, true, false, not, some, pos, negsuc, arith,
  ◌==◌, Bool-cases,
}
use fibers.Testbed.Run.{EndsOrNegative, EndsOrNegative-bind, Ends-EndsOrNegative}
use fibers.Testbed.Double.{Double, Math, HasSigns}
use fibers.Testbed.Numerical.{Rng, uint32, expent, random}
use fibers.Testbed.CalQueue.Counts.{one}
use fibers.Testbed.CalQueue.Size.{HasNegative}
use fibers.Testbed.CalQueue.Invariant.{IsValid}
use fibers.Testbed.CalQueue.Trace.{payloads}
use fibers.Testbed.Channel.{Lp, deallocation, recompute_ta}
use fibers.Testbed.Channel.Ids.{ids, expent-ends}
use fibers.Testbed.Channel.Calls.{Frees, deallocation-Frees}
use fibers.Testbed.Model.{
  Msg, Queue, Memory, Reply, new_state, code, start_call, end_call, complete_calls, pack_event,
  schedule, admit, executing, process_start, process_end, process_init, fresh_lp, zero_words,
}
use fibers.Testbed.Model.Invariant.{
  is_start, is_end, is_other, IsCell, IsAccounted, IsRunning, Progress,
}
use fibers.Testbed.Model.Events.{Schedules, schedule-Schedules, Admits, admit-Admits}

recompute_ta-lt :
    {W : Type 0} ⦃d : Double W⦄ (t : HasSigns W) (ref_ta time_now : W)
    → d.lt ref_ta (d.of_nat 0) ≡ false
    → d.lt (recompute_ta ref_ta time_now) (d.of_nat 0) ≡ false
unfolding recompute_ta
recompute_ta-lt t ref_ta time_now h = t.mul ref_ta _ h (t.literal _ _)

module _ {W : Type 0} ⦃d : Double W⦄ ⦃m : Math W⦄ (t : HasSigns W) (memory : Memory W) where
  -- What is left in the queue when message `msg` is out.
  pub record IsLeft (id : ℕ) (msg : Msg W) (q : Queue W) (lp : Lp W) : Type 0 where
    pub valid : IsValid q
    pub others : one (is_other id msg) + payloads (is_other id) q ≡ 0
    pub starts : one (is_start msg) + payloads is_start q ≡ 1
    pub ends : (i : ℕ) → one (is_end i msg) + payloads (is_end i) q ≡ ids (λ j. j == i) lp.channels

  pub start-IsRunning :
      (id : ℕ) (msg : Msg W) (lp : Lp W) (q : Queue W) (r : Rng)
      → msg.receiver ≡ id
      → msg.type ≡ start_call
      → IsLeft id msg q lp
      → IsCell lp
      → IsAccounted 0 lp
      → lp.complete_calls < complete_calls
      → EndsOrNegative
          (HasNegative W)
          (process_start memory msg (executing msg lp) q r)
          (λ (lp', q', r'). IsRunning id q' lp')
  unfolding process_start pack_event
  start-IsRunning id msg lp q r me kind l cell calls less =
      let lp₁ = record (executing msg lp) { arriving_calls = uint32 (suc lp.arriving_calls) } in
      EndsOrNegative-bind _ (admit memory msg lp₁ q r) _
        (λ (lp', q', r'). Admits msg.receiver lp₁ q lp' q') _
        (admit-Admits t memory msg lp₁ q r l.valid
          (record {
            per_cell = cell.per_cell;
            free = cell.free;
            consistent = cell.consistent;
            duration = cell.duration;
            mean = cell.mean;
          })
          (omega (arith, calls)))
        (λ (lp', q', r') a.
          let ta = recompute_ta lp'.ref_ta msg.timestamp in
          EndsOrNegative-bind _ (expent ta r') _ (λ _. Unit) _
            (Ends-EndsOrNegative _ (expent ta r') _
              (expent-ends ta r' (recompute_ta-lt t lp'.ref_ta msg.timestamp a.cell.mean)))
            (λ (x, r'') _.
              let event = pack_event msg.receiver start_call (d.add msg.timestamp x) (negsuc 0) in
              EndsOrNegative-bind _ (schedule q' event) _ (Schedules q' event) _
                (schedule-Schedules q' event a.valid)
                (λ q'' s. record {
                  valid = s.valid;
                  others = ground (arith, l.others, a.others, s.adds (is_other id), me, kind);
                  starts = ground (arith, l.starts, a.starts, s.adds is_start, kind);
                  ends = λ i. ground (arith, l.ends i, a.ends i, s.adds (is_end i), kind);
                  cell = record {
                    per_cell = a.cell.per_cell;
                    free = a.cell.free;
                    consistent = a.cell.consistent;
                    duration = a.cell.duration;
                    mean = a.cell.mean;
                  };
                  calls = omega (arith, a.calls);
                  incomplete = omega (arith, a.complete, less);
                })))

  pub end-Progress :
      (id : ℕ) (msg : Msg W) (ch : ℕ) (lp : Lp W) (q : Queue W) (r : Rng)
      → msg.type ≡ end_call
      → msg.channel ≡ pos ch
      → IsLeft id msg q lp
      → IsCell lp
      → IsAccounted 0 lp
      → lp.complete_calls < complete_calls
      → EndsOrNegative (HasNegative W) (process_end msg (executing msg lp) r) (λ (ret, lp', r').
        Progress id (not (ret == 0), record { queue = q; state = some lp'; rng = r' }))
  unfolding process_end
  end-Progress id msg ch lp q r kind at l cell calls less =
      let lp₁ = record (executing msg lp) {
        channel_counter = uint32 (suc lp.channel_counter);
        complete_calls = uint32 (suc lp.complete_calls);
      } in
      rw (process_end, at)
        (EndsOrNegative-bind _ (deallocation (pos ch) lp₁ r) _ (λ (lp', r'). Frees lp₁ ch lp') _
          (Ends-EndsOrNegative _ (deallocation (pos ch) lp₁ r) _
            (deallocation-Frees t ch lp₁ r cell.consistent (ground (arith, l.ends ch, kind, at))))
          (λ (lp', r') f.
            let cell' : IsCell lp' = record {
              per_cell = ap (λ l. l.channels_per_cell) f.same ∙ cell.per_cell;
              free =
                  omega (arith, cell.free, f.takes (λ _. true), ap (λ l. l.channel_counter) f.same);
              consistent = f.consistent;
              duration = ap (λ l. d.lt l.ta_duration (d.of_nat 0)) f.same ∙ cell.duration;
              mean = ap (λ l. d.lt l.ref_ta (d.of_nat 0)) f.same ∙ cell.mean;
            } in
            let complete : lp'.complete_calls ≡ suc lp.complete_calls =
              omega (arith, less, ap (λ l. l.complete_calls) f.same) in
            elim (Bool-cases (lp'.complete_calls == complete_calls)) [
              | inl all ↦ rw all (lp', refl, cell', ground arith)
              | inr more ↦ rw more (record {
                valid = l.valid;
                others = omega (arith, l.others);
                starts = ground (arith, l.starts, kind);
                ends = λ i. ground (arith, l.ends i, f.takes (λ j. j == i), kind, at);
                cell = cell';
                calls = omega (
                  arith,
                  calls,
                  complete,
                  f.takes (λ _. true),
                  ap (λ l. l.arriving_calls) f.same,
                  ap (λ l. l.blocked_on_setup) f.same,
                );
                incomplete = ground (arith, complete, less);
              })
            ]))

  -- The reply to INIT is a state that fits the queue.
  abbrev pub IsStarted : ℕ → Reply W → Queue W → Type 0
  IsStarted id (new_state lp) q = IsRunning id q lp
  IsStarted id (code ret) q = ⊥

  fresh-IsCell : IsCell (fresh_lp memory)
  unfolding fresh_lp zero_words
  fresh-IsCell = record {
    per_cell = refl;
    free = refl;
    consistent = λ i. ground arith;
    duration = t.of_nat 60;
    mean = t.literal 16 2;
  }

  pub init-IsStarted :
      (id : ℕ) (msg : Msg W) (q : Queue W) (r : Rng)
      → msg.receiver ≡ id
      → IsValid q
      → ((g : Msg W → Bool) → payloads g q ≡ 0)
      → EndsOrNegative
          (HasNegative W)
          (process_init memory msg q r)
          (λ (reply, q', r'). IsStarted id reply q')
  unfolding process_init random pack_event fresh_lp
  init-IsStarted id msg q r me v none_left =
      let (x, r') = random r in
      let event = pack_event msg.receiver start_call (d.mul (d.of_nat 20) x) (negsuc 0) in
      EndsOrNegative-bind _ (schedule q event) _ (Schedules q event) _
        (schedule-Schedules q event v)
        (λ q' s. record {
          valid = s.valid;
          others = ground (arith, s.adds (is_other id), none_left (is_other id), me);
          starts = ground (arith, s.adds is_start, none_left is_start);
          ends = λ i. ground (arith, s.adds (is_end i), none_left (is_end i));
          cell = fresh-IsCell;
          calls = refl;
          incomplete = omega arith;
        })
