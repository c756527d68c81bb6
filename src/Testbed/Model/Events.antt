-- ===== src/Testbed/Model/Events.antt =====
-- The cases of ProcessEvent (libfibers/testbed/src/model.c), on a cell and a queue that fit.
use fibers.Prelude.{
  ℕ, ◌+◌, ◌-◌, ◌<◌, ◌≡◌, refl, ap, ◌∙◌, inl, inr, Bool, true, pos, arith, ◌==◌, Bool-cases,
}
use fibers.Testbed.Run.{
  EndsOrNegative, EndsOrNegative-bind, EndsOrNegative-map, Ends-EndsOrNegative,
}
use fibers.Testbed.Double.{Double, Math, HasSigns}
use fibers.Testbed.Numerical.{Rng, expent}
use fibers.Testbed.CalQueue.Counts.{one}
use fibers.Testbed.CalQueue.Size.{HasNegative}
use fibers.Testbed.CalQueue.Invariant.{IsValid}
use fibers.Testbed.CalQueue.Trace.{payloads, calqueue_put-Puts}
use fibers.Testbed.Channel.{Lp, allocation}
use fibers.Testbed.Channel.Ids.{ids, expent-ends}
use fibers.Testbed.Channel.Calls.{Allocates, allocation-Allocates}
use fibers.Testbed.Model.{Msg, Queue, Memory, end_call, pack_event, schedule, admit}
use fibers.Testbed.Model.Invariant.{is_start, is_end, is_other, IsCell, IsAccounted}

module _ {W : Type 0} ⦃d : Double W⦄ where
  -- The queue with one message more.
  pub record Schedules (q : Queue W) (msg : Msg W) (q' : Queue W) : Type 0 where
    pub valid : IsValid q'
    pub adds : (g : Msg W → Bool) → payloads g q' ≡ one (g msg) + payloads g q

  -- A call that starts is blocked, or it has a channel and its end is in the queue.
  pub record Admits (id : ℕ) (lp : Lp W) (q : Queue W) (lp' : Lp W) (q' : Queue W) : Type 0 where
    pub valid : IsValid q'
    pub others : payloads (is_other id) q' ≡ payloads (is_other id) q
    pub starts : payloads is_start q' ≡ payloads is_start q
    pub ends :
        (i : ℕ)
        → payloads (is_end i) q' + ids (λ j. j == i) lp.channels
          ≡ payloads (is_end i) q + ids (λ j. j == i) lp'.channels
    pub cell : IsCell lp'
    pub calls : IsAccounted 0 lp'
    pub complete : lp'.complete_calls ≡ lp.complete_calls

module _ {W : Type 0} ⦃d : Double W⦄ where
  pub schedule-Schedules :
      (q : Queue W) (msg : Msg W)
      → IsValid q
      → EndsOrNegative (HasNegative W) (schedule q msg) (Schedules q msg)
  schedule-Schedules q msg v =
      EndsOrNegative-map _ (schedule q msg) _ _ (calqueue_put-Puts q msg.timestamp msg v)
        (λ q' p. record { valid = p.valid; adds = λ g. p.adds (λ e. g e.payload) })

module _ {W : Type 0} ⦃d : Double W⦄ ⦃m : Math W⦄ (t : HasSigns W) (memory : Memory W) where
  -- The part of a call that gets channel `ch`.
  taken :
      (id : ℕ) (stamp : W) (lp lp' : Lp W) (q q' : Queue W) (ch : ℕ)
      → IsCell lp
      → IsAccounted 1 lp
      → 0 < lp.channel_counter
      → Allocates (record lp { channel_counter = lp.channel_counter - 1 }) ch lp'
      → Schedules q (pack_event id end_call stamp (pos ch)) q'
      → Admits id lp q lp' q'
  unfolding pack_event
  taken id stamp lp lp' q q' ch cell calls more a s = record {
    valid = s.valid;
    others = ground (arith, s.adds (is_other id));
    starts = ground (arith, s.adds is_start);
    ends = λ i. ground (arith, s.adds (is_end i), a.adds (λ j. j == i));
    cell = record {
      per_cell = ap (λ l. l.channels_per_cell) a.same ∙ cell.per_cell;
      free = omega (arith, cell.free, more, a.adds (λ _. true), ap (λ l. l.channel_counter) a.same);
      consistent = a.consistent;
      duration = ap (λ l. d.lt l.ta_duration (d.of_nat 0)) a.same ∙ cell.duration;
      mean = ap (λ l. d.lt l.ref_ta (d.of_nat 0)) a.same ∙ cell.mean;
    };
    calls = omega (
      arith,
      calls,
      a.adds (λ _. true),
      ap (λ l. l.arriving_calls) a.same,
      ap (λ l. l.complete_calls) a.same,
      ap (λ l. l.blocked_on_setup) a.same,
    );
    complete = ap (λ l. l.complete_calls) a.same;
  }

  pub admit-Admits :
      (msg : Msg W) (lp : Lp W) (q : Queue W) (r : Rng)
      → IsValid q
      → IsCell lp
      → IsAccounted 1 lp
      → EndsOrNegative
          (HasNegative W)
          (admit memory msg lp q r)
          (λ (lp', q', r'). Admits msg.receiver lp q lp' q')
  unfolding admit
  admit-Admits msg lp q r v cell calls = elim (Bool-cases (lp.channel_counter == 0)) [
    | inl none_left ↦ rw none_left (record {
      valid = v;
      others = refl;
      starts = refl;
      ends = λ i. omega arith;
      cell = record {
        per_cell = cell.per_cell;
        free = cell.free;
        consistent = cell.consistent;
        duration = cell.duration;
        mean = cell.mean;
      };
      calls = omega (arith, calls);
      complete = refl;
    })
    | inr some_left ↦
        let more : 0 < lp.channel_counter = ground arith in
        rw some_left (
          EndsOrNegative-bind _ (expent lp.ta_duration r) _ (λ _. Unit) _
            (Ends-EndsOrNegative _ (expent lp.ta_duration r) _
              (expent-ends lp.ta_duration r cell.duration))
            (λ (x, r') _.
              let stamp = d.add msg.timestamp x in
              let lp₁ = record lp { channel_counter = lp.channel_counter - 1 } in
              EndsOrNegative-bind _ (allocation memory.sir_data lp₁ r') _
                (λ (ch, lp', r''). Allocates lp₁ ch lp') _
                (Ends-EndsOrNegative _ (allocation memory.sir_data lp₁ r') _ (
                  allocation-Allocates t memory.sir_data lp₁ r' cell.consistent
                    (omega (arith, cell.free, cell.per_cell, more))))
                (λ (ch, lp', r'') a.
                  let event = pack_event msg.receiver end_call stamp (pos ch) in
                  EndsOrNegative-bind _ (schedule q event) _ (Schedules q event) _
                    (schedule-Schedules q event v)
                    (λ q' s. taken msg.receiver stamp lp lp' q q' ch cell calls more a s))))
  ]
