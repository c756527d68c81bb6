-- ===== src/Testbed/Model.antt =====
-- libfibers/testbed/src/model.c: the handler of the simulation's events, and the loop of main.c that
-- feeds it. Memory is always there: malloc does not fail.
pub mod Invariant
pub mod Events
pub mod Cases
pub mod Rounds
use fibers.Prelude.{
  ℕ, zero, suc, ◌+◌, ◌-◌, ◌*◌, ◌/◌, ◌%◌, ◌^◌, Bool, true, false, Option, none, some, List, [], ◌∷◌,
  ℤ, pos, negsuc, ltb, ◌==◌, not, ◌||◌, if◌then◌else◌,
}
use fibers.Testbed.Run.{Run, done, fault, stopped, ◌>>=◌}
use fibers.Testbed.Double.{Double, Math}
use fibers.Testbed.Numerical.{Rng, uint32, random, expent}
use fibers.Testbed.CalQueue.{CalQueue}
use fibers.Testbed.CalQueue.Resizing.{calqueue_put, calqueue_get, calqueue_init}
use fibers.Testbed.Channel.{SirData, Channel, Lp, bits, allocation, deallocation, recompute_ta}

-- `msg_t`
pub record Msg (W : Type 0) : Type 0 where
  pub sender : ℕ
  pub receiver : ℕ
  pub type : ℕ
  pub timestamp : W
  pub channel : ℤ

abbrev pub init : ℕ
init = 0

abbrev pub start_call : ℕ
start_call = 20

abbrev pub end_call : ℕ
end_call = 21

abbrev pub channels_per_cell : ℕ
channels_per_cell = 1000

abbrev pub complete_calls : ℕ
complete_calls = 15000

-- What ProcessEvent returns: the new state, cast to a number, or a number.
pub data Reply (W : Type 0) : Type 0 where
  new_state : Lp W → Reply W
  code : ℕ → Reply W

-- What malloc returns holds old data: the words of a state's channels, and a channel's data.
pub record Memory (W : Type 0) : Type 0 where
  pub channel_state : ℕ → ℕ → Bool
  pub sir_data : SirData W

-- The first words of the bit map, set to 0.
unfoldable pub zero_words : ℕ → (ℕ → ℕ → Bool) → ℕ → ℕ → Bool
zero_words words state i k = if ltb i words then false else state i k

abbrev pub Queue : Type 0 → Type 0
Queue W = CalQueue W (Msg W)

-- What a fiber of main.c keeps: its queue and its state, in its storage, and the generator.
pub record Sim (W : Type 0) : Type 0 where
  pub queue : Queue W
  pub state : Option (Lp W)
  pub rng : Rng

module _ {W : Type 0} where
  unfoldable pub pack_event : ℕ → ℕ → W → ℤ → Msg W
  pack_event cell type stamp ch = record {
    sender = cell;
    receiver = cell;
    type = type;
    timestamp = stamp;
    channel = ch;
  }

module _ {W : Type 0} ⦃d : Double W⦄ where
  -- The state that INIT sets up.
  unfoldable pub fresh_lp : Memory W → Lp W
  fresh_lp memory = record {
    channel_counter = channels_per_cell;
    arriving_calls = 0;
    complete_calls = 0;
    blocked_on_setup = 0;
    executed_events = 0;
    lvt = d.of_nat 0;
    ta = d.literal 16 2;
    ref_ta = d.literal 16 2;
    ta_duration = d.of_nat 60;
    ta_change = d.of_nat 150;
    channels_per_cell = channels_per_cell;
    channel_state = zero_words (channels_per_cell / bits + 1) memory.channel_state;
    channels = [];
  }

  abbrev pub schedule : Queue W → Msg W → Run (Queue W)
  schedule q msg = calqueue_put q msg.timestamp msg

  -- The case of INIT.
  unfoldable pub process_init : Memory W → Msg W → Queue W → Rng → Run (Reply W × Queue W × Rng)
  process_init memory msg q r =
      let (x, r') = random r in
      let timestamp = d.mul (d.of_nat 20) x in
      schedule q (pack_event msg.receiver start_call timestamp (negsuc 0)) >>= λ q'.
      done (new_state (fresh_lp memory), q', r')

module _ {W : Type 0} ⦃d : Double W⦄ ⦃m : Math W⦄ where
  -- The call that starts: it is blocked, or it gets a channel and an end.
  unfoldable pub admit : Memory W → Msg W → Lp W → Queue W → Rng → Run (Lp W × Queue W × Rng)
  admit memory msg lp q r =
      if lp.channel_counter == 0
      then done (record lp { blocked_on_setup = uint32 (suc lp.blocked_on_setup) }, q, r)
      else (expent lp.ta_duration r >>= λ (x, r').
          let timestamp = d.add msg.timestamp x in
          allocation memory.sir_data (record lp { channel_counter = lp.channel_counter - 1 }) r'
          >>= λ (ch, lp', r'').
              schedule q (pack_event msg.receiver end_call timestamp (pos ch)) >>= λ q'.
              done (lp', q', r''))

  -- The case of START_CALL.
  unfoldable pub process_start :
      Memory W → Msg W → Lp W → Queue W → Rng → Run (Lp W × Queue W × Rng)
  process_start memory msg lp q r =
      admit memory msg (record lp { arriving_calls = uint32 (suc lp.arriving_calls) }) q r
      >>= λ (lp', q', r').
          let ta = recompute_ta lp'.ref_ta msg.timestamp in
          expent ta r' >>= λ (x, r'').
          schedule q' (pack_event msg.receiver start_call (d.add msg.timestamp x) (negsuc 0))
          >>= λ q''. done (record lp' { ta = ta }, q'', r'')

  -- The case of END_CALL.
  unfoldable pub process_end : Msg W → Lp W → Rng → Run (ℕ × Lp W × Rng)
  process_end msg lp r =
      let lp' = record lp {
        channel_counter = uint32 (suc lp.channel_counter);
        complete_calls = uint32 (suc lp.complete_calls);
      } in
      deallocation msg.channel lp' r >>= λ (lp'', r').
      done ((if lp''.complete_calls == complete_calls then 1 else 0), lp'', r')

  abbrev pub executing : Msg W → Lp W → Lp W
  executing msg lp = record lp {
    lvt = msg.timestamp;
    executed_events = uint32 (suc lp.executed_events);
  }

  -- ProcessEvent: the reply, the state behind the pointer, the queue and the generator. A START_CALL
  -- or an END_CALL with no state goes through a null pointer.
  unfoldable pub process_event :
      Memory W
      → Msg W
      → Option (Lp W)
      → Queue W
      → Rng
      → Run (Reply W × Option (Lp W) × Queue W × Rng)
  process_event memory msg none q r =
      if msg.type == init
      then (process_init memory msg q r >>= λ (reply, q', r'). done (reply, none, q', r'))
      else (if msg.type == start_call || msg.type == end_call then fault else stopped)
  process_event memory msg (some lp) q r =
      if msg.type == init
      then (process_init memory msg q r >>= λ (reply, q', r').
          done (reply, some (executing msg lp), q', r'))
      else (if msg.type == start_call
          then (process_start memory msg (executing msg lp) q r >>= λ (lp', q', r').
              done (code 0, some lp', q', r'))
          else (if msg.type == end_call
              then (process_end msg (executing msg lp) r >>= λ (ret, lp', r').
                  done (code ret, some lp', q, r'))
              else stopped))

  -- What main_loop makes of the reply and the rest: whether it leaves its loop, and what it goes on
  -- with. The reply to INIT, and to no other event, is a state, which it keeps.
  abbrev pub after : Reply W → Option (Lp W) → Queue W → Rng → Bool × Sim W
  after (new_state lp) state q r = (false, record { queue = q; state = some lp; rng = r })
  after (code ret) state q r = (not (ret == 0), record { queue = q; state = state; rng = r })

  -- One round of the loop of main_loop: whether it leaves the loop, and what it leaves behind.
  unfoldable pub serve : ℕ → Memory W → Sim W → Run (Bool × Sim W)
  serve id memory s = calqueue_get s.queue >>= λ (event, q). elim event [
    | none ↦ stopped
    | some msg ↦
        if msg.receiver == id
        then (process_event memory msg s.state q s.rng >>= λ (reply, state, q', r').
            done (after reply state q' r'))
        else stopped
  ]

  -- The loop, cut off after `n` rounds.
  unfoldable pub rounds : ℕ → ℕ → Memory W → Sim W → Run (Bool × Sim W)
  rounds zero id memory s = done (false, s)
  rounds (suc n) id memory s =
      serve id memory s >>= λ (left, s'). if left then done (true, s') else rounds n id memory s'

  -- The beginning of main_loop: a queue with the INIT event, in memory with any contents.
  unfoldable pub begin : ℕ → Msg W → Queue W → Rng → Run (Sim W)
  begin id block q r =
      calqueue_put (calqueue_init q) (d.of_nat 0)
        (record block { type = init; receiver = id; sender = id })
      >>= λ q'. done (record { queue = q'; state = none; rng = r })
