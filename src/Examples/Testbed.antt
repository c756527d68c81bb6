-- ===== src/Examples/Testbed.antt =====
-- The parts of libfibers/testbed on whole numbers of seconds.
use fibers.Prelude.{
  ℕ, zero, suc, ◌+◌, ◌-◌, ◌*◌, ◌/◌, ◌^◌, ◌≡◌, refl, inl, Bool, true, false, not, ◌&&◌, List, [],
  ◌∷◌, pos, negsuc, arith, ltb, ◌==◌, if◌then◌else◌,
}
use fibers.Testbed.Run.{◌>>=◌, Ends, EndsOrNegative, EndsOrNegative-Ends}
use fibers.Testbed.Double.{Double, Math, HasSigns}
use fibers.Testbed.Numerical.{Rng, draws}
use fibers.Testbed.Numerical.Bounds.{draws-seed2}
use fibers.Testbed.CalQueue.{CalQueue, bot_of}
use fibers.Testbed.CalQueue.Counts.{count, total}
use fibers.Testbed.CalQueue.Size.{HasNegative, by_int, by_long}
use fibers.Testbed.CalQueue.Invariant.{IsValid, IsCalendar}
use fibers.Testbed.CalQueue.Resizing.{calqueue_init, resize}
use fibers.Testbed.CalQueue.Grow.{Resizes, resize-Resizes}
use fibers.Testbed.CalQueue.Trace.{
  Call, put_call, get_call, put_in, payloads, execute, calqueue-conserves,
}
use fibers.Testbed.Channel.{Lp, SirData, allocation, deallocation}
use fibers.Testbed.Channel.Calls.{
  IsConsistent, Allocates, Frees, allocation-Allocates, deallocation-Frees,
}
use fibers.Testbed.Model.{Msg, Memory, rounds, begin}
use fibers.Testbed.Model.Invariant.{Progress}
use fibers.Testbed.Model.Rounds.{main_loop-Progress}

-- No remainder.
abbrev quotient : ℕ → ℕ → ℕ
quotient p zero = 0
quotient p (suc w) = p / suc w

instance abbrev pub seconds : Double ℕ
seconds = record {
  of_nat = λ n. n;
  literal = λ n k. quotient n (10 ^ k);
  add = λ a b. a + b;
  sub = λ a b. a - b;
  mul = λ a b. a * b;
  div = quotient;
  lt = ltb;
  le = λ a b. not (ltb b a);
  to_int = λ n. pos n;
  to_long = λ n. pos n;
}

instance abbrev pub seconds_math : Math ℕ
seconds_math = record { neg_log = λ n. suc n; pow = λ a b. suc b }

pub seconds-HasSigns : HasSigns ℕ
seconds-HasSigns = record {
  of_nat = λ n. ground arith;
  literal = λ n k. ground arith;
  mul = λ a b h k. ground arith;
}

-- A queue in memory that holds other data.
abbrev pub block : {P : Type 0} → CalQueue ℕ P
block = record {
  calq = λ _. [];
  firstsub = 7;
  nbuckets = 9;
  qsize = 100;
  lastbucket = negsuc 3;
  resize_enabled = false;
  top_threshold = 1;
  bot_threshold = pos 1;
  lastprio = 5;
  buckettop = 0;
  cwidth = 0;
}

-- Enough puts for the calendar to grow, and a get.
abbrev pub calls : List (Call ℕ ℕ)
calls =
    put_call 30 1 ∷ put_call 10 2 ∷ put_call 20 3 ∷ put_call 11 4 ∷ put_call 12 5 ∷ get_call ∷ []

calqueue-conserves_example :
    EndsOrNegative
      (HasNegative ℕ)
      (execute calls (calqueue_init block))
      (λ (out, q'). (g : ℕ → Bool) → count g out + payloads g q' ≡ put_in g calls)
calqueue-conserves_example = calqueue-conserves calls block

-- No quotient of whole numbers is negative, so this program ends.
seconds-positive : HasNegative ℕ → ⊥
seconds-positive (by_int p w n k size e) = absurd cc
seconds-positive (by_long p w n k size e) = absurd cc

calls_end :
    Ends
      (execute calls (calqueue_init block))
      (λ (out, q'). (g : ℕ → Bool) → count g out + payloads g q' ≡ put_in g calls)
calls_end =
    EndsOrNegative-Ends (HasNegative ℕ) (execute calls (calqueue_init block)) _ seconds-positive
      (calqueue-conserves calls block)

-- One event at 30 seconds, in a calendar of two buckets.
abbrev pub filled : CalQueue ℕ ℕ
filled = record {
  calq = λ i. if i == 0 then record { priority = 30; payload = 1 } ∷ [] else [];
  firstsub = 0;
  nbuckets = 2;
  qsize = 1;
  lastbucket = pos 0;
  resize_enabled = true;
  top_threshold = 4;
  bot_threshold = bot_of 2;
  lastprio = 0;
  buckettop = 1;
  cwidth = 1;
}

filled-IsCalendar : IsCalendar filled
unfolding total
filled-IsCalendar = record {
  size = (0, omega arith, refl);
  base = inl refl;
  last = omega arith;
  counted = refl;
  top = refl;
  bot = refl;
}

pub filled-IsValid : IsValid filled
filled-IsValid = record {
  calendar = filled-IsCalendar;
  resize_enabled = refl;
  not_full = inl (omega arith);
}

resize-Resizes_example : EndsOrNegative (HasNegative ℕ) (resize 1 filled 4) (Resizes filled 4)
resize-Resizes_example =
    resize-Resizes 0 filled 4 filled-IsCalendar refl (1, omega arith, refl) (omega arith)
      (omega arith)

-- A thread whose seed is still 0.
abbrev rng : Rng
rng = record { seed1 = 0; seed2 = 0; random = λ i. 1804289383 - i }

draws-seed2_example : (draws 3 rng).seed2 ≡ 0
draws-seed2_example = draws-seed2 3 rng (λ i. omega arith) refl

abbrev sir : SirData ℕ
sir = record { fading = 2; power = 5 }

-- What malloc returns holds bits that are set.
abbrev memory : Memory ℕ
memory = record { channel_state = λ i k. true; sir_data = sir }

-- A cell whose channel 0 is in use.
abbrev cell : Lp ℕ
cell = record {
  channel_counter = 2;
  arriving_calls = 1;
  complete_calls = 0;
  blocked_on_setup = 0;
  executed_events = 2;
  lvt = 4;
  ta = 1;
  ref_ta = 1;
  ta_duration = 60;
  ta_change = 150;
  channels_per_cell = 3;
  channel_state = λ i k. i == 0 && k == 0;
  channels = record { channel_id = 0; sir_data = sir } ∷ [];
}

cell-IsConsistent : IsConsistent cell
cell-IsConsistent i = ground arith

allocation-Allocates_example :
    Ends (allocation sir cell rng) (λ (ch, lp', r'). Allocates cell ch lp')
allocation-Allocates_example =
    allocation-Allocates seconds-HasSigns sir cell rng cell-IsConsistent (omega arith)

deallocation-Frees_example : Ends (deallocation (pos 0) cell rng) (λ (lp', r'). Frees cell 0 lp')
deallocation-Frees_example =
    deallocation-Frees seconds-HasSigns 0 cell rng cell-IsConsistent (omega arith)

abbrev event : Msg ℕ
event = record { sender = 0; receiver = 0; type = 77; timestamp = 0; channel = pos 4 }

main_loop-Progress_example :
    EndsOrNegative (HasNegative ℕ) (begin 3 event block rng >>= rounds 4 3 memory) (Progress 3)
main_loop-Progress_example = main_loop-Progress seconds-HasSigns memory 4 3 event block rng
