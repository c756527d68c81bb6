-- ===== src/Testbed/Model/Invariant.antt =====
-- What holds of a fiber of libfibers/testbed/src/main.c between two rounds of its loop: the events in
-- its queue and the channels of its cell (model.c) fit.
use fibers.Prelude.{
  ℕ, ◌+◌, ◌<◌, ◌≡◌, refl, ◌⊎◌, inl, inr, Bool, true, false, not, ◌&&◌, ◌||◌, Option, none, some, ℤ,
  pos, negsuc, is_neg, arith, ◌==◌, Bool-cases,
}
use fibers.Testbed.Double.{Double}
use fibers.Testbed.Numerical.{uint32}
use fibers.Testbed.CalQueue.Counts.{one}
use fibers.Testbed.CalQueue.Invariant.{IsValid}
use fibers.Testbed.CalQueue.Trace.{payloads}
use fibers.Testbed.Channel.{Lp}
use fibers.Testbed.Channel.Ids.{ids, in_use}
use fibers.Testbed.Channel.Calls.{IsConsistent}
use fibers.Testbed.Model.{
  Msg, Queue, Sim, init, start_call, end_call, channels_per_cell, complete_calls,
}

abbrev pub is_channel : ℤ → ℕ → Bool
is_channel (pos a) i = a == i
is_channel (negsuc a) i = false

module _ {W : Type 0} ⦃d : Double W⦄ where
  abbrev pub is_start : Msg W → Bool
  is_start msg = msg.type == start_call

  -- The end of the call on channel `i`.
  abbrev pub is_end : ℕ → Msg W → Bool
  is_end i msg = msg.type == end_call && is_channel msg.channel i

  -- Neither the start of a call nor the end of one, for this cell.
  abbrev pub is_other : ℕ → Msg W → Bool
  is_other id msg =
      not
        (msg.receiver == id && (is_start msg || (msg.type == end_call && not (is_neg msg.channel))))

  -- The counter, the bits and the list agree about the channels of the cell, and the
  -- means that its calls are drawn with are not negative.
  pub record IsCell (lp : Lp W) : Type 0 where
    pub per_cell : lp.channels_per_cell ≡ channels_per_cell
    pub free : lp.channel_counter + in_use lp.channels ≡ channels_per_cell
    pub consistent : IsConsistent lp
    pub duration : d.lt lp.ta_duration (d.of_nat 0) ≡ false
    pub mean : d.lt lp.ref_ta (d.of_nat 0) ≡ false

  -- The calls that arrived are complete, blocked or have a channel, but for `n`.
  abbrev pub IsAccounted : ℕ → Lp W → Type 0
  IsAccounted n lp =
      lp.arriving_calls ≡ uint32 (n + lp.complete_calls + lp.blocked_on_setup + in_use lp.channels)

  -- The queue has one start of a call, and an end of a call for each channel in use.
  pub record IsRunning (id : ℕ) (q : Queue W) (lp : Lp W) : Type 0 where
    pub valid : IsValid q
    pub others : payloads (is_other id) q ≡ 0
    pub starts : payloads is_start q ≡ 1
    pub ends : (i : ℕ) → payloads (is_end i) q ≡ ids (λ j. j == i) lp.channels
    pub cell : IsCell lp
    pub calls : IsAccounted 0 lp
    pub incomplete : lp.complete_calls < complete_calls

  -- The queue has the event that sets up the cell.
  pub record IsStarting (id : ℕ) (q : Queue W) : Type 0 where
    pub msg : Msg W
    pub type : msg.type ≡ init
    pub receiver : msg.receiver ≡ id
    pub valid : IsValid q
    pub only : (g : Msg W → Bool) → payloads g q ≡ one (g msg)

  abbrev pub IsSim : ℕ → Queue W → Option (Lp W) → Type 0
  IsSim id q none = IsStarting id q
  IsSim id q (some lp) = IsRunning id q lp

  -- A fiber that is still in the loop, or one that has left it, with all its calls complete.
  abbrev pub Progress : ℕ → Bool × Sim W → Type 0
  Progress id (false, s) = IsSim id s.queue s.state
  Progress id (true, s) =
      (lp : Lp W) × (s.state ≡ some lp) × IsCell lp × (lp.complete_calls ≡ complete_calls)

  -- An event that is not of another kind is a start or an end, for this cell.
  pub is_other-cases :
      (id : ℕ) (msg : Msg W)
      → is_other id msg ≡ false
      → (msg.receiver ≡ id)
        × ((msg.type ≡ start_call) ⊎ ((msg.type ≡ end_call) × (ch : ℕ) × (msg.channel ≡ pos ch)))
  is_other-cases id msg h = (ground arith, split msg.channel refl)
    where
      split :
          (z : ℤ)
          → msg.channel ≡ z
          → (msg.type ≡ start_call) ⊎ ((msg.type ≡ end_call) × (ch : ℕ) × (msg.channel ≡ pos ch))
      split (pos ch) e = elim (Bool-cases (is_start msg)) [
        | inl start ↦ inl (ground arith)
        | inr other ↦ inr (ground (arith, e), ch, e)
      ]
      split (negsuc a) e = inl (ground (arith, e))
