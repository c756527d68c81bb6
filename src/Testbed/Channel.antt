-- ===== src/Testbed/Channel.antt =====
-- libfibers/testbed/src/channel.c and model.h: the channels of a GSM cell. Their doubly linked list is
-- a list, newest first, in the order of `prev`; the words of `channel_state` are given by their bits.
pub mod Ids
pub mod Free
pub mod Calls
use fibers.Prelude.{
  ℕ, zero, suc, ◌+◌, ◌-◌, ◌*◌, ◌/◌, ◌%◌, ◌^◌, Bool, true, false, ◌&&◌, Option, none, some, List, [],
  ◌∷◌, ℤ, pos, negsuc, ltb, ◌==◌, if◌then◌else◌, update,
}
use fibers.Testbed.Run.{Run, done, stopped, ◌>>=◌}
use fibers.Testbed.Double.{Double, Math}
use fibers.Testbed.CalQueue.{rem}
use fibers.Testbed.Numerical.{Rng, random, expent}

-- `sir_data_per_cell`
pub record SirData (W : Type 0) : Type 0 where
  pub fading : W
  pub power : W

pub record Channel (W : Type 0) : Type 0 where
  pub channel_id : ℕ
  pub sir_data : SirData W

-- `lp_state_type`, without the fields that stay 0: those of handoffs, and the dummies.
pub record Lp (W : Type 0) : Type 0 where
  pub channel_counter : ℕ
  pub arriving_calls : ℕ
  pub complete_calls : ℕ
  pub blocked_on_setup : ℕ
  pub executed_events : ℕ
  pub lvt : W
  pub ta : W
  pub ref_ta : W
  pub ta_duration : W
  pub ta_change : W
  pub channels_per_cell : ℕ
  pub channel_state : ℕ → ℕ → Bool
  pub channels : List (Channel W)

abbrev pub bits : ℕ
bits = 32

-- CHECK_CHANNEL
abbrev pub check_channel : (ℕ → ℕ → Bool) → ℕ → Bool
check_channel state i = state (i / bits) (i % bits)

-- SET_CHANNEL and RESET_CHANNEL
abbrev pub write_channel : (ℕ → ℕ → Bool) → ℕ → Bool → ℕ → ℕ → Bool
write_channel state i b = update state (i / bits) (update (state (i / bits)) (i % bits) b)

-- The search of allocation, with `n` channels left from `i` on.
unfoldable pub first_free : (ℕ → ℕ → Bool) → ℕ → ℕ → Option ℕ
first_free state zero i = none
first_free state (suc n) i =
    let rest = first_free state n (suc i) in if check_channel state i then rest else some i

-- The walk of deallocation and the unlinking: the list without the first channel of this number.
unfoldable pub unlink : {W : Type 0} → ℕ → List (Channel W) → Option (List (Channel W))
unlink ch [] = none
unlink ch (c ∷ cs) =
    let rest = unlink ch cs in
    if c.channel_id == ch then some cs else (elim rest [ none ↦ none | some r ↦ some (c ∷ r) ])

-- `a < b` and `a > b` of two signed integers.
abbrev pub int_lt : ℤ → ℤ → Bool
int_lt (pos a) (pos b) = ltb a b
int_lt (pos a) (negsuc b) = false
int_lt (negsuc a) (pos b) = true
int_lt (negsuc a) (negsuc b) = ltb b a

abbrev pub hour : ℕ
hour = 3600

abbrev pub day : ℕ
day = 24 * hour

-- How the time of the week, in seconds, scales the interarrival time: the factor as a decimal.
unfoldable pub ta_factor : ℤ → ℕ × ℕ
ta_factor week_time =
    let now = rem week_time day in
    if int_lt (pos (5 * day)) week_time
    then (5, 0)
    else (if int_lt now (pos 30600)
        then (4, 0)
        else (if int_lt now (pos (13 * hour))
            then (8, 1)
            else (if int_lt now (pos (15 * hour))
                then (25, 1)
                else (if int_lt now (pos (19 * hour))
                    then (2, 0)
                    else (if int_lt now (pos (21 * hour)) then (22, 1) else (45, 1))))))

module _ {W : Type 0} ⦃d : Double W⦄ where
  unfoldable pub recompute_ta : W → W → W
  recompute_ta ref_ta time_now =
      let (n, k) = ta_factor (rem (d.to_int time_now) (7 * day)) in d.mul ref_ta (d.literal n k)

  -- `a == b` of two doubles
  abbrev pub same_double : W → W → Bool
  same_double a b = d.le a b && d.le b a

  -- `10 ^ (10 * Random() / 10)` times a constant
  unfoldable pub path_gain : ⦃m : Math W⦄ → W → Rng → W × Rng
  path_gain ⦃m⦄ gain r =
      let (x, r') = random r in
      let variation = d.mul (d.of_nat 10) x in
      (d.mul gain (m.pow (d.of_nat 10) (d.div variation (d.of_nat 10))), r')

module _ {W : Type 0} ⦃d : Double W⦄ ⦃m : Math W⦄ where
  abbrev pub generate_cross_path_gain : Rng → W × Rng
  generate_cross_path_gain = path_gain (d.literal 5 14)

  abbrev pub generate_path_gain : Rng → W × Rng
  generate_path_gain = path_gain (d.literal 1 10)

  abbrev pub with_fading : W → Channel W → Channel W
  with_fading fading c = record c { sir_data = record (c.sir_data) { fading = fading } }

  unfoldable pub fading_recheck : List (Channel W) → Rng → Run (List (Channel W) × Rng)
  fading_recheck [] r = done ([], r)
  fading_recheck (c ∷ cs) r = expent (d.of_nat 1) r >>= λ (fading, r').
      fading_recheck cs r' >>= λ (cs', r''). done (with_fading fading c ∷ cs', r'')

  -- The loop of allocation over the older channels: their new fading, and the sum.
  unfoldable pub interference : List (Channel W) → W → Rng → Run (List (Channel W) × W × Rng)
  interference [] summ r = done ([], summ, r)
  interference (c ∷ cs) summ r = expent (d.of_nat 1) r >>= λ (fading, r').
      let (gain, r'') = generate_cross_path_gain r' in
      let summ' = d.add summ (d.mul (d.mul gain c.sir_data.power) fading) in
      interference cs summ' r'' >>= λ (cs', s, r₃). done (with_fading fading c ∷ cs', s, r₃)

  -- The power of a new channel: at least 3, at most 3000.
  abbrev pub clamp_power : W → W
  clamp_power p =
      let q = if d.lt p (d.of_nat 3) then d.of_nat 3 else p in
      if d.lt (d.of_nat 3000) q then d.of_nat 3000 else q

  unfoldable pub power_up : SirData W → W → Rng → Run (SirData W × Rng)
  power_up block summ r =
      if same_double summ (d.of_nat 0)
      then done (record block { power = d.of_nat 3 }, r)
      else (expent (d.of_nat 1) r >>= λ (fading, r').
          let (gain, r'') = generate_path_gain r' in
          let power = d.div (d.mul (d.of_nat 10) summ) (d.mul gain fading) in
          done (record { fading = fading; power = clamp_power power }, r''))

  -- `block` is the memory of the new `sir_data`. The result is the number of the channel.
  unfoldable pub allocation : SirData W → Lp W → Rng → Run (ℕ × Lp W × Rng)
  allocation block lp r = elim (first_free lp.channel_state lp.channels_per_cell 0) [
    | none ↦ stopped
    | some index ↦ interference lp.channels (d.of_nat 0) r >>= λ (older, summ, r').
        power_up block summ r' >>= λ (sir, r'').
        fading_recheck (record { channel_id = index; sir_data = sir } ∷ older) r'' >>= λ (cs, r₃).
        done (
          index,
          record lp { channel_state = write_channel lp.channel_state index true; channels = cs },
          r₃,
        )
  ]

  -- Where no channel has this number, which none has that is negative, the program aborts.
  unfoldable pub deallocation : ℤ → Lp W → Rng → Run (Lp W × Rng)
  deallocation (negsuc ch) lp r = stopped
  deallocation (pos ch) lp r = elim (unlink ch lp.channels) [
    | none ↦ stopped
    | some rest ↦ fading_recheck rest r >>= λ (cs, r').
        done
          (record lp { channel_state = write_channel lp.channel_state ch false; channels = cs }, r')
  ]
