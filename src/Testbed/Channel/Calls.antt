-- ===== src/Testbed/Channel/Calls.antt =====
-- allocation and deallocation (libfibers/testbed/src/channel.c) on the channels of a cell.
use fibers.Prelude.{ℕ, ◌+◌, ◌<◌, ◌≡◌, refl, Bool, true, false, ◌∷◌, pos, arith, ◌==◌}
use fibers.Testbed.Run.{Ends, Ends-bind}
use fibers.Testbed.Double.{Double, Math, HasSigns}
use fibers.Testbed.Numerical.{Rng}
use fibers.Testbed.Channel.{
  SirData, Lp, check_channel, fading_recheck, interference, power_up, allocation, deallocation,
}
use fibers.Testbed.Channel.Ids.{
  ids, in_use, IsSameIds, unlink-takes, fading_recheck-ids, interference-ids, power_up-ends,
}
use fibers.Testbed.Channel.Free.{AllBusy, IsHeld, check-write, first_free-some}
use fibers.Testbed.CalQueue.Counts.{one}

module _ {W : Type 0} where
  -- A state whose bits and whose list hold the same channels, those of the cell.
  abbrev pub IsConsistent : Lp W → Type 0
  IsConsistent lp = IsHeld lp.channel_state lp.channels_per_cell lp.channels

  -- Only the bits and the list change.
  abbrev pub IsSameCell : Lp W → Lp W → Type 0
  IsSameCell lp lp' = lp' ≡ record lp { channel_state = lp'.channel_state; channels = lp'.channels }

  -- The lowest free channel is taken.
  pub record Allocates (lp : Lp W) (ch : ℕ) (lp' : Lp W) : Type 0 where
    pub in_cell : ch < lp.channels_per_cell
    pub free : check_channel lp.channel_state ch ≡ false
    pub lowest : AllBusy lp.channel_state 0 ch
    pub adds : (g : ℕ → Bool) → ids g lp'.channels ≡ one (g ch) + ids g lp.channels
    pub consistent : IsConsistent lp'
    pub same : IsSameCell lp lp'

  -- Channel `ch` is free again.
  pub record Frees (lp : Lp W) (ch : ℕ) (lp' : Lp W) : Type 0 where
    pub free : check_channel lp'.channel_state ch ≡ false
    pub takes : (g : ℕ → Bool) → ids g lp.channels ≡ one (g ch) + ids g lp'.channels
    pub consistent : IsConsistent lp'
    pub same : IsSameCell lp lp'

module _ {W : Type 0} ⦃d : Double W⦄ ⦃m : Math W⦄ (t : HasSigns W) where
  -- Where the mean 1.0 of Expent is not negative (HasSigns), and the bits and the list hold the same
  -- channels, fewer than the cell has, allocation ends:
  -- it takes the lowest free channel, sets its bit and adds it alone to the list, and bits and list
  -- hold the same channels again.
  pub allocation-Allocates :
      (block : SirData W) (lp : Lp W) (r : Rng)
      → IsConsistent lp
      → in_use lp.channels < lp.channels_per_cell
      → Ends (allocation block lp r) (λ (ch, lp', r'). Allocates lp ch lp')
  unfolding allocation
  allocation-Allocates block lp r held less =
      let (ch, e, in_cell, free, lowest) =
        first_free-some lp.channel_state lp.channels_per_cell lp.channels held less in
      rw (allocation, e)
        (Ends-bind (interference lp.channels (d.of_nat 0) r) _
          (λ (cs', s, r₃). IsSameIds lp.channels cs') _
          (interference-ids t lp.channels (d.of_nat 0) r)
          (λ (older, summ, r') same.
            Ends-bind (power_up block summ r') _ (λ _. Unit) _ (power_up-ends t block summ r')
              (λ (sir, r'') _.
                let cs = record { channel_id = ch; sir_data = sir } ∷ older in
                Ends-bind (fading_recheck cs r'') _ (λ (cs', r₃). IsSameIds cs cs') _
                  (fading_recheck-ids t cs r'')
                  (λ (cs', r₃) again.
                    let adds : (g : ℕ → Bool) → ids g cs' ≡ one (g ch) + ids g lp.channels =
                      λ g. omega (arith, again g, same g) in
                    record {
                      in_cell = in_cell;
                      free = free;
                      lowest = lowest;
                      adds = adds;
                      consistent = λ i. ground (
                        arith,
                        adds (λ j. j == i),
                        held i,
                        check-write lp.channel_state ch true i,
                      );
                      same = refl;
                    }))))

  -- Where the mean 1.0 of Expent is not negative (HasSigns), and the bits and the list hold the same
  -- channels, the one that is given among them,
  -- deallocation ends: the bit of this channel is cleared and it alone leaves the list, and bits and
  -- list hold the same channels again.
  pub deallocation-Frees :
      (ch : ℕ) (lp : Lp W) (r : Rng)
      → IsConsistent lp
      → 0 < ids (λ i. i == ch) lp.channels
      → Ends (deallocation (pos ch) lp r) (λ (lp', r'). Frees lp ch lp')
  unfolding deallocation
  deallocation-Frees ch lp r held there =
      let (rest, e, takes) = unlink-takes ch lp.channels there in
      rw (deallocation, e)
        (Ends-bind (fading_recheck rest r) _ (λ (cs', r'). IsSameIds rest cs') _
          (fading_recheck-ids t rest r)
          (λ (cs', r') same.
            let takes' : (g : ℕ → Bool) → ids g lp.channels ≡ one (g ch) + ids g cs' =
              λ g. omega (arith, same g, takes g) in
            record {
              free = ground (arith, check-write lp.channel_state ch false ch);
              takes = takes';
              consistent = λ i. ground (
                arith,
                takes' (λ j. j == i),
                held i,
                there,
                check-write lp.channel_state ch false i,
              );
              same = refl;
            }))
