-- ===== src/Testbed/Channel/Ids.antt =====
-- The numbers of the channels in use (libfibers/testbed/src/channel.c): how the walks over the list of
-- channels leave them.
use fibers.Prelude.{
  ℕ, ◌+◌, ◌<◌, ◌≡◌, refl, ap, inl, inr, Bool, true, false, none, some, List, [], ◌∷◌, arith, ◌==◌,
  Bool-cases,
}
use fibers.Testbed.Run.{Ends, Ends-bind}
use fibers.Testbed.Double.{Double, Math, HasSigns}
use fibers.Testbed.Numerical.{Rng, expent, random}
use fibers.Testbed.Channel.{
  Channel, SirData, unlink, fading_recheck, interference, power_up, same_double, path_gain,
  generate_cross_path_gain,
}
use fibers.Testbed.CalQueue.Counts.{one, count}

module _ {W : Type 0} where
  -- How many channels have a number that passes `g`.
  abbrev pub ids : (ℕ → Bool) → List (Channel W) → ℕ
  ids g cs = count (λ c. g c.channel_id) cs

  abbrev pub in_use : List (Channel W) → ℕ
  in_use = ids (λ _. true)

  abbrev pub IsSameIds : List (Channel W) → List (Channel W) → Type 0
  IsSameIds cs cs' = (g : ℕ → Bool) → ids g cs' ≡ ids g cs

  -- A channel whose number is in use is unlinked, and no other.
  pub unlink-takes :
      (ch : ℕ) (cs : List (Channel W))
      → 0 < ids (λ i. i == ch) cs
      → (rest : List (Channel W)) × (unlink ch cs ≡ some rest)
        × ((g : ℕ → Bool) → ids g cs ≡ one (g ch) + ids g rest)
  unfolding unlink
  unlink-takes ch [] h = absurd (omega (arith, h))
  unlink-takes ch (c ∷ cs) h = elim (Bool-cases (c.channel_id == ch)) [
    | inl e ↦
        let same : c.channel_id ≡ ch = ground arith in
        (cs, rw e refl, λ g. ap (λ i. one (g i) + ids g cs) same)
    | inr other ↦
        let (rest, e, takes) = unlink-takes ch cs (ground arith) in
        (c ∷ rest, rw (unlink, other, e) refl, λ g. omega (arith, takes g))
  ]

  unlink-none : (ch : ℕ) (cs : List (Channel W)) → ids (λ i. i == ch) cs ≡ 0 → unlink ch cs ≡ none
  unfolding unlink
  unlink-none ch [] h = refl
  unlink-none ch (c ∷ cs) h =
      let other : (c.channel_id == ch) ≡ false = ground arith in
      rw (other, unlink-none ch cs (ground arith)) refl

-- Where the mean is not negative, expent returns.
pub expent-ends :
    {W : Type 0} ⦃d : Double W⦄ ⦃m : Math W⦄ (mean : W) (r : Rng)
    → d.lt mean (d.of_nat 0) ≡ false
    → Ends (expent mean r) (λ _. Unit)
unfolding expent random
expent-ends mean r h = rw h tt

module _ {W : Type 0} ⦃d : Double W⦄ ⦃m : Math W⦄ (t : HasSigns W) where
  one-ends : (r : Rng) → Ends (expent (d.of_nat 1) r) (λ _. Unit)
  one-ends r = expent-ends (d.of_nat 1) r (t.of_nat 1)

  pub fading_recheck-ids :
      (cs : List (Channel W)) (r : Rng) → Ends (fading_recheck cs r) (λ (cs', r'). IsSameIds cs cs')
  unfolding fading_recheck
  fading_recheck-ids [] r = λ g. refl
  fading_recheck-ids (c ∷ cs) r =
      Ends-bind (expent (d.of_nat 1) r) _ (λ _. Unit) _ (one-ends r)
        (λ (fading, r') _.
          Ends-bind (fading_recheck cs r') _ (λ (cs', r''). IsSameIds cs cs') _
            (fading_recheck-ids cs r') (λ (cs', r'') same g. omega (arith, same g)))

  pub interference-ids :
      (cs : List (Channel W)) (summ : W) (r : Rng)
      → Ends (interference cs summ r) (λ (cs', s, r₃). IsSameIds cs cs')
  unfolding interference path_gain random
  interference-ids [] summ r = λ g. refl
  interference-ids (c ∷ cs) summ r =
      Ends-bind (expent (d.of_nat 1) r) _ (λ _. Unit) _ (one-ends r)
        (λ (fading, r') _.
          let (gain, r'') = generate_cross_path_gain r' in
          let summ' = d.add summ (d.mul (d.mul gain c.sir_data.power) fading) in
          Ends-bind (interference cs summ' r'') _ (λ (cs', s, r₃). IsSameIds cs cs') _
            (interference-ids cs summ' r'') (λ (cs', s, r₃) same g. omega (arith, same g)))

  pub power_up-ends :
      (block : SirData W) (summ : W) (r : Rng) → Ends (power_up block summ r) (λ _. Unit)
  unfolding power_up path_gain random
  power_up-ends block summ r = elim (Bool-cases (same_double summ (d.of_nat 0))) [
    | inl e ↦ rw e tt
    | inr e ↦ rw e (Ends-bind (expent (d.of_nat 1) r) _ (λ _. Unit) _ (one-ends r) (λ _ _. tt))
  ]
