-- ===== src/Testbed/Numerical.antt =====
-- libfibers/testbed/src/numerical.c: the random numbers. `random` and `log` come from the C library:
-- `random` is the stream of its results, from the one that is drawn next.
pub mod Bounds
use fibers.Prelude.{
  ℕ, zero, suc, ◌+◌, ◌*◌, ◌/◌, ◌%◌, ◌^◌, Bool, true, false, ◌&&◌, Option, none, some, ◌==◌,
  if◌then◌else◌,
}
use fibers.Testbed.Run.{Run, done, stopped}
use fibers.Testbed.Double.{Double, Math}

-- `master_seed` in its two halves, and the results of `random` to come.
pub record Rng : Type 0 where
  pub seed1 : ℕ
  pub seed2 : ℕ
  pub random : ℕ → ℕ

abbrev pub uint32 : ℕ → ℕ
uint32 n = n % 2 ^ 32

-- `if(master_seed == 0) master_seed = random();`
unfoldable pub seeded : Rng → Rng
seeded r =
    if r.seed1 == 0 && r.seed2 == 0
    then record {
      seed1 = uint32 (r.random 0);
      seed2 = uint32 (r.random 0 / 2 ^ 32);
      random = λ n. r.random (suc n);
    }
    else r

-- One step of a half: `k * (seed & 0xFFFFu) + (seed >> 16u)`
unfoldable pub step : ℕ → ℕ → ℕ
step k seed = uint32 (uint32 (k * (seed % 2 ^ 16)) + seed / 2 ^ 16)

unfoldable pub advance : Rng → Rng
advance r = record r { seed1 = step 36969 r.seed1; seed2 = step 18000 r.seed2 }

-- The number that is scaled to the result, and the generator afterwards.
unfoldable pub random_word : Rng → ℕ × Rng
random_word r =
    let r' = advance (seeded r) in
    (uint32 (uint32 (uint32 (r'.seed1 * 2 ^ 16) + r'.seed1 / 2 ^ 16) + r'.seed2), r')

-- The generator after `n` numbers.
unfoldable pub draws : ℕ → Rng → Rng
draws zero r = r
draws (suc n) r = draws n (random_word r).1

module _ {W : Type 0} ⦃d : Double W⦄ where
  -- Random; its scale is 2.328306435454494e-10.
  unfoldable pub random : Rng → W × Rng
  random r =
      let (n, r') = random_word r in
      (d.mul (d.add (d.of_nat n) (d.of_nat 1)) (d.literal 2328306435454494 25), r')

  -- Expent, which exits where the mean is negative. Of the two factors `-mean` and `log(1 - x)` it is
  -- the second that is negated here, with the same product.
  unfoldable pub expent : ⦃m : Math W⦄ → W → Rng → Run (W × Rng)
  expent ⦃m⦄ mean r =
      let (x, r') = random r in
      if d.lt mean (d.of_nat 0)
      then stopped
      else done (d.mul mean (m.neg_log (d.sub (d.of_nat 1) x)), r')
