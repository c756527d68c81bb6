-- ===== src/Testbed/Double.antt =====
-- All that libfibers/testbed/src does with a `double`. The type and its operations are
-- parameters: the processor computes them.
use fibers.Prelude.{ℕ, ◌≡◌, Bool, false, ℤ}

pub record Double (W : Type 0) : Type 0 where
  pub of_nat : ℕ → W
  -- `n` with the decimal point moved `k` digits, as in the source: 0.5 is `literal 5 1`.
  pub literal : ℕ → ℕ → W
  pub add : W → W → W
  pub sub : W → W → W
  pub mul : W → W → W
  pub div : W → W → W
  pub lt : W → W → Bool
  pub le : W → W → Bool
  pub to_int : W → ℤ
  pub to_long : W → ℤ

-- The numbers that the source writes down are not negative, and no product of doubles that are not
-- negative is.
pub record HasSigns (W : Type 0) ⦃d : Double W⦄ : Type 0 where
  pub of_nat : (n : ℕ) → d.lt (d.of_nat n) (d.of_nat 0) ≡ false
  pub literal : (n k : ℕ) → d.lt (d.literal n k) (d.of_nat 0) ≡ false
  pub mul :
      (a b : W)
      → d.lt a (d.of_nat 0) ≡ false
      → d.lt b (d.of_nat 0) ≡ false
      → d.lt (d.mul a b) (d.of_nat 0) ≡ false

-- The C library's functions on a `double`.
pub record Math (W : Type 0) : Type 0 where
  -- `-log(x)`
  pub neg_log : W → W
  pub pow : W → W → W
