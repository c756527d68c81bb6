-- ===== src/Testbed/Tally.antt =====
-- How many of the numbers below `n` pass a test, when one of them changes.
use fibers.Prelude.{
  Bool-cases, inl, inr, ℕ, zero, suc, ◌≤◌, ◌<◌, ◌≡◌, refl, Bool, true, false, arith, if◌then◌else◌,
  update, ℕ_discrete,
}

module _ {A : Type 0} (p : A → Bool) where
  unfoldable pub tally : (ℕ → A) → ℕ → ℕ
  tally f zero = 0
  tally f (suc n) = if p (f n) then suc (tally f n) else tally f n

  pub tally-le : (f : ℕ → A) (n : ℕ) → tally f n ≤ n
  unfolding tally
  tally-le f zero = omega arith
  tally-le f (suc n) = ground (arith, tally-le f n)

  -- Where not all pass, the tally is smaller.
  pub tally-all : (f : ℕ → A) (n i : ℕ) → tally f n ≡ n → i < n → p (f i) ≡ true
  unfolding tally
  tally-all f zero i h less = absurd (omega arith)
  tally-all f (suc n) i h less = elim (ℕ_discrete i n) [
    | yes e ↦ ground (arith, tally-le f n)
    | no e ↦ tally-all f n i (ground (arith, tally-le f n)) (omega (arith, e))
  ]

  -- One that does not pass.
  pub tally-missing : (f : ℕ → A) (n : ℕ) → tally f n < n → (i : ℕ) × (i < n) × (p (f i) ≡ false)
  unfolding tally
  tally-missing f zero less = absurd (omega arith)
  tally-missing f (suc n) less = elim (Bool-cases (p (f n))) [
    | inr fails ↦ (n, omega arith, fails)
    | inl passes ↦
        let (i, below, fails) = tally-missing f n (ground (arith, passes)) in
        (i, omega (arith, below), fails)
  ]

  pub tally-none : (f : ℕ → A) (n : ℕ) → ((i : ℕ) → p (f i) ≡ false) → tally f n ≡ 0
  unfolding tally
  tally-none f zero h = refl
  tally-none f (suc n) h = ground (arith, h n, tally-none f n h)

  pub tally-same :
      (f : ℕ → A) (i : ℕ) (x : A) (n : ℕ) → p x ≡ p (f i) → tally (update f i x) n ≡ tally f n
  unfolding tally
  tally-same f i x zero same = refl
  tally-same f i x (suc n) same = ground (arith, tally-same f i x n same)

  tally-above : (f : ℕ → A) (i : ℕ) (x : A) (n : ℕ) → n ≤ i → tally (update f i x) n ≡ tally f n
  unfolding tally
  tally-above f i x zero above = refl
  tally-above f i x (suc n) above = ground (arith, tally-above f i x n (omega arith))

  -- One more passes.
  pub tally-more :
      (f : ℕ → A) (i : ℕ) (x : A) (n : ℕ)
      → i < n
      → p (f i) ≡ false
      → p x ≡ true
      → tally (update f i x) n ≡ suc (tally f n)
  unfolding tally
  tally-more f i x zero less was now = absurd (omega arith)
  tally-more f i x (suc n) less was now = elim (ℕ_discrete i n) [
    | yes e ↦ ground (arith, tally-above f i x n (omega arith))
    | no e ↦ ground (arith, tally-more f i x n (omega (arith, e)) was now)
  ]
