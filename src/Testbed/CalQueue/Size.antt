-- ===== src/Testbed/CalQueue/Size.antt =====
-- The numbers of buckets that a calendar can have, and why a remainder by them is a bucket.
use fibers.Prelude.{
  ℕ, zero, suc, ◌+◌, ◌*◌, ◌/◌, ◌%◌, ◌≤◌, ◌<◌, ◌≡◌, refl, Bool, true, ℤ, pos, negsuc, neg, arith,
  ℕ_discrete, ltb, if◌then◌else◌,
}
use fibers.Testbed.Double.{Double}
use fibers.Testbed.CalQueue.{rem, maxnbuckets}

abbrev pub pow2 : ℕ → ℕ
pow2 zero = 1
pow2 (suc k) = pow2 k + pow2 k

-- 2, 4, and so on to 32768.
abbrev pub IsSize : ℕ → Type 0
IsSize n = (k : ℕ) × (k < 15) × (n ≡ pow2 (suc k))

pow2-pos : (k : ℕ) → 0 < pow2 k
pow2-pos zero = omega arith
pow2-pos (suc k) = omega (arith, pow2-pos k)

pub IsSize-pos : (n : ℕ) → IsSize n → 2 ≤ n
IsSize-pos n (k, _, e) = omega (arith, pow2-pos k)

-- How many of the numbers below `n` fail a test.
failures : (ℕ → Bool) → ℕ → ℕ
failures p zero = 0
failures p (suc n) = if p n then failures p n else suc (failures p n)

failures-none : (p : ℕ → Bool) (n k : ℕ) → k < n → failures p n ≡ 0 → p k ≡ true
unfolding failures
failures-none p zero k below none_fail = absurd (omega arith)
failures-none p (suc n) k below none_fail = elim (ℕ_discrete k n) [
  | yes e ↦ ground arith
  | no e ↦ failures-none p n k (omega (arith, e)) (ground arith)
]

le_table : failures (λ k. ltb (pow2 (suc k)) (maxnbuckets + 1)) 15 ≡ 0
unfolding failures
le_table = refl

pub IsSize-le : (n : ℕ) → IsSize n → n ≤ maxnbuckets
IsSize-le n (k, h, e) =
    ground (arith, failures-none (λ k. ltb (pow2 (suc k)) (maxnbuckets + 1)) 15 k h le_table)

pub IsSize-double : (n : ℕ) → IsSize n → n < maxnbuckets → IsSize (2 * n)
IsSize-double n (k, h, e) lt = elim (ℕ_discrete k 14) [
  | yes p ↦ absurd (ground arith)
  | no p ↦ (suc k, omega (arith, p), omega arith)
]

pub IsSize-half : (n : ℕ) → IsSize n → 2 < n / 2 → IsSize (n / 2)
IsSize-half n (zero, h, e) lt = absurd (omega arith)
IsSize-half n (suc k, h, e) lt = (k, omega arith, omega arith)

-- Some quotient of two doubles, converted as in `calqueue_put` or in `localinit`, has a negative
-- remainder by a number of buckets.
pub data HasNegative (W : Type 0) ⦃d : Double W⦄ : Type 0 where
  by_int : (p w : W) (n k : ℕ) → IsSize n → rem (d.to_int (d.div p w)) n ≡ negsuc k → HasNegative W
  by_long :
      (p w : W) (n k : ℕ) → IsSize n → rem (d.to_long (d.div p w)) n ≡ negsuc k → HasNegative W

-- A bucket, or a negative number that such a remainder explains.
abbrev pub IsBucket : (W : Type 0) ⦃d : Double W⦄ → ℤ → ℕ → Type 0
IsBucket W (pos l) n = l < n
IsBucket W (negsuc _) n = HasNegative W

-- A bucket, or a negative number.
abbrev pub InRange : ℤ → ℕ → Type 0
InRange (pos l) n = l < n
InRange (negsuc _) n = Unit

-- A remainder by the number of buckets is one or the other.
pub rem-InRange : (z : ℤ) (n : ℕ) → 0 < n → InRange (rem z n) n
rem-InRange (pos a) n more = grind arith
rem-InRange (negsuc a) n more = neg-InRange (suc a % n)
  where
    neg-InRange : (b : ℕ) → InRange (neg b) n
    neg-InRange zero = more
    neg-InRange (suc b) = tt

-- The bucket that localinit begins with.
pub long-IsBucket :
    {W : Type 0} ⦃d : Double W⦄ (p w : W) (n : ℕ)
    → IsSize n
    → IsBucket W (rem (d.to_long (d.div p w)) n) n
long-IsBucket {W} ⦃d⦄ p w n size =
    split (rem (d.to_long (d.div p w)) n) refl
      (rem-InRange (d.to_long (d.div p w)) n (omega (arith, IsSize-pos n size)))
  where
    split : (z : ℤ) → rem (d.to_long (d.div p w)) n ≡ z → InRange z n → IsBucket W z n
    split (pos l) at below = below
    split (negsuc k) at _ = HasNegative.by_long p w n k size at
