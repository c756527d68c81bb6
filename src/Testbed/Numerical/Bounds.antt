-- ===== src/Testbed/Numerical/Bounds.antt =====
-- The generator of libfibers/testbed/src/numerical.c in 32-bit arithmetic.
use fibers.Prelude.{ℕ, zero, suc, ◌+◌, ◌*◌, ◌/◌, ◌%◌, ◌^◌, ◌≤◌, ◌<◌, ◌≡◌, refl, ◌∙◌, arith, ◌⊎◌}
use fibers.Testbed.Numerical.{Rng, seeded, step, advance, random_word, draws}

-- A step never wraps: its result is the sum as a number.
step-exact : (k s : ℕ) → k ≤ 36969 → s < 2 ^ 32 → step k s ≡ k * (s % 65536) + s / 65536
unfolding step
step-exact k s hk h = grind arith

-- A half that is not 0 stays so.
step-pos : (k s : ℕ) → 0 < k → k ≤ 36969 → s < 2 ^ 32 → 0 < s → 0 < step k s
step-pos k s pk hk h p = grind (arith, step-exact)

-- The number that Random scales lies in 0 to 2 ^ 32 - 1, so with the scale 2.328306435454494e-10,
-- read as an exact fraction, the result lies strictly between 0 and 1.
pub random_word-bounds :
    (r : Rng)
    → ((random_word r).0 < 2 ^ 32)
      × (0 < ((random_word r).0 + 1) * 2328306435454494)
      × (((random_word r).0 + 1) * 2328306435454494 < 10 ^ 25)
unfolding random_word
random_word-bounds r = (omega arith, omega arith, omega arith)

-- `random` gives numbers below 2 ^ 31, its RAND_MAX + 1.
abbrev pub IsRandom : Rng → Type 0
IsRandom r = (i : ℕ) → r.random i < 2 ^ 31

random_word-seed2 : (r : Rng) → r.random 0 < 2 ^ 31 → r.seed2 ≡ 0 → (random_word r).1.seed2 ≡ 0
unfolding random_word seeded advance step
random_word-seed2 r h z = ground arith

random_word-random :
    (r : Rng) (i : ℕ)
    → ((random_word r).1.random i ≡ r.random i) ⊎ ((random_word r).1.random i ≡ r.random (suc i))
unfolding random_word seeded advance
random_word-random r i = ground arith

random_word-IsRandom : (r : Rng) → IsRandom r → IsRandom (random_word r).1
random_word-IsRandom r h i = ground (arith, random_word-random r i, h i, h (suc i))

-- Where `random` gives numbers below 2 ^ 31, a second half of the seed that is 0, as it is when a thread
-- starts, is 0 after any number of draws: the second generator adds nothing.
pub draws-seed2 : (n : ℕ) (r : Rng) → IsRandom r → r.seed2 ≡ 0 → (draws n r).seed2 ≡ 0
unfolding draws
draws-seed2 zero r h z = z
draws-seed2 (suc n) r h z =
    draws-seed2 n (random_word r).1 (random_word-IsRandom r h) (random_word-seed2 r (h 0) z)

step-lt : (k s : ℕ) → step k s < 2 ^ 32
unfolding step
step-lt k s = omega arith

-- A seed whose first half is not 0 is not drawn again.
random_word-running :
    (r : Rng)
    → r.seed1 < 2 ^ 32
    → 0 < r.seed1
    → (0 < (random_word r).1.seed1)
      × ((random_word r).1.seed1 < 2 ^ 32)
      × ((random_word r).1.random ≡ r.random)
unfolding random_word seeded advance
random_word-running r h p =
    (ground (arith, step-pos 36969 r.seed1), step-lt 36969 (seeded r).seed1, ground arith)

random_word-lt : (r : Rng) → (random_word r).1.seed1 < 2 ^ 32
unfolding random_word advance
random_word-lt r = step-lt 36969 (seeded r).seed1

draws-random : (n : ℕ) (r : Rng) → r.seed1 < 2 ^ 32 → 0 < r.seed1 → (draws n r).random ≡ r.random
unfolding draws
draws-random zero r h p = refl
draws-random (suc n) r h p =
    let (p', h', e) = random_word-running r h p in draws-random n (random_word r).1 h' p' ∙ e

first_draw :
    (r : Rng)
    → r.random 0 < 2 ^ 31
    → 0 < r.random 0
    → r.seed1 ≡ 0
    → r.seed2 ≡ 0
    → (0 < (random_word r).1.seed1) × ((random_word r).1.random ≡ (λ i. r.random (suc i)))
unfolding random_word seeded advance
first_draw r b p z z' = (ground (arith, step-pos 36969 (r.random 0)), ground arith)

-- Where `random` gives numbers below 2 ^ 31, and first one that is not 0, a thread that starts with a
-- seed of 0 takes only that one from `random`, however many numbers it draws.
pub draws-seeded_once :
    (n : ℕ) (r : Rng)
    → IsRandom r
    → 0 < r.random 0
    → r.seed1 ≡ 0
    → r.seed2 ≡ 0
    → (draws (suc n) r).random ≡ (λ i. r.random (suc i))
unfolding draws
draws-seeded_once n r b p z z' =
    let (p', e) = first_draw r (b 0) p z z' in
    draws-random n (random_word r).1 (random_word-lt r) p' ∙ e
