-- ===== src/Testbed/Driver.antt =====
-- libfibers/testbed/src/main.c around main_loop: the checks of main, the choice of a fiber, and the
-- countdown by which the first fiber waits for the others. What sysconf, strtoll and random return are
-- arguments.
pub mod Startup
use fibers.Prelude.{
  ◌⊎◌, inl, inr, Bool-cases, ℕ, ◌+◌, ◌-◌, ◌%◌, ◌^◌, ◌<◌, ◌≡◌, refl, Bool, true, false, not, ◌&&◌, ℤ,
  pos, negsuc, arith, ltb, ◌==◌, if◌then◌else◌, update,
}
use fibers.Testbed.Numerical.{uint32}
use fibers.Testbed.Tally.{tally, tally-le, tally-all, tally-missing, tally-none, tally-more}

-- A number as an `unsigned int`.
abbrev pub unsigned : ℤ → ℕ
unsigned (pos n) = uint32 n
unsigned (negsuc n) = 2 ^ 32 - 1 - uint32 n

pub data Errno : Type 0 where
  einval : Errno
  erange : Errno
  no_error : Errno

abbrev pub is_einval : Errno → Bool
is_einval einval = true
is_einval erange = false
is_einval no_error = false

-- What main does with its arguments: it exits, or it runs on `cpus` processors with `num_fibers`.
pub data Start : Type 0 where
  exits : Start
  runs : ℕ → ℕ → Start

unfoldable pub check_args : ℤ → ℕ → ℤ → Errno → Start
check_args sysconf argc strtoll errno =
    let cpus = unsigned sysconf in
    let num_fibers = unsigned strtoll in
    if ltb cpus 1
    then exits
    else (if ltb argc 2
        then exits
        else (if num_fibers == 0 && is_einval errno
            then exits
            else (if not (ltb cpus num_fibers) then exits else runs cpus num_fibers)))

-- The index that schedule and thread_initialization take from `random`.
unfoldable pub get_random_fiber : ℕ → ℕ → ℕ
get_random_fiber random num_fibers = random % num_fibers

-- A fiber has not left its loop, or has left it; and the program has ended with EXIT_SUCCESS, behind the
-- wait of the first fiber, or with EXIT_FAILURE, or neither.
pub record Countdown : Type 0 where
  pub completed_fibers : ℕ
  pub finished : ℕ → Bool
  pub succeeded : Bool
  pub failed : Bool

-- `__sync_fetch_and_sub(&completed_fibers, 1)`, behind the loop of fiber `i`.
unfoldable pub finish_fiber : ℕ → Countdown → Countdown
finish_fiber i m = record m {
  completed_fibers = uint32 (m.completed_fibers + (2 ^ 32 - 1));
  finished = update m.finished i true;
}

-- `while(completed_fibers > 0);` and what comes after it: it goes on waiting, or exits.
unfoldable pub wait : Countdown → Countdown
wait m = if ltb 0 m.completed_fibers then m else record m { succeeded = true }

-- The exits of a fiber before and in its loop: no index of storage is left, it has no event, or it has
-- that of another fiber.
unfoldable pub give_up : Countdown → Countdown
give_up m = record m { failed = true }

-- The program has not exited.
abbrev pub IsUp : Countdown → Type 0
IsUp m = (m.succeeded ≡ false) × (m.failed ≡ false)

-- Any interleaving of `n` fibers; fiber 0 is the one with the id 1, which waits.
pub data Counts (n : ℕ) : Countdown → Type 0 where
  set_up :
      {m : Countdown}
      → m.completed_fibers ≡ n
      → ((i : ℕ) → m.finished i ≡ false)
      → IsUp m
      → Counts n m
  finishes :
      {m : Countdown}
      → Counts n m
      → IsUp m
      → (i : ℕ) → i < n
      → m.finished i ≡ false
      → Counts n (finish_fiber i m)
  waits : {m : Countdown} → Counts n m → IsUp m → m.finished 0 ≡ true → Counts n (wait m)
  gives_up :
      {m : Countdown}
      → Counts n m
      → IsUp m
      → (i : ℕ) → i < n
      → m.finished i ≡ false
      → Counts n (give_up m)

abbrev itself : Bool → Bool
itself b = b

record IsLeft (n : ℕ) (m : Countdown) : Type 0 where
  left : m.completed_fibers + tally itself m.finished n ≡ n
  out : m.succeeded ≡ true → m.completed_fibers ≡ 0
  broken : m.failed ≡ true → (i : ℕ) × (i < n) × (m.finished i ≡ false)

Counts-IsLeft : (n : ℕ) (m : Countdown) → n < 2 ^ 32 → Counts n m → IsLeft n m
unfolding finish_fiber wait give_up
Counts-IsLeft n m small (set_up z h (s, f)) = record {
  left = omega (arith, z, tally-none itself m.finished n h);
  out = λ p. ground (arith, s);
  broken = λ p. absurd (ground (arith, f));
}
Counts-IsLeft n m small (finishes {m = m₀} r (s, f) i less h) =
    let c = Counts-IsLeft n m₀ small r in
    let more = tally-more itself m₀.finished i true n less h refl in
    let most = tally-le itself (update m₀.finished i true) n in
    record {
      left = omega (arith, c.left, more, most, small);
      out = λ p. ground (arith, s);
      broken = λ p. absurd (ground (arith, f));
    }
Counts-IsLeft n m small (waits {m = m₀} r (s, f) h) =
    let c = Counts-IsLeft n m₀ small r in
    record {
      left = ground (arith, c.left);
      out = ground (arith, c.out);
      broken = λ p. absurd (ground (arith, f));
    }
Counts-IsLeft n m small (gives_up {m = m₀} r (s, f) i less h) =
    let c = Counts-IsLeft n m₀ small r in
    record { left = c.left; out = c.out; broken = λ p. (i, less, h) }

unsigned_lt : (z : ℤ) → unsigned z < 2 ^ 32
unsigned_lt (pos n) = omega arith
unsigned_lt (negsuc n) = omega arith

-- Where main runs, there is a processor, and there are more fibers than processors, so that every
-- index from get_random_fiber is that of a fiber.
pub check_args-runs :
    (sysconf : ℤ) (argc : ℕ) (strtoll : ℤ) (errno : Errno) (cpus num_fibers : ℕ)
    → check_args sysconf argc strtoll errno ≡ runs cpus num_fibers
    → (0 < cpus)
      × (cpus < num_fibers)
      × (num_fibers < 2 ^ 32)
      × ((random : ℕ) → get_random_fiber random num_fibers < num_fibers)
unfolding check_args get_random_fiber
check_args-runs sysconf argc strtoll errno cpus num_fibers e =
    let less : cpus < num_fibers = ground arith in
    (ground arith, less, ground (arith, unsigned_lt strtoll), λ random. grind (arith, less))

-- However fewer than 2 ^ 32 fibers interleave, up to an exit: a fiber has not left its loop, the program
-- has not ended with success, and a wait goes on; or all fibers have left their loops, the program has
-- not ended with failure, and a wait ends it with success.
pub countdown-all :
    (n : ℕ) (m : Countdown)
    → n < 2 ^ 32
    → Counts n m
    → ((m.succeeded ≡ false)
        × ((wait m).succeeded ≡ false)
        × ((i : ℕ) × (i < n) × (m.finished i ≡ false)))
      ⊎ (((wait m).succeeded ≡ true) × (m.failed ≡ false) × ((i : ℕ) → i < n → m.finished i ≡ true))
unfolding wait
countdown-all n m small r =
    let c = Counts-IsLeft n m small r in
    elim (Bool-cases (ltb 0 m.completed_fibers)) [
      | inl some_left ↦
          let going : m.succeeded ≡ false = ground (arith, some_left, c.out) in
          inl (
            going,
            ground (arith, some_left, going),
            tally-missing itself m.finished n (ground (arith, some_left, c.left)),
          )
      | inr none_left ↦
          let all : (i : ℕ) → i < n → m.finished i ≡ true =
            λ i less. tally-all itself m.finished n i (ground (arith, none_left, c.left)) less in
          inr (
            ground (arith, none_left),
            elim (Bool-cases m.failed) [
              | inl f ↦
                  let (i, less, still) = c.broken f in absurd (ground (arith, still, all i less))
              | inr g ↦ g
            ],
            all,
          )
    ]
