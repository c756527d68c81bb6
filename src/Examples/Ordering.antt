-- ===== src/Examples/Ordering.antt =====
-- The order of events in libfibers/testbed/src/calqueue.c, on tenths of seconds.
use fibers.Prelude.{
  ℕ, ◌+◌, ◌-◌, ◌*◌, ◌/◌, ◌^◌, ◌≡◌, refl, ℕ_discrete, Bool, true, false, not, [], ◌∷◌, Option, none,
  some, ℤ, pos, negsuc, neg, suc, arith, ltb, ◌==◌, if◌then◌else◌,
}
use fibers.Testbed.Run.{Run, done, negative_index, EndsOrNegative}
use fibers.Testbed.Double.{Double}
use fibers.Examples.Testbed.{seconds, block, calls, filled, filled-IsValid}
use fibers.Testbed.CalQueue.{
  CalQueue, look, place, place_after, insert, direct, process, pick, remove, clear, localinit,
}
use fibers.Testbed.CalQueue.Resizing.{
  put, deq, resize, new_width, sample, refill, rebuild, copy, width_of, gaps, small_gaps,
  calqueue_init, calqueue_put, calqueue_get,
}
use fibers.Testbed.CalQueue.Size.{HasNegative}
use fibers.Testbed.CalQueue.Trace.{put_call, get_call, execute}
use fibers.Testbed.CalQueue.Order.{IsOrder, IsSorted}
use fibers.Testbed.CalQueue.Order.Resizes.{IsOrdered}
use fibers.Testbed.CalQueue.Order.Trace.{execute-IsOrdered, calqueue_get-IsFirst, Returns}

-- All whole numbers are numbers.
abbrev Any : ℕ → Type 0
Any n = Unit

seconds-IsOrder : IsOrder ℕ Any
seconds-IsOrder = record {
  lt-le = λ a b ra rb h. ground arith;
  lt-ge = λ a b ra rb h. ground arith;
  le-ge = λ a b ra rb h. ground arith;
  le-refl = λ a ra. ground arith;
  le-trans = λ a b c ra rb rc h k. ground arith;
}

execute-IsOrdered_example :
    EndsOrNegative
      (HasNegative ℕ)
      (execute calls (calqueue_init block))
      (λ (out, q'). IsOrdered Any q')
execute-IsOrdered_example =
    execute-IsOrdered seconds-IsOrder calls block (tt, (tt, (tt, (tt, (tt, tt)))))

filled-IsSorted :
    (b : Bool) → IsSorted {P = ℕ} Any (if b then record { priority = 30; payload = 1 } ∷ [] else [])
filled-IsSorted true = (tt, tt, tt)
filled-IsSorted false = tt

filled-IsOrdered : IsOrdered Any filled
filled-IsOrdered = (
  omega arith,
  record {
    sorted = λ j h. filled-IsSorted (j == 0);
    firstsub = refl;
    nbuckets = refl;
    last = omega arith;
    bot = refl;
  },
)

-- The search of a year misses the event at 30 seconds.
calqueue_get-IsFirst_example :
    EndsOrNegative
      (HasNegative ℕ)
      (calqueue_get filled)
      (Returns {real = Any} seconds-IsOrder filled none)
unfolding look
calqueue_get-IsFirst_example =
    calqueue_get-IsFirst seconds-IsOrder filled 0 none 3 filled-IsValid filled-IsOrdered refl refl

-- Ten times each value: 5 is half a second.
abbrev tenths : Double ℕ
tenths = record {
  of_nat = λ n. 10 * n;
  literal = λ n k. 10 * n / 10 ^ k;
  add = λ a b. a + b;
  sub = λ a b. a - b;
  mul = λ a b. a * b / 10;
  div = λ a b. 10 * a / b;
  lt = ltb;
  le = λ a b. not (ltb b a);
  to_int = λ n. pos (n / 10);
  to_long = λ n. pos (n / 10);
}

abbrev out_of : {A B : Type 0} → Run (A × B) → Option A
out_of (done (a, b)) = some a
out_of _ = none

-- The event at 3.0 seconds is found by the direct search, which leaves the top of its bucket a bucket too
-- low: the next get passes over the event at 3.7 seconds, and returns the one at 4.2 before it.
late_event :
    out_of (
      execute {P = ℕ} ⦃d = tenths⦄
        (put_call 30 1 ∷ get_call ∷ put_call 37 2 ∷ put_call 42 3 ∷ get_call ∷ get_call ∷ [])
        (calqueue_init ⦃d = tenths⦄ block))
    ≡ some (1 ∷ 3 ∷ 2 ∷ [])
unfolding execute calqueue_init calqueue_put calqueue_get put deq insert place remove look pick
    direct process localinit clear ℕ_discrete
late_event = refl

-- Thousandths of seconds, with a sign: 500 is half a second.
abbrev magnitude : ℤ → ℕ
magnitude (pos n) = n
magnitude (negsuc n) = suc n

abbrev like : ℤ → ℤ → ℕ → ℤ
like (pos _) (pos _) n = pos n
like (pos _) (negsuc _) n = neg n
like (negsuc _) (pos _) n = neg n
like (negsuc _) (negsuc _) n = pos n

abbrev minus : ℕ → ℕ → ℤ
minus a b = if ltb a b then neg (b - a) else pos (a - b)

abbrev plus : ℤ → ℤ → ℤ
plus (pos a) (pos b) = pos (a + b)
plus (pos a) (negsuc b) = minus a (suc b)
plus (negsuc a) (pos b) = minus b (suc a)
plus (negsuc a) (negsuc b) = neg (suc a + suc b)

abbrev opposite : ℤ → ℤ
opposite (pos a) = neg a
opposite (negsuc a) = pos (suc a)

abbrev less : ℤ → ℤ → Bool
less (pos a) (pos b) = ltb a b
less (pos a) (negsuc b) = false
less (negsuc a) (pos b) = true
less (negsuc a) (negsuc b) = ltb b a

abbrev cut : ℤ → ℤ
cut z = like z (pos 0) (magnitude z / 1000)

abbrev thousandths : Double ℤ
thousandths = record {
  of_nat = λ n. pos (1000 * n);
  literal = λ n k. pos (1000 * n / 10 ^ k);
  add = plus;
  sub = λ a b. plus a (opposite b);
  mul = λ a b. like a b (magnitude a * magnitude b / 1000);
  div = λ a b. like a b (1000 * magnitude a / magnitude b);
  lt = less;
  le = λ a b. not (less b a);
  to_int = cut;
  to_long = cut;
}

abbrev block_of : CalQueue ℤ ℕ
block_of = record {
  calq = λ _. [];
  firstsub = 7;
  nbuckets = 9;
  qsize = 100;
  lastbucket = negsuc 3;
  resize_enabled = false;
  top_threshold = 1;
  bot_threshold = pos 1;
  lastprio = pos 5000;
  buckettop = pos 0;
  cwidth = pos 0;
}

abbrev index_of : {A : Type 0} → Run A → Option ℤ
index_of (negative_index k) = some (negsuc k)
index_of _ = none

-- The calendar grows when it holds events that are taken out in another order than that of their times:
-- the mean gap is negative, the new width is -0.5, and the resize writes to bucket -3.
negative_width :
    index_of (
      execute ⦃d = thousandths⦄
        (put_call (pos 3000) 1
          ∷ get_call
          ∷ put_call (pos 3700) 2
          ∷ put_call (pos 4200) 3
          ∷ put_call (pos 100000) 4
          ∷ put_call (pos 100000) 5
          ∷ put_call (pos 100000) 6
          ∷ [])
        (calqueue_init ⦃d = thousandths⦄ block_of))
    ≡ some (neg 3)
unfolding execute calqueue_init calqueue_put calqueue_get put deq insert place place_after remove
    look pick direct process localinit clear ℕ_discrete resize new_width sample refill rebuild copy
    width_of gaps small_gaps
negative_width = refl
