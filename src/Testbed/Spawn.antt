-- ===== src/Testbed/Spawn.antt =====
-- libfibers/testbed/src/thread.c: the numbers that new threads give themselves, in a loop around a
-- compare-and-swap.
use fibers.Prelude.{
  ℕ, suc, ◌^◌, ◌≤◌, ◌<◌, ◌≡◌, refl, sym, ap, subst, ◌∙◌, inl, inr, Bool, true, false, arith, ◌==◌,
  if◌then◌else◌, update, Bool-cases,
}
use fibers.Testbed.Numerical.{uint32}
use fibers.Testbed.Tally.{tally, tally-le, tally-none, tally-same, tally-more}

-- Where a thread is in the loop of __helper_create_thread, with `old_counter`; and its `tid`, behind it.
pub data Phase : Type 0 where
  begins : Phase
  loaded : ℕ → Phase
  numbered : ℕ → Phase

-- `thread_counter`, and the threads.
pub record Threads : Type 0 where
  pub thread_counter : ℕ
  pub phases : ℕ → Phase

-- `old_counter = thread_counter`, or the compare-and-swap, which sends the thread back where it fails.
unfoldable pub advance_thread : ℕ → Threads → Threads
advance_thread i m = elim (m.phases i) [
  | begins ↦ record m { phases = update m.phases i (loaded m.thread_counter) }
  | loaded old_counter ↦
      let tid = uint32 (suc old_counter) in
      if m.thread_counter == old_counter
      then record { thread_counter = tid; phases = update m.phases i (numbered tid) }
      else record m { phases = update m.phases i begins }
  | numbered tid ↦ m
]

-- Any interleaving of `n` threads that create_threads has started.
pub data Runs (n : ℕ) : Threads → Type 0 where
  started : {m : Threads} → m.thread_counter ≡ 0 → ((i : ℕ) → m.phases i ≡ begins) → Runs n m
  advances : {m : Threads} → Runs n m → (i : ℕ) → i < n → Runs n (advance_thread i m)

abbrev is_numbered : Phase → Bool
is_numbered (numbered tid) = true
is_numbered _ = false

-- The counter is the number of threads that have a number; these numbers are below and different.
record IsCounted (n : ℕ) (m : Threads) : Type 0 where
  counter : m.thread_counter ≡ tally is_numbered m.phases n
  within : (i tid : ℕ) → m.phases i ≡ numbered tid → (0 < tid) × (tid ≤ m.thread_counter)
  apart : (i j tid : ℕ) → m.phases i ≡ numbered tid → m.phases j ≡ numbered tid → i ≡ j

module _ (n : ℕ) (small : n < 2 ^ 16) where
  -- A thread that goes round the loop changes no number.
  round-IsCounted :
      (m : Threads) (i : ℕ) (x : Phase)
      → IsCounted n m
      → is_numbered (m.phases i) ≡ false
      → is_numbered x ≡ false
      → IsCounted n (record m { phases = update m.phases i x })
  round-IsCounted m i x c was now = record {
    counter = c.counter ∙ sym (tally-same is_numbered m.phases i x n (now ∙ sym was));
    within = λ j tid p. ground (arith, c.within j tid);
    apart = λ j k tid p q. ground (arith, c.apart j k tid);
  }

  number-IsCounted :
      (m : Threads) (i : ℕ)
      → i < n
      → IsCounted n m
      → is_numbered (m.phases i) ≡ false
      → IsCounted n (record {
        thread_counter = uint32 (suc m.thread_counter);
        phases = update m.phases i (numbered (uint32 (suc m.thread_counter)));
      })
  number-IsCounted m i less c was =
      let exact : uint32 (suc m.thread_counter) ≡ suc m.thread_counter =
        omega (arith, c.counter, tally-le is_numbered m.phases n, small) in
      record {
        counter =
            exact ∙ ap suc c.counter ∙ sym (tally-more is_numbered m.phases i _ n less was refl);
        within = λ j tid p. ground (arith, c.within j tid, exact);
        apart =
            λ j k tid p q. ground (arith, c.apart j k tid, c.within j tid, c.within k tid, exact);
      }

  advance-IsCounted :
      (m : Threads) (i : ℕ) → i < n → IsCounted n m → IsCounted n (advance_thread i m)
  unfolding advance_thread
  advance-IsCounted m i less c = split (m.phases i) refl
    where
      split : (x : Phase) → m.phases i ≡ x → IsCounted n (advance_thread i m)
      split begins e = rw (advance_thread, e) (round-IsCounted m i _ c (ground (arith, e)) refl)
      split (loaded old_counter) e = elim (Bool-cases (m.thread_counter == old_counter)) [
        | inl same ↦
            let at : m.thread_counter ≡ old_counter = ground arith in
            rw (advance_thread, e, same)
              (subst
                (λ o. IsCounted n (record {
                  thread_counter = uint32 (suc o);
                  phases = update m.phases i (numbered (uint32 (suc o)));
                }))
                at (number-IsCounted m i less c (ground (arith, e))))
        | inr differs ↦
            rw (advance_thread, e, differs) (round-IsCounted m i begins c (ground (arith, e)) refl)
      ]
      split (numbered tid) e = rw (advance_thread, e) c

  Runs-IsCounted : (m : Threads) → Runs n m → IsCounted n m
  Runs-IsCounted m (started z h) = record {
    counter = z ∙ sym (tally-none is_numbered m.phases n (λ i. ground (arith, h i)));
    within = λ i tid p. ground (arith, h i);
    apart = λ i j tid p q. ground (arith, h i);
  }
  Runs-IsCounted m (advances {m = m₀} r i less) = advance-IsCounted m₀ i less (Runs-IsCounted m₀ r)

  -- However fewer than 2 ^ 16 threads interleave in the loop, those that have left it have different
  -- numbers, from 1 up to the number of threads.
  pub numbers-differ :
      (m : Threads)
      → Runs n m
      → (i j tid : ℕ) → m.phases i ≡ numbered tid
      → (0 < tid) × (tid ≤ n) × (m.phases j ≡ numbered tid → i ≡ j)
  numbers-differ m r i j tid p =
      let c = Runs-IsCounted m r in
      (
        (c.within i tid p).0,
        omega (arith, c.within i tid p, c.counter, tally-le is_numbered m.phases n),
        c.apart i j tid p,
      )
