-- ===== src/Testbed/CalQueue/Invariant.antt =====
-- What holds of a calendar queue between its calls (libfibers/testbed/src/calqueue.c), and what it
-- means for a call to end well.
use fibers.Prelude.{ℕ, ◌+◌, ◌*◌, ◌≤◌, ◌≡◌, ◌⊎◌, Bool, true}
pub use fibers.Testbed.Run.{EndsOrNegative, EndsOrNegative-bind, EndsOrNegative-map}
use fibers.Testbed.Double.{Double}
use fibers.Testbed.CalQueue.{Node, CalQueue, calqspace, maxnbuckets, bot_of}
use fibers.Testbed.CalQueue.Counts.{total}
use fibers.Testbed.CalQueue.Size.{IsSize, IsBucket}

module _ {W P : Type 0} ⦃d : Double W⦄ where
  -- How many events of the calendar pass the test `f`.
  abbrev pub events : (Node W P → Bool) → CalQueue W P → ℕ
  events f q = total f q.calq q.firstsub q.nbuckets

  -- The calendar lies at one end of the array and has a size that remainders keep to; the current
  -- bucket is one of its own, or a negative number (IsBucket); the count and the thresholds are those of its contents and size.
  pub record IsCalendar (q : CalQueue W P) : Type 0 where
    pub size : IsSize q.nbuckets
    pub base : (q.firstsub ≡ 0) ⊎ (q.firstsub + q.nbuckets ≡ calqspace)
    pub last : IsBucket W q.lastbucket q.nbuckets
    pub counted : q.qsize ≡ events (λ _. true) q
    pub top : q.top_threshold ≡ 2 * q.nbuckets
    pub bot : q.bot_threshold ≡ bot_of q.nbuckets

  -- Two states of the same calendar.
  pub record IsSame (q q' : CalQueue W P) : Type 0 where
    pub nbuckets : q'.nbuckets ≡ q.nbuckets
    pub firstsub : q'.firstsub ≡ q.firstsub
    pub resize_enabled : q'.resize_enabled ≡ q.resize_enabled

  -- Between calls resizes are enabled, and the calendar is not too full, unless it cannot grow.
  pub record IsValid (q : CalQueue W P) : Type 0 where
    pub calendar : IsCalendar q
    pub resize_enabled : q.resize_enabled ≡ true
    pub not_full : (q.qsize ≤ 2 * q.nbuckets) ⊎ (q.nbuckets ≡ maxnbuckets)
