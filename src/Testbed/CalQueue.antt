-- ===== src/Testbed/CalQueue.antt =====
-- libfibers/testbed/src/calqueue.c: a calendar queue of events. Both calendars, the one in use and
-- the one that a resize fills, lie in one array `calq`, as in the source. A chain of nodes is a list.
pub mod Resizing
pub mod Counts
pub mod Size
pub mod Invariant
pub mod Insert
pub mod Remove
pub mod Width
pub mod Grow
pub mod Calls
pub mod Trace
pub mod Order
use fibers.Prelude.{
  ℕ, zero, suc, ◌+◌, ◌-◌, ◌*◌, ◌/◌, ◌%◌, ◌^◌, Bool, true, false, ◌&&◌, ◌||◌, Option, none, some,
  List, [], ◌∷◌, ℤ, pos, negsuc, neg, ltb, ◌==◌, if◌then◌else◌, update,
}
pub use fibers.Testbed.Run.{Run, done, fault, negative_index, no_fuel, ◌>>=◌}
use fibers.Testbed.Double.{Double}

-- `calqueue_node`, without the link.
pub record Node (W P : Type 0) : Type 0 where
  pub priority : W
  pub payload : P

pub record CalQueue (W P : Type 0) : Type 0 where
  pub calq : ℕ → List (Node W P)
  pub firstsub : ℕ
  pub nbuckets : ℕ
  pub qsize : ℕ
  pub lastbucket : ℤ
  pub resize_enabled : Bool
  pub top_threshold : ℕ
  pub bot_threshold : ℤ
  pub lastprio : W
  pub buckettop : W
  pub cwidth : W

abbrev pub calqspace : ℕ
calqspace = 65536

abbrev pub maxnbuckets : ℕ
maxnbuckets = 32768

abbrev pub is_none {ℓ} : {A : Type ℓ} → Option A → Bool
is_none none = true
is_none (some a) = false

-- The remainder of C, whose sign is that of the dividend.
abbrev pub rem : ℤ → ℕ → ℤ
rem (pos a) n = pos (a % n)
rem (negsuc a) n = neg (suc a % n)

-- `qsize < bot_threshold`
abbrev pub is_below : ℕ → ℤ → Bool
is_below n (pos b) = ltb n b
is_below n (negsuc b) = false

-- `(int)((double)nbuckets / 2) - 2`
abbrev pub bot_of : ℕ → ℤ
bot_of nbuckets = if ltb (nbuckets / 2) 2 then neg (2 - nbuckets / 2) else pos (nbuckets / 2 - 2)

module _ {W P : Type 0} where
  -- `q->calendar[i]`
  abbrev pub calendar : CalQueue W P → ℕ → List (Node W P)
  calendar q i = q.calq (q.firstsub + i)

  abbrev pub write : CalQueue W P → ℕ → List (Node W P) → CalQueue W P
  write q i chain = record q { calq = update q.calq (q.firstsub + i) chain }

  -- The loop that empties `n` buckets from `base` on.
  unfoldable pub clear : ℕ → ℕ → (ℕ → List (Node W P)) → ℕ → List (Node W P)
  clear base zero calq = calq
  clear base (suc n) calq = update (clear base n calq) (base + n) []

-- `i++; if(i == q->nbuckets) i = 0;`
abbrev pub next_bucket : ℕ → ℕ → ℕ
next_bucket i nbuckets = if suc i == nbuckets then 0 else suc i

module _ {W : Type 0} ⦃d : Double W⦄ where
  -- `(double)(n + 1)`
  abbrev pub double_suc : ℤ → W
  double_suc (pos a) = d.of_nat (suc a)
  double_suc (negsuc a) = d.sub (d.of_nat 0) (d.of_nat a)

module _ {W P : Type 0} ⦃d : Double W⦄ where
  unfoldable pub localinit : CalQueue W P → ℕ → ℕ → W → W → CalQueue W P
  localinit q qbase nbucks bwidth startprio =
      let n = d.to_long (d.div startprio bwidth) in
      record q {
        firstsub = qbase;
        nbuckets = nbucks;
        cwidth = bwidth;
        qsize = 0;
        calq = clear qbase nbucks q.calq;
        lastprio = startprio;
        lastbucket = rem n nbucks;
        buckettop = d.add (d.mul (double_suc n) bwidth) (d.mul (d.literal 5 1) bwidth);
        bot_threshold = bot_of nbucks;
        top_threshold = 2 * nbucks;
      }

  -- The walk behind the head of a chain, and the insertion in a chain.
  unfoldable pub place_after : Node W P → List (Node W P) → List (Node W P)
  place_after e [] = e ∷ []
  place_after e (x ∷ xs) = if d.le x.priority e.priority then x ∷ place_after e xs else e ∷ x ∷ xs

  unfoldable pub place : Node W P → List (Node W P) → List (Node W P)
  place e [] = e ∷ []
  place e (x ∷ xs) = if d.lt e.priority x.priority then e ∷ x ∷ xs else x ∷ place_after e xs

  -- calqueue_put up to the test of the threshold.
  unfoldable pub insert : CalQueue W P → Node W P → Run (CalQueue W P)
  insert q e = elim (rem (d.to_int (d.div e.priority q.cwidth)) q.nbuckets) [
    | negsuc k ↦ negative_index k
    | pos i ↦ done (record (write q i (place e (calendar q i))) { qsize = suc q.qsize })
  ]

  abbrev pub is_due : List (Node W P) → W → Bool
  is_due [] top = false
  is_due (e ∷ _) top = d.lt e.priority top

  -- The search of one year from bucket `i` on: the bucket with an event below the top, if there is
  -- one, and the new top. It ends where it comes round to `lastbucket`.
  unfoldable pub look : ℕ → CalQueue W P → ℕ → ℕ → W → Run (Option ℕ × W)
  look zero q lastbucket i top = no_fuel
  look (suc rounds) q lastbucket i top =
      let rest = look rounds q lastbucket (next_bucket i q.nbuckets) (d.add top q.cwidth) in
      if is_due (calendar q i) top
      then done (some i, top)
      else (if next_bucket i q.nbuckets == lastbucket
          then done (none, d.add top q.cwidth)
          else rest)

  -- The direct search, with `n` buckets left from `i` on: `found` is `temp2`.
  unfoldable pub direct : ℕ → CalQueue W P → ℕ → Option ℕ → W → Option ℕ
  direct zero q i found lowest = found
  direct (suc n) q i found lowest = elim (calendar q i) [
    | [] ↦ direct n q (suc i) found lowest
    | e ∷ _ ↦ elim (is_none found || d.lt e.priority lowest) [
      | true ↦ direct n q (suc i) (some i) e.priority
      | false ↦ direct n q (suc i) found lowest
    ]
  ]

  -- The label `calendar_process`, up to the test of the threshold.
  unfoldable pub process : CalQueue W P → ℕ → Run (Node W P × CalQueue W P)
  process q i = elim (calendar q i) [
    | [] ↦ fault
    | e ∷ rest ↦ done (
      e,
      record (write q i rest) { lastbucket = pos i; lastprio = e.priority; qsize = q.qsize - 1 },
    )
  ]

  -- The jump to it, with what the search of a year found.
  unfoldable pub pick : CalQueue W P → Option ℕ → Run (Node W P × CalQueue W P)
  pick q (some i) = process q i
  pick q none = elim (direct q.nbuckets q 0 none (d.of_nat (2 ^ 63))) [
    | none ↦ fault
    | some i ↦ process q i
  ]

  -- calqueue_deq up to the test of the threshold, where the queue is not empty.
  unfoldable pub remove : CalQueue W P → Run (Node W P × CalQueue W P)
  remove q = elim q.lastbucket [
    | negsuc k ↦ negative_index k
    | pos l ↦
        look q.nbuckets q l l q.buckettop >>= λ (hit, top). pick (record q { buckettop = top }) hit
  ]
