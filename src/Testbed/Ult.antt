-- ===== src/Testbed/Ult.antt =====
-- libfibers/testbed/src/ult.c and ult.h: fibers that a program's threads switch between by themselves.
-- The threads interleave at each read or write of shared memory. An ult is known by its number.
pub mod Exclusive
pub mod Contexts
pub mod Storage
pub mod Stack
pub mod Jump
use fibers.Prelude.{
  ℕ, zero, suc, ◌≡◌, ◌≢◌, ◌<◌, Bool, true, false, not, Option, none, some, ℤ, pos, negsuc, ltb,
  if◌then◌else◌, update,
}

-- `ult_t`: its lock and its saved registers.
pub record Ult (R : Type 0) : Type 0 where
  pub running : Bool
  pub context : R

-- Where a thread is in ult_switch_to, or in ult_creat from the lock of the new ult on, and the ult
-- that it still needs there besides `current`: the one it leaves, or the new one.
pub data At : Type 0 where
  outside : At
  made : ℕ → At
  stored : ℕ → At
  boot : ℕ → At
  relocked : ℕ → At
  booted : ℕ → At
  locked : ℕ → ℕ → At
  moved : ℕ → At
  saved : ℕ → At
  unlocked : At
  -- The set_jmp of a switch that was left before has returned 0, as if for the first time.
  twice : At

-- Whether the lower half of the rax among these registers is 0: long_jmp gives it to set_jmp as result.
pub record Registers (R : Type 0) : Type 0 where
  pub is_zero : R → Bool

-- A thread, with its `current`.
pub record Thread (R : Type 0) : Type 0 where
  pub at : At
  pub current : Option ℕ
  pub regs : R

pub record Program (R : Type 0) : Type 0 where
  pub ults : ℕ → Ult R
  pub threads : ℕ → Thread R
  pub ult_id : ℕ

module _ {R : Type 0} where
  unfoldable pub ult_trylock : (ℕ → Ult R) → ℕ → Bool × (ℕ → Ult R)
  ult_trylock ults u = (not (ults u).running, update ults u (record (ults u) { running = true }))

  unfoldable pub ult_unlock : (ℕ → Ult R) → ℕ → ℕ → Ult R
  ult_unlock ults u = update ults u (record (ults u) { running = false })

  -- A new ult, locked, with the registers of its thread. Nobody else knows it yet.
  unfoldable pub ult_convert : ℕ → Program R → Program R
  ult_convert tid m = record {
    ults = update m.ults m.ult_id (record { running = true; context = (m.threads tid).regs });
    threads = update m.threads tid (record (m.threads tid) { current = some m.ult_id });
    ult_id = suc m.ult_id;
  }

  -- ult_creat up to the ult_lock of context_switch_create: a new ult, whose registers are those that
  -- its boot code begins with.
  unfoldable pub ult_creat : ℕ → R → Program R → Program R
  ult_creat tid boot_regs m = record {
    ults = update m.ults m.ult_id (record { running = true; context = boot_regs });
    threads = update m.threads tid (record (m.threads tid) { at = made m.ult_id });
    ult_id = suc m.ult_id;
  }

  -- set_jmp in the context of `u`, and long_jmp to it.
  abbrev pub set_jmp : (ℕ → Ult R) → ℕ → R → ℕ → Ult R
  set_jmp ults u regs = update ults u (record (ults u) { context = regs })

  abbrev pub long_jmp : Thread R → (ℕ → Ult R) → ℕ → Thread R
  long_jmp t ults u = record t { regs = (ults u).context }

  -- The beginning of ult_switch_to, up to the lock.
  unfoldable pub ult_switch_to : ℕ → ℕ → Thread R → (ℕ → Ult R) → Thread R × (ℕ → Ult R)
  ult_switch_to from to t ults =
      let (free, ults') = ult_trylock ults to in
      (if free then record t { at = locked from to } else t, ults')

module _ {R : Type 0} ⦃x : Registers R⦄ where
  -- Where a thread is when it has jumped to these registers: behind context_switch, or in its branch for
  -- the first return, where what it does then is not followed.
  abbrev pub landing : R → At
  landing regs = if x.is_zero regs then twice else outside

  -- The next step of a thread with this `current`: in ult_switch_to, `current = to` and context_switch,
  -- with its set_jmp, its ult_unlock and its long_jmp; in ult_creat the rest of context_switch_create,
  -- and context_create_boot with its ult_lock, which waits, and its context_switch back.
  unfoldable pub go_on : Thread R → ℕ → (ℕ → Ult R) → Thread R × (ℕ → Ult R)
  go_on t current ults = elim t.at [
    | outside ↦ (t, ults)
    | locked from to ↦ (record t { at = moved from; current = some to }, ults)
    | moved from ↦ (record t { at = saved from }, set_jmp ults from t.regs)
    | saved from ↦ (record t { at = unlocked }, ult_unlock ults from)
    | made u ↦ (record t { at = stored u }, set_jmp ults current t.regs)
    | stored u ↦ (record (long_jmp t ults u) { at = boot u }, ult_unlock ults current)
    | boot u ↦
        let (free, ults') = ult_trylock ults current in
        (record t { at = if free then relocked u else boot u }, ults')
    | relocked u ↦ (record t { at = booted u }, set_jmp ults u t.regs)
    | booted u ↦ (record t { at = unlocked }, ult_unlock ults u)
    | unlocked ↦ (record (long_jmp t ults current) { at = landing (ults current).context }, ults)
    | twice ↦ (t, ults)
  ]

  -- A thread and the ults, after a step of thread `tid`.
  abbrev pub become : ℕ → Thread R × (ℕ → Ult R) → Program R → Program R
  become tid (t, ults) m = record m { ults = ults; threads = update m.threads tid t }

  -- One step of one thread: its own code, which may do anything to its registers; ult_convert, once; a
  -- call of ult_creat, or of ult_switch_to with an ult that exists; or the next step of such a call.
  pub data Step (m : Program R) : Program R → Type 0 where
    works :
        (tid : ℕ) (r : R)
        → (m.threads tid).at ≡ outside
        → Step m (record m { threads = update m.threads tid (record (m.threads tid) { regs = r }) })
    converts :
        (tid : ℕ)
        → (m.threads tid).at ≡ outside
        → (m.threads tid).current ≡ none
        → Step m (ult_convert tid m)
    creates :
        (tid from : ℕ) (boot_regs : R)
        → (m.threads tid).at ≡ outside
        → (m.threads tid).current ≡ some from
        → Step m (ult_creat tid boot_regs m)
    calls :
        (tid from to : ℕ)
        → (m.threads tid).at ≡ outside
        → (m.threads tid).current ≡ some from
        → to < m.ult_id
        → Step m (become tid (ult_switch_to from to (m.threads tid) m.ults) m)
    goes_on :
        (tid current : ℕ)
        → (m.threads tid).at ≢ outside
        → (m.threads tid).current ≡ some current
        → Step m (become tid (go_on (m.threads tid) current m.ults) m)

  -- The beginning: no thread has an ult.
  pub record IsStart (m : Program R) : Type 0 where
    pub at : (tid : ℕ) → (m.threads tid).at ≡ outside
    pub current : (tid : ℕ) → (m.threads tid).current ≡ none

  -- The programs that any steps of any threads can reach.
  pub data Reachable : Program R → Type 0 where
    start : {m : Program R} → IsStart m → Reachable m
    step : {m m' : Program R} → Reachable m → Step m m' → Reachable m'

  -- Any steps of any threads, one after the other.
  pub data Steps (m : Program R) : Program R → Type 0 where
    no_step : Steps m m
    then_step : {m' m'' : Program R} → Steps m m' → Step m' m'' → Steps m m''
