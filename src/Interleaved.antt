-- ===== src/Interleaved.antt =====
-- fibers/fiber.c: the calls of the tasks of one process, interleaved. A step is one access to a lock, to
-- a state, or to a context, with what the task does by itself around it. A fiber is known by its number,
-- which it gets when it is added to the table; tasks that are added are not in each other's way there.
pub mod Held
pub mod Contexts
pub mod States
pub mod Schedule
use fibers.Prelude.{
  ℕ, zero, suc, ◌+◌, ◌-◌, ◌^◌, ◌≡◌, ◌≢◌, ◌<◌, Bool, true, false, Option, none, some, ℤ, pos, negsuc,
  ltb, ◌==ℤ◌, if◌then◌else◌, update,
}
use fibers.Fiber.{Fiber, Thread, Context, no_fibers}
use fibers.Fiber.Macros.{ulong, alloc_stack, alloc_context, activate_fiber}
use fibers.Group.{new_fiber}
use fibers.Calls.{refused}

-- Where a task is: outside of the calls; in do_convert_thread_to_fiber, with its new fiber; in
-- do_create_fiber, with the new fiber; or in do_switch_to_fiber, with new_f up to the activation, and
-- then with old_f.
pub data At : Type 0 where
  outside : At
  made : ℕ → At
  own_tested : ℕ → At
  own_entered : ℕ → At
  created : ℕ → ℕ → ℕ → ℕ → ℕ → At
  tested : ℕ → At
  entered : ℕ → At
  activated : ℕ → At
  saved : ℕ → At
  stopped : ℕ → At
  unlocked : At

-- A task: whether it has a struct thread, this struct, and its registers.
pub record Task : Type 0 where
  pub at : At
  pub registered : Bool
  pub thread : Thread
  pub regs : Context

-- A process: its fibers from 0 on, and its tasks.
pub record Process : Type 0 where
  pub fid_count : ℕ
  pub fibers : ℕ → Fiber
  pub tasks : ℕ → Task

-- The number that get_fiber finds for `current_fid`.
abbrev pub current : Task → Option ℕ
current t = elim t.thread.current_fid [ pos c ↦ some c | negsuc _ ↦ none ]

-- The writes of a switch to old_f, and of ACTIVATE_FIBER_FROM_THREAD.
unfoldable pub save_context : Context → Fiber → Fiber
save_context regs f = record f { context = regs }

unfoldable pub stop_clock : ℕ → Fiber → Fiber
stop_clock utime f = record f {
  info = record (f.info) {
    total_running_time =
        ulong (f.info.total_running_time + ulong (utime + 2 ^ 64 - f.info.last_activation_time));
    state = pos 0;
  };
}

abbrev pub lock : Fiber → Fiber
lock f = record f { flock = true }

abbrev pub unlock : Fiber → Fiber
unlock f = record f { flock = false }

abbrev pub enter : ℕ → Task → Task
enter new t = record t { thread = record (t.thread) { current_fid = pos new } }

-- The next step of a task in a call, at its user time.
unfoldable pub go_on : ℕ → ℕ → Task → (ℕ → Fiber) → Task × (ℕ → Fiber)
go_on utime fid_count t fibers = elim t.at [
  | outside ↦ (t, fibers)
  | made f ↦
      if (fibers f).flock
      then (record t { at = outside }, update fibers f (refused (fibers f)))
      else (record t { at = own_tested f }, update fibers f (lock (fibers f)))
  | own_tested f ↦
      if (fibers f).info.state ==ℤ pos 0
      then (record t { at = own_entered f }, fibers)
      else (record t { at = outside }, update fibers f (refused (fibers f)))
  | own_entered f ↦ (
    record (enter f t) { at = outside },
    update fibers f (activate_fiber t.thread utime (fibers f)),
  )
  | created f base size entry param ↦ (
    record t { at = outside },
    update fibers f (alloc_context entry param (alloc_stack base size (fibers f))),
  )
  | tested new ↦
      if (fibers new).info.state ==ℤ pos 0
      then (record t { at = entered new }, fibers)
      else (record t { at = outside }, update fibers new (refused (fibers new)))
  | entered new ↦ elim (current t) [
    | none ↦ (record t { at = outside }, fibers)
    | some old ↦
        if ltb old fid_count
        then (
          record (enter new t) { at = activated old },
          update fibers new (activate_fiber t.thread utime (fibers new)),
        )
        else (record t { at = outside }, fibers)
  ]
  | activated old ↦
      (record t { at = saved old }, update fibers old (save_context t.regs (fibers old)))
  | saved old ↦ (record t { at = stopped old }, update fibers old (stop_clock utime (fibers old)))
  | stopped old ↦ (record t { at = unlocked }, update fibers old (unlock (fibers old)))
  | unlocked ↦ elim (current t) [
    | none ↦ (record t { at = outside }, fibers)
    | some new ↦ (record t { at = outside; regs = (fibers new).context }, fibers)
  ]
]

-- spin_trylock of a switch to a fiber that get_fiber has found.
unfoldable pub try_fiber : ℕ → Task → (ℕ → Fiber) → Task × (ℕ → Fiber)
try_fiber new t fibers =
    if (fibers new).flock
    then (t, update fibers new (refused (fibers new)))
    else (record t { at = tested new }, update fibers new (lock (fibers new)))

-- A task and the fibers, after a step of task `tid`.
abbrev pub become : ℕ → Task × (ℕ → Fiber) → Process → Process
become tid (t, fibers) m = record m { fibers = fibers; tasks = update m.tasks tid t }

-- generate_fiber for task `tid`, which goes on as `t`: the block of the new fiber holds any data.
unfoldable pub add_fiber : ℕ → Task → Fiber → Process → Process
add_fiber tid t block m = record {
  fid_count = suc m.fid_count;
  fibers = update m.fibers m.fid_count (new_fiber (pos m.fid_count) t.thread t.regs block);
  tasks = update m.tasks tid t;
}

-- One step of one task: its own code, with any registers after it; the beginning of a call; or the next
-- step of its call.
pub data Step (m : Process) : Process → Type 0 where
  works :
      (tid : ℕ) (regs : Context)
      → (m.tasks tid).at ≡ outside
      → Step m (record m { tasks = update m.tasks tid (record (m.tasks tid) { regs = regs }) })
  converts :
      (tid : ℕ) (block : Fiber)
      → (m.tasks tid).at ≡ outside
      → (m.tasks tid).registered ≡ false
      → Step m (
          add_fiber tid
            (record (m.tasks tid) {
              at = made m.fid_count;
              registered = true;
              thread = record { pid = pos tid; current_fid = no_fibers };
            })
            block
            m)
  creates :
      (tid base size entry param : ℕ) (block : Fiber)
      → (m.tasks tid).at ≡ outside
      → (m.tasks tid).registered ≡ true
      → Step m (
          add_fiber tid
            (record (m.tasks tid) { at = created m.fid_count base size entry param })
            block
            m)
  switches :
      (tid new : ℕ)
      → (m.tasks tid).at ≡ outside
      → (m.tasks tid).registered ≡ true
      → new < m.fid_count
      → Step m (become tid (try_fiber new (m.tasks tid) m.fibers) m)
  goes_on :
      (tid utime : ℕ)
      → (m.tasks tid).at ≢ outside
      → Step m (become tid (go_on utime m.fid_count (m.tasks tid) m.fibers) m)

-- A process that has just opened the device: no fibers, and no task has a struct thread.
pub record IsStart (m : Process) : Type 0 where
  pub none_yet : m.fid_count ≡ 0
  pub at : (tid : ℕ) → (m.tasks tid).at ≡ outside
  pub threads :
      (tid : ℕ)
      → ((m.tasks tid).registered ≡ false) × ((m.tasks tid).thread.current_fid ≡ no_fibers)

pub data Reachable : Process → Type 0 where
  start : {m : Process} → IsStart m → Reachable m
  step : {m m' : Process} → Reachable m → Step m m' → Reachable m'

-- Any steps of any tasks, one after the other.
pub data Steps (m : Process) : Process → Type 0 where
  no_step : Steps m m
  then_step : {m' m'' : Process} → Steps m m' → Step m' m'' → Steps m m''
