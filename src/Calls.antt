-- ===== src/Calls.antt =====
-- fibers/fiber.c: the calls that make fibers and switch between them. The part of a call that runs
-- inside one group is a function of its own, named `_in`.
pub mod Fls
pub mod Cleanup
use fibers.Prelude.{
  ℕ, ◌+◌, ◌-◌, ◌^◌, ◌∷◌, Bool, true, false, Option, none, some, ℤ, pos, neg, int_suc, ite,
  ℤ_discrete, ◌==ℤ◌, if◌then◌else◌,
}
use fibers.Table.{walk}
use fibers.Kernel.{Kernel}
use fibers.Fiber.{Fiber, Thread, ThreadGroup, Context}
use fibers.Fiber.Macros.{ulong, alloc_stack, alloc_context, activate_fiber, activate_thread}
use fibers.Group.{
  esrch, eagain, eexist, Current, World, Outcome, ret, oops, GroupOutcome, done, crash, valid,
  err_ptr, get_group, get_thread, get_fiber, generate_group, generate_thread, generate_fiber,
  write_fiber, write_thread, write_group,
}

-- `atomic_inc(&f->info.failed_activations)`
unfoldable pub refused : Fiber → Fiber
refused f = record f {
  info = record (f.info) { failed_activations = int_suc f.info.failed_activations };
}

-- `!spin_trylock(...) || atomic_read(...) != 0` with what it leaves behind: the fiber after the test,
-- and whether it may be entered. A lock that is taken is not given back where the state is not 0.
unfoldable pub try_enter : Fiber → Fiber × Bool
try_enter f =
    if f.flock
    then (refused f, false)
    else (if f.info.state ==ℤ pos 0
        then (record f { flock = true }, true)
        else (refused (record f { flock = true }), false))

-- ACTIVATE_FIBER_FROM_THREAD through the two pointers
unfoldable pub activate : Current → Fiber → Thread → ThreadGroup → ThreadGroup
activate cur f t tg =
    write_thread t.pid (activate_thread f.fid) (write_fiber f.fid (activate_fiber t cur.utime) tg)

-- After the call of a group's part: the group and the registers are written back.
unfoldable pub finish : Current → World → GroupOutcome → Outcome
finish cur w (done r tg ctx) = ret r (record {
  groups = write_group tg w.groups;
  cpu = λ p. ite (ℤ_discrete p cur.pid) ctx (w.cpu p);
})
finish cur w crash = oops

-- What the switch writes to the fiber that it leaves: the registers, the time that it ran, and that
-- it is free.
unfoldable pub leave_fiber : Current → Context → Fiber → Fiber
leave_fiber cur ctx f = record f {
  context = ctx;
  flock = false;
  info = record (f.info) {
    total_running_time =
        ulong
          (f.info.total_running_time + ulong (cur.utime + 2 ^ 64 - f.info.last_activation_time));
    state = pos 0;
  };
}

-- The writes of a switch, in their order: the new fiber is activated, then the old one is left.
unfoldable pub hand_over : Current → Context → Fiber → Fiber → Thread → ThreadGroup → ThreadGroup
hand_over cur ctx old_f new_f t tg =
    write_fiber old_f.fid (leave_fiber cur ctx) (activate cur new_f t tg)

-- The second half of do_switch_to_fiber, behind all its checks.
unfoldable pub exchange : Current → Context → Fiber → Fiber → Thread → ThreadGroup → GroupOutcome
exchange cur ctx old_f new_f t tg =
    let tg' = hand_over cur ctx old_f new_f t tg in
    elim (walk Fiber.fid new_f.fid tg'.fibers) [
      | none ↦ crash
      | some f ↦ done (pos 0) tg' f.context
    ]

-- The end of do_convert_thread_to_fiber: the new fiber is entered by its thread.
unfoldable pub enter_new : Current → Context → Fiber → Thread → ThreadGroup → GroupOutcome
enter_new cur ctx f t tg =
    let tested = (try_enter f).0 in
    let tg' = write_fiber f.fid (λ _. tested) tg in
    if (try_enter f).1
    then done f.fid (activate cur tested t tg') ctx
    else done (neg eagain) tg' ctx

module _ (k : Kernel) where
  unfoldable pub convert_in : Current → Context → ThreadGroup → GroupOutcome
  convert_in cur ctx tg = elim (get_thread k cur.pid tg) [
    | some t ↦ done (neg eexist) tg ctx
    | none ↦ elim (generate_thread cur.thread_block tg cur.pid) [
      | err_ptr e ↦ crash
      | valid (t, tg₁) ↦ elim (generate_fiber cur.fiber_block tg₁ t ctx) [
        | err_ptr e ↦ crash
        | valid (f, tg₂) ↦ enter_new cur ctx f t tg₂
      ]
    ]
  ]

  unfoldable pub do_convert_thread_to_fiber : Current → World → Outcome
  do_convert_thread_to_fiber cur w = elim (get_group k cur.tgid w.groups) [
    | some tg ↦ finish cur w (convert_in cur (w.cpu cur.pid) tg)
    | none ↦ elim (generate_group cur.group_block cur.tgid w.groups) [
      | err_ptr e ↦ oops
      | valid (tg, groups) ↦
          finish cur (record w { groups = groups }) (convert_in cur (w.cpu cur.pid) tg)
    ]
  ]

  -- The arguments of do_create_fiber behind the task: `fib_args_t`.
  unfoldable pub create_in : Current → ℕ → ℕ → ℕ → ℕ → Context → ThreadGroup → GroupOutcome
  create_in cur stack_base stack_size entry_point param ctx tg = elim (get_thread k cur.pid tg) [
    | none ↦ done (neg esrch) tg ctx
    | some t ↦ elim (generate_fiber cur.fiber_block tg t ctx) [
      | err_ptr e ↦ crash
      | valid (f, tg₁) ↦
          done f.fid
            (write_fiber f.fid
              (λ g. alloc_context entry_point param (alloc_stack stack_base stack_size g)) tg₁)
            ctx
    ]
  ]

  unfoldable pub do_create_fiber : Current → ℕ → ℕ → ℕ → ℕ → World → Outcome
  do_create_fiber cur stack_base stack_size entry_point param w =
      elim (get_group k cur.tgid w.groups) [
        | none ↦ ret (neg esrch) w
        | some tg ↦
            finish cur w (create_in cur stack_base stack_size entry_point param (w.cpu cur.pid) tg)
      ]

  unfoldable pub switch_in : Current → ℤ → Context → ThreadGroup → GroupOutcome
  switch_in cur next_fiber ctx tg = elim (get_thread k cur.pid tg) [
    | none ↦ done (neg esrch) tg ctx
    | some t ↦ elim (get_fiber k next_fiber tg) [
      | none ↦ done (neg esrch) tg ctx
      | some new_f ↦
          let tested = (try_enter new_f).0 in
          let tg₁ = write_fiber new_f.fid (λ _. tested) tg in
          if (try_enter new_f).1
          then (elim (get_fiber k t.current_fid tg₁) [
            | none ↦ done (neg esrch) tg₁ ctx
            | some old_f ↦ exchange cur ctx old_f tested t tg₁
          ])
          else done (neg eagain) tg₁ ctx
    ]
  ]

  unfoldable pub do_switch_to_fiber : Current → ℤ → World → Outcome
  do_switch_to_fiber cur next_fiber w = elim (get_group k cur.tgid w.groups) [
    | none ↦ ret (neg esrch) w
    | some tg ↦ finish cur w (switch_in cur next_fiber (w.cpu cur.pid) tg)
  ]
