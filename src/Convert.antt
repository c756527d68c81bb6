-- ===== src/Convert.antt =====
-- do_convert_thread_to_fiber and do_create_fiber of fibers/fiber.c: what they do on each branch, in
-- a sound group that has room for one more fiber.
use fibers.Prelude.{
  ℕ, ◌^◌, ◌<◌, ◌≡◌, ◌≢◌, true, none, some, ◌∷◌, ℤ, pos, neg, arith, inl, inr, ◌⊎◌, Option-cases,
}
use fibers.Kernel.{Kernel}
use fibers.Fiber.{Fiber, Thread, ThreadGroup, Context}
use fibers.Fiber.Macros.{alloc_context, alloc_stack}
use fibers.Group.{
  Current, GroupOutcome, done, crash, esrch, eexist, write_fiber, new_fiber, generate_thread,
  generate_fiber,
}
use fibers.Group.Lookup.{thread_at, get_thread-walk}
use fibers.Calls.{try_enter, enter_new, convert_in, create_in, activate}
use fibers.Invariant.{Inv}
use fibers.Invariant.Grow.{grown, int_suc-last_fid}
use fibers.Invariant.Join.{joined, joining}

-- The ways in which a conversion ends, in a group of `n` fibers.
pub data Converts (cur : Current) (ctx : Context) (n : ℕ) (tg : ThreadGroup) (inv : Inv n tg)
    (room : n < 2 ^ 31) (live : cur.pid ≢ pos 0) : GroupOutcome → Type 0 where
  exists :
      (t : Thread)
      → thread_at cur.pid tg ≡ some t
      → Converts cur ctx n tg inv room live (done (neg eexist) tg ctx)
  no_memory :
      (cur.thread_block ≡ none) ⊎ (cur.fiber_block ≡ none)
      → thread_at cur.pid tg ≡ none
      → Converts cur ctx n tg inv room live crash
  converts :
      (block : Fiber) (stranger : thread_at cur.pid tg ≡ none)
      → cur.fiber_block ≡ some block
      → Converts cur ctx n tg inv room live
          (done (pos n) (joined inv room cur block ctx stranger live) ctx)

-- A fresh fiber is free, so it is entered.
enter_new-new_fiber :
    (cur : Current) (ctx : Context) (block : Fiber) (fid : ℤ) (t : Thread) (tg : ThreadGroup)
    → let f = record (new_fiber fid t ctx block) { flock = true } in
      enter_new cur ctx (new_fiber fid t ctx block) t tg
      ≡ done fid (activate cur f t (write_fiber fid (λ _. f) tg)) ctx
unfolding enter_new try_enter new_fiber
enter_new-new_fiber cur ctx block fid t tg = ground arith

module _ (k : Kernel) (cur : Current) (ctx : Context) {n : ℕ} (tg : ThreadGroup) (inv : Inv n tg)
    (room : n < 2 ^ 31) where
  convert_in-exists :
      {t : Thread}
      → thread_at cur.pid tg ≡ some t
      → convert_in k cur ctx tg ≡ done (neg eexist) tg ctx
  unfolding convert_in
  convert_in-exists e = ground (arith, get_thread-walk k cur.pid tg)

  module _ (stranger : thread_at cur.pid tg ≡ none) (live : cur.pid ≢ pos 0) where
    convert_in-no_thread_block : cur.thread_block ≡ none → convert_in k cur ctx tg ≡ crash
    unfolding convert_in generate_thread
    convert_in-no_thread_block e = ground (arith, get_thread-walk k cur.pid tg)

    convert_in-no_fiber_block :
        {b : Thread}
        → cur.thread_block ≡ some b
        → cur.fiber_block ≡ none
        → convert_in k cur ctx tg ≡ crash
    unfolding convert_in generate_thread generate_fiber
    convert_in-no_fiber_block d e = ground (arith, get_thread-walk k cur.pid tg)

    convert_in-joined :
        {b : Thread} {block : Fiber}
        → cur.thread_block ≡ some b
        → cur.fiber_block ≡ some block
        → convert_in k cur ctx tg ≡ done (pos n) (joined inv room cur block ctx stranger live) ctx
    unfolding convert_in generate_thread generate_fiber
    convert_in-joined {block = block} d e = ground (
      arith,
      get_thread-walk k cur.pid tg,
      inv.count,
      int_suc-last_fid n room,
      enter_new-new_fiber cur ctx block (pos n) (joining inv room cur block ctx stranger live) (
          grown block (joining inv room cur block ctx stranger live) ctx
            (record tg { threads = joining inv room cur block ctx stranger live ∷ tg.threads })),
    )

  -- In a sound group of `n` < 2 ^ 31 fibers a conversion by a task whose pid is not 0 ends in one of
  -- three ways: EEXIST and no change, where the task has a thread already; a fault, where it has none
  -- and one of the two allocations fails; or it returns `n`, and the group has a new thread that runs
  -- the new fiber `n`.
  pub convert_in-Converts :
      (live : cur.pid ≢ pos 0) → Converts cur ctx n tg inv room live (convert_in k cur ctx tg)
  convert_in-Converts live = elim (Option-cases (thread_at cur.pid tg)) [
    | inr (t, e) ↦ rw (convert_in-exists e) (exists t e)
    | inl e ↦ elim (Option-cases cur.thread_block) [
      | inl d ↦ rw (convert_in-no_thread_block e live d) (no_memory (inl d) e)
      | inr (b, d) ↦ elim (Option-cases cur.fiber_block) [
        | inl c ↦ rw (convert_in-no_fiber_block e live d c) (no_memory (inr c) e)
        | inr (block, c) ↦ rw (convert_in-joined e live d c) (converts block e c)
      ]
    ]
  ]

-- The ways in which a creation ends.
pub data Creates (base size entry param : ℕ) (cur : Current) (ctx : Context) (n : ℕ)
    (tg : ThreadGroup) : GroupOutcome → Type 0 where
  no_thread :
      thread_at cur.pid tg ≡ none
      → Creates base size entry param cur ctx n tg (done (neg esrch) tg ctx)
  no_memory :
      (t : Thread)
      → thread_at cur.pid tg ≡ some t
      → cur.fiber_block ≡ none
      → Creates base size entry param cur ctx n tg crash
  creates :
      (t : Thread) (block : Fiber)
      → thread_at cur.pid tg ≡ some t
      → cur.fiber_block ≡ some block
      → Creates base size entry param cur ctx n tg (
          done
            (pos n)
            (write_fiber
              (pos n)
              (λ f. alloc_context entry param (alloc_stack base size f))
              (grown block t ctx tg))
            ctx)

module _ (base size entry param : ℕ) (k : Kernel) (cur : Current) (ctx : Context)
    (tg : ThreadGroup) where
  create_in-no_thread :
      thread_at cur.pid tg ≡ none
      → create_in k cur base size entry param ctx tg ≡ done (neg esrch) tg ctx
  unfolding create_in
  create_in-no_thread e = ground (arith, get_thread-walk k cur.pid tg)

  module _ {t : Thread} (e : thread_at cur.pid tg ≡ some t) where
    create_in-no_memory :
        cur.fiber_block ≡ none → create_in k cur base size entry param ctx tg ≡ crash
    unfolding create_in generate_fiber
    create_in-no_memory d = ground (arith, get_thread-walk k cur.pid tg)

    create_in-grown :
        {block : Fiber} {n : ℕ} (inv : Inv n tg) (room : n < 2 ^ 31)
        → cur.fiber_block ≡ some block
        → create_in k cur base size entry param ctx tg
          ≡ done
              (pos n)
              (write_fiber
                (pos n)
                (λ f. alloc_context entry param (alloc_stack base size f))
                (grown block t ctx tg))
              ctx
    unfolding create_in generate_fiber new_fiber
    create_in-grown {n = n} inv room d =
        ground (arith, get_thread-walk k cur.pid tg, inv.count, int_suc-last_fid n room)

  -- In a sound group of `n` < 2 ^ 31 fibers a creation ends in one of three ways: ESRCH and no
  -- change, where the task has no thread; a fault, where it has one and the allocation fails; or it
  -- returns `n`, and the group has a new fiber `n` with the stack and the entry point of the call.
  pub create_in-Creates :
      {n : ℕ}
      → Inv n tg
      → n < 2 ^ 31
      → Creates base size entry param cur ctx n tg (create_in k cur base size entry param ctx tg)
  create_in-Creates inv room = elim (Option-cases (thread_at cur.pid tg)) [
    | inl e ↦ rw (create_in-no_thread e) (no_thread e)
    | inr (t, e) ↦ elim (Option-cases cur.fiber_block) [
      | inl d ↦ rw (create_in-no_memory e d) (no_memory t e d)
      | inr (block, d) ↦ rw (create_in-grown e inv room d) (creates t block e d)
    ]
  ]
