-- ===== src/Calls/Fls.antt =====
-- fibers/fiber.c: the calls on the local storage of the fiber that the calling thread runs.
use fibers.Prelude.{
  update, ℕ, Bool, not, Option, none, some, ℤ, pos, negsuc, neg, ltb, if◌then◌else◌,
}
use fibers.Kernel.{Kernel}
use fibers.Fiber.{Fiber, Fls, ThreadGroup, Context, fls_max_size}
use fibers.Group.{
  esrch, eacces, einval, Current, World, Outcome, ret, GroupOutcome, done, get_group, get_thread,
  get_fiber, write_fiber,
}
use fibers.Calls.{finish}

-- `index < 0 || index >= FLS_MAX_SIZE` fails, or the index as a number.
abbrev pub checked : ℤ → Option ℕ
checked (pos n) = if ltb n fls_max_size then some n else none
checked (negsuc n) = none

-- `change_bit`
abbrev pub change_bit : ℕ → (ℕ → Bool) → ℕ → Bool
change_bit i bmp = update bmp i (not (bmp i))

-- What a call does to the storage of the running fiber, behind the lookups.
unfoldable pub alloc_slot : Kernel → Fls → ℤ × Fls
alloc_slot k s =
    let idx = k.find_first_zero_bit s.bmp fls_max_size in
    if ltb idx fls_max_size
    then (pos idx, record s { bmp = change_bit idx s.bmp })
    else (neg einval, s)

unfoldable pub get_slot : ℕ → Fls → ℤ × Fls
get_slot i s = if s.bmp i then (s.slots i, s) else (neg eacces, s)

unfoldable pub free_slot : ℕ → Fls → ℤ × Fls
free_slot i s = if s.bmp i then (pos 0, record s { bmp = change_bit i s.bmp }) else (neg eacces, s)

unfoldable pub set_slot : ℕ → ℤ → Fls → ℤ × Fls
set_slot i value s =
    if s.bmp i then (pos i, record s { slots = update s.slots i value }) else (neg eacces, s)

module _ (k : Kernel) where
  -- The lookups of thread and fiber that the four calls share.
  unfoldable pub current_fiber : ℤ → ThreadGroup → Option Fiber
  current_fiber pid tg = elim (get_thread k pid tg) [
    | none ↦ none
    | some t ↦ get_fiber k t.current_fid tg
  ]

  unfoldable pub on_current : Current → (Fls → ℤ × Fls) → Context → ThreadGroup → GroupOutcome
  on_current cur op ctx tg = elim (current_fiber cur.pid tg) [
    | none ↦ done (neg esrch) tg ctx
    | some f ↦ done (op f.fls).0 (write_fiber f.fid (λ g. record g { fls = (op f.fls).1 }) tg) ctx
  ]

  unfoldable pub in_group : Current → (Fls → ℤ × Fls) → World → Outcome
  in_group cur op w = elim (get_group k cur.tgid w.groups) [
    | none ↦ ret (neg esrch) w
    | some tg ↦ finish cur w (on_current cur op (w.cpu cur.pid) tg)
  ]

  unfoldable pub do_fls_alloc : Current → World → Outcome
  do_fls_alloc cur w = in_group cur (alloc_slot k) w

  unfoldable pub do_fls_get_value : Current → ℤ → World → Outcome
  do_fls_get_value cur index w = elim (checked index) [
    | none ↦ ret (neg esrch) w
    | some i ↦ in_group cur (get_slot i) w
  ]

  unfoldable pub do_fls_free : Current → ℤ → World → Outcome
  do_fls_free cur index w = elim (checked index) [
    | none ↦ ret (neg einval) w
    | some i ↦ in_group cur (free_slot i) w
  ]

  unfoldable pub do_fls_set_value : Current → ℤ → ℤ → World → Outcome
  do_fls_set_value cur index value w = elim (checked index) [
    | none ↦ ret (neg einval) w
    | some i ↦ in_group cur (set_slot i value) w
  ]
