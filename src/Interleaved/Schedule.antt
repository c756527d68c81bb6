-- ===== src/Interleaved/Schedule.antt =====
-- Reachable processes by evaluation: the tasks act in a given order.
use fibers.Prelude.{
  ℕ, inl, inr, Bool, true, false, not, ◌&&◌, List, [], ◌∷◌, arith, ltb, if◌then◌else◌, Bool-cases,
  update,
}
use fibers.Fiber.{Fiber, Context, no_fibers}
use fibers.Interleaved.{
  At, outside, made, created, Process, go_on, try_fiber, become, add_fiber, works, converts,
  creates, switches, goes_on, Steps, then_step,
}
use fibers.Prelude.{pos}

-- What a task does next.
pub data Act : Type 0 where
  work : Context → Act
  convert : Fiber → Act
  create : ℕ → ℕ → ℕ → ℕ → Fiber → Act
  switch : ℕ → Act
  go : ℕ → Act

abbrev pub is_outside : At → Bool
is_outside outside = true
is_outside _ = false

-- The act of task `tid`, or no change where it is not possible.
unfoldable pub act : ℕ → Act → Process → Process
act tid (work regs) m =
    if is_outside (m.tasks tid).at
    then record m { tasks = update m.tasks tid (record (m.tasks tid) { regs = regs }) }
    else m
act tid (convert block) m =
    if is_outside (m.tasks tid).at && not (m.tasks tid).registered
    then add_fiber tid
        (record (m.tasks tid) {
          at = made m.fid_count;
          registered = true;
          thread = record { pid = pos tid; current_fid = no_fibers };
        })
        block m
    else m
act tid (create base size entry param block) m =
    if is_outside (m.tasks tid).at && (m.tasks tid).registered
    then add_fiber tid (record (m.tasks tid) { at = created m.fid_count base size entry param })
        block m
    else m
act tid (switch new) m =
    if is_outside (m.tasks tid).at && (m.tasks tid).registered && ltb new m.fid_count
    then become tid (try_fiber new (m.tasks tid) m.fibers) m
    else m
act tid (go utime) m =
    if is_outside (m.tasks tid).at
    then m
    else become tid (go_on utime m.fid_count (m.tasks tid) m.fibers) m

act-Steps : (m m' : Process) (tid : ℕ) (a : Act) → Steps m m' → Steps m (act tid a m')
unfolding act
act-Steps m m' tid (work regs) ss = elim (Bool-cases (is_outside (m'.tasks tid).at)) [
  | inl e ↦ rw e (then_step ss (works tid regs (ground arith)))
  | inr e ↦ rw e ss
]
act-Steps m m' tid (convert block) ss =
    elim (Bool-cases (is_outside (m'.tasks tid).at && not (m'.tasks tid).registered)) [
      | inl e ↦ rw e (then_step ss (converts tid block (ground arith) (ground arith)))
      | inr e ↦ rw e ss
    ]
act-Steps m m' tid (create base size entry param block) ss =
    elim (Bool-cases (is_outside (m'.tasks tid).at && (m'.tasks tid).registered)) [
      | inl e ↦
          rw e
            (then_step ss (creates tid base size entry param block (ground arith) (ground arith)))
      | inr e ↦ rw e ss
    ]
act-Steps m m' tid (switch new) ss =
    elim (Bool-cases
      (is_outside (m'.tasks tid).at && (m'.tasks tid).registered && ltb new m'.fid_count)) [
        | inl e ↦
            rw e (then_step ss (switches tid new (ground arith) (ground arith) (ground arith)))
        | inr e ↦ rw e ss
      ]
act-Steps m m' tid (go utime) ss = elim (Bool-cases (is_outside (m'.tasks tid).at)) [
  | inl e ↦ rw e ss
  | inr e ↦ rw e (then_step ss (goes_on tid utime (λ out. ground (arith, out))))
]

unfoldable pub play : List (ℕ × Act) → Process → Process
play [] m = m
play ((tid, a) ∷ acts) m = play acts (act tid a m)

pub play-Steps : (acts : List (ℕ × Act)) (m m' : Process) → Steps m m' → Steps m (play acts m')
unfolding play
play-Steps [] m m' ss = ss
play-Steps ((tid, a) ∷ acts) m m' ss = play-Steps acts m (act tid a m') (act-Steps m m' tid a ss)
