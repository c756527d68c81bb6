-- ===== src/Fiberlib/Storage.antt =====
-- What a program sees of its fiber's storage through libfibers/fiberlib.c.
use fibers.Prelude.{
  ℕ, ◌<◌, ◌≡◌, ◌⊎◌, ◌∙◌, inl, inr, ite, true, false, ℤ, pos, neg, arith, ℕ_discrete,
}
use fibers.Kernel.{Kernel}
use fibers.Fiber.{fls_max_size}
use fibers.Group.{Current, World, ret, esrch, eacces}
use fibers.Group.View.{Running}
use fibers.Calls.Fls.{get_slot, do_fls_get_value, do_fls_set_value}
use fibers.Device.{fibers_ioctl}
use fibers.Fiberlib.{returned, fls_get_value, fls_set_value}
use fibers.Fls.Calls.{
  storage, do_fls_set_value-get, first_call, get_value-in_group, bad_index, OutOfRange,
}

-- Why the kernel refuses to read index `i`, and with which errno.
abbrev Refusal : {cur : Current} {w : World} → Running cur w → ℤ → ℕ → Type 0
Refusal run i r =
    ((n : ℕ) × (i ≡ pos n) × (n < fls_max_size) × ((storage run).bmp n ≡ false) × (r ≡ eacces))
    ⊎ (OutOfRange i × (r ≡ esrch))

module _ (k : Kernel) (cur : Current) (args read_value : ℕ) where
  -- What the library's read returns is what the kernel's call returns, an error or a value.
  fls_get_value-ret :
      (i r : ℤ) (w w' : World)
      → do_fls_get_value k cur i w ≡ ret r w'
      → fls_get_value k cur args read_value i w ≡ returned r w'
  unfolding fls_get_value fibers_ioctl
  fls_get_value-ret i r w w' e = ground arith

  fls_set_value-ret :
      (i n : ℕ) (v : ℤ) (w w' : World)
      → do_fls_set_value k cur (pos i) v w ≡ ret (pos n) w'
      → fls_set_value k cur args (pos i) v w ≡ returned (pos n) w'
  unfolding fls_set_value fibers_ioctl
  fls_set_value-ret i n v w w' e = ground arith

  -- A program whose thread runs a fiber writes through the library at an allocated index and then
  -- reads at an allocated index: it gets what it wrote, if the index is the same, and else what was
  -- there before.
  pub fls_set_value-get :
      {w : World} (run : Running cur w) (i j : ℕ) (v : ℤ)
      → i < fls_max_size
      → j < fls_max_size
      → (storage run).bmp i ≡ true
      → (storage run).bmp j ≡ true
      → (w' : World) × (w'' : World) × (fls_set_value k cur args (pos i) v w ≡ returned (pos i) w')
        × (fls_get_value k cur args read_value (pos j) w'
            ≡ returned (ite (ℕ_discrete i j) v ((storage run).slots j)) w'')
  fls_set_value-get {w} run i j v hi hj bi bj =
      let (w', w'', sets, gets) = do_fls_set_value-get k cur run i j v hi hj bi bj in
      (w', w'', fls_set_value-ret i i v w w' sets, fls_get_value-ret (pos j) _ w' w'' gets)

  -- For a program whose thread runs a fiber, a read through the library returns -13 at an index in
  -- range that is not allocated, and -3 at one outside the array.
  pub fls_get_value-Refusal :
      {w : World} (run : Running cur w) (i : ℤ) (r : ℕ)
      → Refusal run i r
      → (w' : World) × (fls_get_value k cur args read_value i w ≡ returned (neg r) w')
  unfolding get_slot
  fls_get_value-Refusal {w} run i r (inl (n, at, bound, free, e)) =
      let (w', gets, _) =
        first_call k run (get_slot n) {r = neg eacces} {s = storage run} (ground arith) in
      (
        w',
        rw (at, e)
            (fls_get_value-ret (pos n) (neg eacces) w w'
              (get_value-in_group k cur n w bound ∙ gets)),
      )
  fls_get_value-Refusal {w} run i r (inr (out, e)) =
      (w, rw e (fls_get_value-ret i (neg esrch) w w (bad_index k cur i (pos 0) w out).0))
