-- ===== src/Fls/Calls.antt =====
-- The four storage calls, one after the other, as the calling task sees them.
use fibers.Prelude.{
  update, ℕ, ◌<◌, ◌≤◌, ◌≡◌, ◌⊎◌, inl, inr, refl, ap, ◌∙◌, ite, true, ℤ, pos, negsuc, neg, arith,
  ℕ_discrete,
}
use fibers.Kernel.{Kernel}
use fibers.Fiber.{Fiber, Fls, fls_max_size}
use fibers.Group.{Current, World, ret, esrch, einval, eacces}
use fibers.Group.View.{Running}
use fibers.Calls.Fls.{
  alloc_slot, get_slot, free_slot, set_slot, change_bit, in_group, do_fls_alloc, do_fls_get_value,
  do_fls_free, do_fls_set_value,
}
use fibers.Fls.{Stores, in_group-Stores}
use fibers.Fls.Slots.{Lowest, alloc_slot-cases, alloc_slot-refill}

-- The storage of the fiber that the task runs.
abbrev pub storage : {cur : Current} {w : World} → Running cur w → Fls
storage run = run.f.fls

module _ (k : Kernel) (cur : Current) (i : ℕ) where
  pub get_value-in_group :
      (w : World)
      → i < fls_max_size
      → do_fls_get_value k cur (pos i) w ≡ in_group k cur (get_slot i) w
  unfolding do_fls_get_value
  get_value-in_group w h = ground arith

  set_value-in_group :
      (v : ℤ) (w : World)
      → i < fls_max_size
      → do_fls_set_value k cur (pos i) v w ≡ in_group k cur (set_slot i v) w
  unfolding do_fls_set_value
  set_value-in_group v w h = ground arith

  free-in_group :
      (w : World) → i < fls_max_size → do_fls_free k cur (pos i) w ≡ in_group k cur (free_slot i) w
  unfolding do_fls_free
  free-in_group w h = ground arith

abbrev pub OutOfRange : ℤ → Type 0
OutOfRange (pos i) = fls_max_size ≤ i
OutOfRange (negsuc i) = Unit

-- An index outside the array is refused and nothing changes: a read by ESRCH, a write and a free by
-- EINVAL.
pub bad_index :
    (k : Kernel) (cur : Current) (i v : ℤ) (w : World)
    → OutOfRange i
    → (do_fls_get_value k cur i w ≡ ret (neg esrch) w)
      × (do_fls_set_value k cur i v w ≡ ret (neg einval) w)
      × (do_fls_free k cur i w ≡ ret (neg einval) w)
unfolding do_fls_get_value do_fls_set_value do_fls_free
bad_index k cur (pos i) v w h = (ground arith, ground arith, ground arith)
bad_index k cur (negsuc i) v w h = (refl, refl, refl)

-- The first call of a task, and the next one, which finds the storage that the last one left.
pub first_call :
    (k : Kernel) {cur : Current} {w : World} (run : Running cur w) (op : Fls → ℤ × Fls) {r : ℤ}
    {s : Fls}
    → op (storage run) ≡ (r, s)
    → (w' : World) × (in_group k cur op w ≡ ret r w') × Stores cur run s w'
first_call k {cur} run op e =
    let (w', done, st) = in_group-Stores k cur run op in (w', ground arith, rw e at st)

next_call :
    (k : Kernel) {cur : Current} {w w' : World} {run : Running cur w} {s : Fls}
    (st : Stores cur run s w') (op : Fls → ℤ × Fls) {r : ℤ} {s' : Fls}
    → op s ≡ (r, s')
    → (w'' : World) × (in_group k cur op w' ≡ ret r w'') × Stores cur st.running s' w''
next_call k st op e = first_call k st.running op (ap (λ (f : Fiber). op f.fls) st.stored ∙ e)

module _ (k : Kernel) (cur : Current) {w : World} (run : Running cur w) where
  -- For a task that runs a fiber, an allocation returns the lowest free index and marks it, and
  -- changes nothing else; or every index is taken, and it fails and changes nothing.
  pub do_fls_alloc-Lowest :
      ((i : ℕ) × (w' : World) × Lowest (storage run) i
        × (do_fls_alloc k cur w ≡ ret (pos i) w')
        × Stores cur run (record (storage run) { bmp = change_bit i (storage run).bmp }) w')
      ⊎ ((w' : World) × ((i : ℕ) → i < fls_max_size → (storage run).bmp i ≡ true)
          × (do_fls_alloc k cur w ≡ ret (neg einval) w')
          × Stores cur run (storage run) w')
  unfolding do_fls_alloc
  do_fls_alloc-Lowest = elim (alloc_slot-cases k (storage run)) [
    | inl (i, low, e) ↦
        let (w', done, st) = in_group-Stores k cur run (alloc_slot k) in
        inl (i, w', low, ground arith, rw e at st)
    | inr (full, e) ↦
        let (w', done, st) = in_group-Stores k cur run (alloc_slot k) in
        inr (w', full, ground arith, rw e at st)
  ]

  -- A task that runs a fiber writes at an allocated index and then reads at an allocated index: it
  -- gets the value written, if the index is the same, and else what was there before.
  pub do_fls_set_value-get :
      (i j : ℕ) (v : ℤ)
      → i < fls_max_size
      → j < fls_max_size
      → (storage run).bmp i ≡ true
      → (storage run).bmp j ≡ true
      → (w' : World) × (w'' : World) × (do_fls_set_value k cur (pos i) v w ≡ ret (pos i) w')
        × (do_fls_get_value k cur (pos j) w'
            ≡ ret (ite (ℕ_discrete i j) v ((storage run).slots j)) w'')
  unfolding set_slot get_slot
  do_fls_set_value-get i j v hi hj bi bj =
      let (w', sets, st) =
        first_call k run (set_slot i v) {r = pos i}
          {s = record (storage run) { slots = update (storage run).slots i v }} (ground arith) in
      let (w'', gets, _) =
        next_call k st (get_slot j) {r = update (storage run).slots i v j}
          {s' = record (storage run) { slots = update (storage run).slots i v }} (ground arith) in
      (w', w'', set_value-in_group k cur i v w hi ∙ sets, get_value-in_group k cur j w' hj ∙ gets)

  -- A task that runs a fiber frees an index that is allocated: the call succeeds, and after it the
  -- index can be neither read, nor written, nor freed again, each by EACCES.
  pub do_fls_free-again :
      (i : ℕ) (v : ℤ)
      → i < fls_max_size
      → (storage run).bmp i ≡ true
      → (w' : World) × (x : World) × (y : World) × (z : World) × (do_fls_free k cur (pos i) w
          ≡ ret (pos 0) w')
        × (do_fls_get_value k cur (pos i) w' ≡ ret (neg eacces) x)
        × (do_fls_set_value k cur (pos i) v w' ≡ ret (neg eacces) y)
        × (do_fls_free k cur (pos i) w' ≡ ret (neg eacces) z)
  unfolding free_slot set_slot get_slot
  do_fls_free-again i v h b =
      let freed : Fls = record (storage run) { bmp = change_bit i (storage run).bmp } in
      let (w', done, st) = first_call k run (free_slot i) {r = pos 0} {s = freed} (ground arith) in
      let (x, gets, _) = next_call k st (get_slot i) {r = neg eacces} {s' = freed} (ground arith) in
      let (y, sets, _) =
        next_call k st (set_slot i v) {r = neg eacces} {s' = freed} (ground arith) in
      let (z, frees, _) =
        next_call k st (free_slot i) {r = neg eacces} {s' = freed} (ground arith) in
      (
        w',
        x,
        y,
        z,
        free-in_group k cur i w h ∙ done,
        get_value-in_group k cur i w' h ∙ gets,
        set_value-in_group k cur i v w' h ∙ sets,
        free-in_group k cur i w' h ∙ frees,
      )

  -- A task that runs a fiber frees an index, where this and all lower ones are allocated: the next
  -- allocation returns it, and a read then gives the value that it held before.
  pub do_fls_free-alloc :
      (i : ℕ)
      → i < fls_max_size
      → ((j : ℕ) → j ≤ i → (storage run).bmp j ≡ true)
      → (w' : World) × (w'' : World) × (x : World) × (do_fls_free k cur (pos i) w ≡ ret (pos 0) w')
        × (do_fls_alloc k cur w' ≡ ret (pos i) w'')
        × (do_fls_get_value k cur (pos i) w'' ≡ ret ((storage run).slots i) x)
  unfolding free_slot get_slot do_fls_alloc
  do_fls_free-alloc i h below =
      let freed : Fls = record (storage run) { bmp = change_bit i (storage run).bmp } in
      let again : Fls = record (storage run) { bmp = change_bit i freed.bmp } in
      let (w', frees, st) =
        first_call k run (free_slot i) {r = pos 0} {s = freed} (ground (arith, below i)) in
      let (w'', allocs, st') =
        next_call k st (alloc_slot k) {r = pos i} {s' = again}
          (alloc_slot-refill k (storage run) i h below) in
      let (x, gets, _) =
        next_call k st' (get_slot i) {r = (storage run).slots i} {s' = again}
          (ground (arith, below i)) in
      (
        w',
        w'',
        x,
        free-in_group k cur i w h ∙ frees,
        allocs,
        get_value-in_group k cur i w'' h ∙ gets,
      )
