-- ===== src/Fls/Slots.antt =====
-- The storage operations on one fiber's slots, behind the lookups.
use fibers.Prelude.{ℕ, ◌<◌, ◌≤◌, ◌≡◌, ◌⊎◌, inl, inr, true, false, pos, neg, arith, dec_lt}
use fibers.Kernel.{Kernel}
use fibers.Fiber.{Fls, fls_max_size}
use fibers.Group.{einval}
use fibers.Calls.Fls.{alloc_slot, change_bit}

-- `i` is the lowest free index.
pub record Lowest (s : Fls) (i : ℕ) : Type 0 where
  pub bound : i < fls_max_size
  pub free : s.bmp i ≡ false
  pub least : (j : ℕ) → j < i → s.bmp j ≡ true

-- An allocation takes the lowest free index, or fails where every index is taken.
pub alloc_slot-cases :
    (k : Kernel) (s : Fls)
    → ((i : ℕ) × Lowest s i × (alloc_slot k s ≡ (pos i, record s { bmp = change_bit i s.bmp })))
      ⊎ (((j : ℕ) → j < fls_max_size → s.bmp j ≡ true) × (alloc_slot k s ≡ (neg einval, s)))
unfolding alloc_slot
alloc_slot-cases k s = elim (dec_lt (k.find_first_zero_bit s.bmp fls_max_size) fls_max_size) [
  | yes h ↦ inl (
    k.find_first_zero_bit s.bmp fls_max_size,
    record {
      bound = h;
      free = k.first_zero_clear s.bmp fls_max_size h;
      least = k.first_zero_least s.bmp fls_max_size;
    },
    ground arith,
  )
  | no h ↦ inr (
    λ j b.
        k.first_zero_least s.bmp fls_max_size j (omega (arith, k.first_zero_le s.bmp fls_max_size)),
    ground arith,
  )
]

-- An index freed below which none is free is the next to be allocated.
pub alloc_slot-refill :
    (k : Kernel) (s : Fls) (i : ℕ)
    → i < fls_max_size
    → ((j : ℕ) → j ≤ i → s.bmp j ≡ true)
    → let freed = record s { bmp = change_bit i s.bmp } in
      alloc_slot k freed ≡ (pos i, record s { bmp = change_bit i freed.bmp })
alloc_slot-refill k s i h below =
    elim (alloc_slot-cases k (record s { bmp = change_bit i s.bmp })) [
      | inl (m, low, e) ↦
          let same : m ≡ i = elim (dec_lt m i) [
            | yes lt ↦ absurd (ground (arith, low.free, below m, below i))
            | no ge ↦ elim (dec_lt i m) [
              | yes gt ↦ absurd (ground (arith, low.least i, below i))
              | no le ↦ omega arith
            ]
          ] in
          rw same at e
      | inr (full, e) ↦ absurd (ground (arith, full i h, below i))
    ]
