-- ===== src/Testbed/Ult/Stack.antt =====
-- libfibers/testbed/src/ult.c: the stack of a new ult. Its address is left out: a stack is the number of
-- its bytes that are cleared, and the number of those that are allocated. What getpagesize returns and
-- SIGSTKSZ are arguments.
use fibers.Prelude.{
  ℕ, ◌+◌, ◌-◌, ◌*◌, ◌%◌, ◌^◌, ◌≤◌, ◌<◌, ◌≡◌, ◌⊎◌, inl, inr, arith, ltb, ◌==◌, if◌then◌else◌,
  Bool-cases,
}
use fibers.Fiber.Macros.{ulong}

abbrev pub stack_size : ℕ
stack_size = 4096 * 2

-- The size after `if (size <= 0)`, and then up to the next page.
abbrev pub requested : ℕ → ℕ → ℕ
requested sigstksz size = if size == 0 then sigstksz else size

unfoldable pub aligned : ℕ → ℕ → ℕ
aligned getpagesize size =
    let reminder = size % getpagesize in
    if reminder == 0 then size else ulong (size + (getpagesize - reminder))

unfoldable pub get_ult_stack : ℕ → ℕ → ℕ → ℕ × ℕ
get_ult_stack getpagesize sigstksz size =
    (aligned getpagesize (requested sigstksz size), stack_size)

module _ (size : ℕ) (small : size ≤ 2 ^ 64 - 4096) where
  aligned-bounds :
      (size ≤ aligned 4096 size)
      × (aligned 4096 size < size + 4096)
      × (aligned 4096 size % 4096 ≡ 0)
  unfolding aligned
  aligned-bounds = elim (Bool-cases (size % 4096 == 0)) [
    | inl e ↦ rw (aligned, e) (ground arith)
    | inr e ↦ rw (aligned, e) (ground (arith, small))
  ]

-- Where pages have 4096 bytes, and the size, or SIGSTKSZ for a size of 0, is at most 2 ^ 64 - 4096:
-- get_ult_stack clears at least as many bytes as the size, and no more than it allocates, where the size
-- is at most STACK_SIZE; and it clears more than it allocates where the size is larger.
pub get_ult_stack-overrun :
    (getpagesize sigstksz size : ℕ)
    → getpagesize ≡ 4096
    → requested sigstksz size ≤ 2 ^ 64 - 4096
    → ((requested sigstksz size ≤ stack_size)
        × (requested sigstksz size ≤ (get_ult_stack getpagesize sigstksz size).0)
        × ((get_ult_stack getpagesize sigstksz size).0
            ≤ (get_ult_stack getpagesize sigstksz size).1))
      ⊎ ((stack_size < requested sigstksz size)
          × ((get_ult_stack getpagesize sigstksz size).1
              < (get_ult_stack getpagesize sigstksz size).0))
unfolding get_ult_stack
get_ult_stack-overrun getpagesize sigstksz size page small = rw page (
    let bounds = aligned-bounds (requested sigstksz size) small in
    elim (Bool-cases (ltb stack_size (requested sigstksz size))) [
      | inl e ↦
          let big : stack_size < requested sigstksz size = ground (arith, e) in
          inr (big, omega (arith, bounds.0, big))
      | inr e ↦
          let fits : requested sigstksz size ≤ stack_size = ground (arith, e) in
          inl (fits, bounds.0, omega (arith, bounds.1, bounds.2, fits))
    ])
