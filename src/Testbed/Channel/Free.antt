-- ===== src/Testbed/Channel/Free.antt =====
-- The bit map of the channels in use (libfibers/testbed/src/channel.c and model.h): the search for a
-- free one, and what the bits and the list say of each other.
use fibers.Prelude.{
  ℕ, zero, suc, ◌+◌, ◌≤◌, ◌<◌, ◌≡◌, refl, inl, inr, Bool, true, false, Option, none, some, List, [],
  ◌∷◌, arith, ltb, ◌==◌, if◌then◌else◌, Bool-cases, ℕ_discrete,
}
use fibers.Testbed.Channel.{Channel, check_channel, write_channel, first_free}
use fibers.Testbed.Channel.Ids.{ids, in_use}
use fibers.Testbed.CalQueue.Counts.{one}

-- The channels from `i` on and below `j` are busy.
abbrev pub AllBusy : (ℕ → ℕ → Bool) → ℕ → ℕ → Type 0
AllBusy state i j = (k : ℕ) → i ≤ k → k < j → check_channel state k ≡ true

-- What the search for a free channel from `i` on and below `j` finds.
pub data Searched (state : ℕ → ℕ → Bool) (i j : ℕ) : Option ℕ → Type 0 where
  found :
      (ch : ℕ)
      → i ≤ ch
      → ch < j
      → check_channel state ch ≡ false
      → AllBusy state i ch
      → Searched state i j (some ch)
  full : AllBusy state i j → Searched state i j none

pub first_free-Searched :
    (state : ℕ → ℕ → Bool) (n i : ℕ) → Searched state i (i + n) (first_free state n i)
unfolding first_free
first_free-Searched state zero i = full (λ k low high. absurd (omega (arith, low, high)))
first_free-Searched state (suc n) i = elim (Bool-cases (check_channel state i)) [
  | inl busy ↦ rw busy (later busy (first_free-Searched state n (suc i)))
  | inr free ↦
      rw free
        (found i (omega arith) (omega arith) free (λ k low high. absurd (omega (arith, low, high))))
]
  where
    busy_from : {j : ℕ} → check_channel state i ≡ true → AllBusy state (suc i) j → AllBusy state i j
    busy_from busy h k low high = elim (ℕ_discrete i k) [
      | yes e ↦ rw (← e) busy
      | no e ↦ h k (omega (arith, low, e)) high
    ]

    later :
        {o : Option ℕ}
        → check_channel state i ≡ true
        → Searched state (suc i) (suc i + n) o
        → Searched state i (i + suc n) o
    later busy (found ch low high free before) =
        found ch (omega (arith, low)) (omega (arith, high)) free (busy_from busy before)
    later busy (full h) = full (busy_from busy (λ k low high. h k low (omega (arith, high))))

pub check-write :
    (state : ℕ → ℕ → Bool) (i : ℕ) (b : Bool) (j : ℕ)
    → check_channel (write_channel state i b) j ≡ (if i == j then b else check_channel state j)
check-write state i b j = ground arith

module _ {W : Type 0} where
  ids_below-suc :
      (n : ℕ) (cs : List (Channel W))
      → ids (λ i. ltb i (suc n)) cs ≡ ids (λ i. ltb i n) cs + ids (λ i. i == n) cs
  ids_below-suc n [] = refl
  ids_below-suc n (c ∷ cs) = ground (arith, ids_below-suc n cs)

  ids_below-le : (n : ℕ) (cs : List (Channel W)) → ids (λ i. ltb i n) cs ≤ in_use cs
  ids_below-le n [] = omega arith
  ids_below-le n (c ∷ cs) = ground (arith, ids_below-le n cs)

  -- The list has the channels whose bits are set, each once.
  abbrev pub IsHeld : (ℕ → ℕ → Bool) → ℕ → List (Channel W) → Type 0
  IsHeld state per_cell cs =
      (i : ℕ) → ids (λ j. j == i) cs ≡ (if ltb i per_cell then one (check_channel state i) else 0)

  busy-ids :
      (state : ℕ → ℕ → Bool) (per_cell : ℕ) (cs : List (Channel W)) (n : ℕ)
      → IsHeld state per_cell cs
      → AllBusy state 0 n
      → n ≤ per_cell
      → ids (λ i. ltb i n) cs ≡ n
  busy-ids state per_cell cs zero held busy h = none_below cs
    where
      none_below : (cs : List (Channel W)) → ids (λ i. ltb i 0) cs ≡ 0
      none_below [] = refl
      none_below (c ∷ cs) = ground (arith, none_below cs)
  busy-ids state per_cell cs (suc n) held busy h = ground (
    arith,
    ids_below-suc n cs,
    held n,
    busy n (omega arith) (omega arith),
    busy-ids state per_cell cs n held (λ k low high. busy k low (omega (arith, high)))
        (omega arith),
  )

  -- While the list is shorter than the cell has channels, one is free.
  pub first_free-some :
      (state : ℕ → ℕ → Bool) (per_cell : ℕ) (cs : List (Channel W))
      → IsHeld state per_cell cs
      → in_use cs < per_cell
      → (ch : ℕ) × (first_free state per_cell 0 ≡ some ch)
        × (ch < per_cell)
        × (check_channel state ch ≡ false)
        × AllBusy state 0 ch
  first_free-some state per_cell cs held less =
      split (first_free state per_cell 0) refl (first_free-Searched state per_cell 0)
    where
      split :
          (o : Option ℕ)
          → first_free state per_cell 0 ≡ o
          → Searched state 0 (0 + per_cell) o
          → (ch : ℕ) × (first_free state per_cell 0 ≡ some ch)
            × (ch < per_cell)
            × (check_channel state ch ≡ false)
            × AllBusy state 0 ch
      split o e (found ch low high free before) = (ch, e, omega (arith, high), free, before)
      split o e (full busy) = absurd (
          omega (
            arith,
            less,
            ids_below-le per_cell cs,
            busy-ids state per_cell cs per_cell held
                (λ k low high. busy k low (omega (arith, high))) (omega arith),
          ))
