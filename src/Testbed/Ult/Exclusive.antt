-- ===== src/Testbed/Ult/Exclusive.antt =====
-- The locks of libfibers/testbed/src/ult.c: a thread that runs an ult, or switches from or to it, has it
-- alone.
use fibers.Prelude.{
  ℕ, suc, ◌≡◌, ◌≢◌, ◌<◌, ◌⊎◌, inl, Bool, true, false, ◌&&◌, ◌||◌, Option, none, some, arith, ltb,
  ◌==◌,
}
use fibers.Locking.{IsExclusive, move-IsExclusive}
use fibers.Testbed.Ult.{
  Ult, At, outside, made, stored, boot, relocked, booted, locked, moved, saved, unlocked, twice,
  Thread, Registers, Program, ult_trylock, ult_unlock, ult_convert, ult_creat, ult_switch_to, go_on,
  Step, works, converts, creates, calls, goes_on, Reachable, start, step,
}

abbrev pub is_current : Option ℕ → ℕ → Bool
is_current none u = false
is_current (some c) u = c == u

-- The thread has the lock of `u`; behind the unlock of a switch it no longer has that of the ult that it
-- leaves, though it is still on its stack.
abbrev pub holds : At → Option ℕ → ℕ → Bool
holds outside current u = is_current current u
holds (locked from to) current u = is_current current u || to == u
holds (moved from) current u = is_current current u || from == u
holds (saved from) current u = is_current current u || from == u
holds (made v) current u = is_current current u || v == u
holds (stored v) current u = is_current current u || v == u
holds (boot v) current u = v == u
holds (relocked v) current u = is_current current u || v == u
holds (booted v) current u = is_current current u || v == u
holds unlocked current u = is_current current u
holds twice current u = is_current current u

-- A switch is between two ults, and from the current one.
abbrev pub IsSwitch : At → Option ℕ → Type 0
IsSwitch outside current = Unit
IsSwitch (locked from to) current = (from ≢ to) × (current ≡ some from)
IsSwitch (moved from) current = is_current current from ≡ false
IsSwitch (saved from) current = is_current current from ≡ false
IsSwitch (made v) current = is_current current v ≡ false
IsSwitch (stored v) current = is_current current v ≡ false
IsSwitch (boot v) current = is_current current v ≡ false
IsSwitch (relocked v) current = is_current current v ≡ false
IsSwitch (booted v) current = is_current current v ≡ false
IsSwitch unlocked current = Unit
IsSwitch twice current = Unit

pub record IsThread {R : Type 0} (n : ℕ) (t : Thread R) : Type 0 where
  pub switch : IsSwitch t.at t.current
  pub known : (c : ℕ) → t.current ≡ some c → c < n

module _ {R : Type 0} ⦃x : Registers R⦄ where
  abbrev pub has : Thread R → ℕ → Bool
  has t u = holds t.at t.current u

  -- The lock of an ult that is there.
  abbrev pub taken : ℕ → (ℕ → Ult R) → ℕ → Bool
  taken n ults u = ltb u n && (ults u).running

  module _ (n : ℕ) (t : Thread R) (current : ℕ) (ults : ℕ → Ult R)
      (at : t.current ≡ some current) where
    go_on-takes :
        IsThread n t
        → (u : ℕ) → has (go_on t current ults).0 u ≡ true
        → (has t u ≡ true) ⊎ (taken n ults u ≡ false)
    unfolding go_on ult_trylock
    go_on-takes k u p = ground (arith, at, k.switch)

    go_on-keeps :
        (u : ℕ)
        → taken n ults u ≡ true
        → has t u ≡ false
        → taken n (go_on t current ults).1 u ≡ true
    unfolding go_on ult_trylock ult_unlock
    go_on-keeps u p q = ground (arith, at)

    module _ (k : IsThread n t) (h : (u : ℕ) → has t u ≡ true → taken n ults u ≡ true) where
      go_on-held :
          (u : ℕ)
          → has (go_on t current ults).0 u ≡ true
          → taken n (go_on t current ults).1 u ≡ true
      unfolding go_on ult_trylock ult_unlock
      go_on-held u p = ground (arith, at, k.switch, k.known current at, h u)

      go_on-IsThread : IsThread n (go_on t current ults).0
      unfolding go_on ult_trylock
      go_on-IsThread = record {
        switch = ground (arith, at, k.switch);
        known = λ c p. ground (arith, at, k.known c, h c);
      }

  -- Every lock that a thread holds is taken, and held by no other thread.
  abbrev pub IsLocked : Program R → Type 0
  IsLocked m = IsExclusive has (IsThread m.ult_id) (taken m.ult_id m.ults) m.threads

  more_ults : (n : ℕ) (t : Thread R) → IsThread n t → IsThread (suc n) t
  more_ults n t k = record { switch = k.switch; known = λ c p. omega (arith, k.known c p) }

  step-IsLocked : (m m' : Program R) → IsLocked m → Step m m' → IsLocked m'
  unfolding ult_convert ult_creat ult_switch_to ult_trylock
  step-IsLocked m m' h (works tid r out) = move-IsExclusive has h (record {
    takes = λ u p. inl p;
    held = h.held tid;
    keeps = λ u p q. p;
    local = let k = h.local tid in record { switch = k.switch; known = k.known };
    others = λ a free k. k;
  })
  step-IsLocked m m' h (converts tid out none_yet) = move-IsExclusive has h (record {
    takes = λ u p. ground (arith, out);
    held = λ u p. ground (arith, out);
    keeps = λ u p q. ground arith;
    local = record { switch = ground (arith, out); known = λ c p. ground arith };
    others = λ a free k. more_ults m.ult_id (m.threads a) k;
  })
  step-IsLocked m m' h (creates tid from regs out at) =
      let k = h.local tid in
      move-IsExclusive has h (record {
        takes = λ u p. ground (arith, out);
        held = λ u p. ground (arith, out, at, h.held tid u);
        keeps = λ u p q. ground arith;
        local = record {
          switch = ground (arith, at, k.known from at);
          known = λ c p. omega (arith, k.known c p);
        };
        others = λ a free k. more_ults m.ult_id (m.threads a) k;
      })
  step-IsLocked m m' h (calls tid from to out at exists) =
      let k = h.local tid in
      move-IsExclusive has h (record {
        takes = λ u p. ground (arith, out, at);
        held = λ u p. ground (arith, out, at, h.held tid u);
        keeps = λ u p q. ground arith;
        local = record {
          switch = ground (arith, out, at, h.held tid from, k.switch);
          known = λ c p. ground (arith, k.known c);
        };
        others = λ a free k. k;
      })
  step-IsLocked m m' h (goes_on tid current inside at) =
      let t = m.threads tid in
      let k = h.local tid in
      move-IsExclusive has h (record {
        takes = go_on-takes m.ult_id t current m.ults at k;
        held = go_on-held m.ult_id t current m.ults at k (h.held tid);
        keeps = go_on-keeps m.ult_id t current m.ults at;
        local = go_on-IsThread m.ult_id t current m.ults at k (h.held tid);
        others = λ a free k. k;
      })

  pub reachable-IsLocked : (m : Program R) → Reachable m → IsLocked m
  reachable-IsLocked m (start s) = record {
    held = λ a u p. ground (arith, s.at a, s.current a);
    one = λ a b u p q. ground (arith, s.at a, s.current a);
    local =
        λ a. record { switch = ground (arith, s.at a); known = λ c p. ground (arith, s.current a) };
  }
  reachable-IsLocked m (step {m = m₀} h s) = step-IsLocked m₀ m (reachable-IsLocked m₀ h) s
