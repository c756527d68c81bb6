-- ===== src/Locking.antt =====
-- Locks that are taken and given back in single steps by tasks: what each step has to do, so that a
-- lock has one holder, and what belongs to a free lock stays as it is until it is taken.
pub mod Waiting
use fibers.Prelude.{
  ℕ, ◌≡◌, ◌≢◌, refl, sym, ◌∙◌, ap, ◌⊎◌, inl, inr, Bool, true, false, update, ℕ_discrete, Bool-cases,
  dite, subst,
}

-- After a task has become another, each task is this one, or as it was.
pub update-cases :
    {T : Type 0} (tasks : ℕ → T) (tid : ℕ) (t : T) (a : ℕ)
    → ((tid ≡ a) × (update tasks tid t a ≡ t)) ⊎ ((tid ≢ a) × (update tasks tid t a ≡ tasks a))
update-cases tasks tid t a = split (ℕ_discrete tid a)
  where
    split :
        (at : Dec (tid ≡ a))
        → ((tid ≡ a) × (dite at (λ _. t) (λ _. tasks a) ≡ t))
          ⊎ ((tid ≢ a) × (dite at (λ _. t) (λ _. tasks a) ≡ tasks a))
    split (yes e) = inl (e, refl)
    split (no e) = inr (e, refl)

-- `has t u`: a task in state `t` holds lock `u`. `Local t` is what holds of each task by itself.
module _ {T : Type 0} (has : T → ℕ → Bool) where
  pub record IsExclusive (Local : T → Type 0) (taken : ℕ → Bool) (tasks : ℕ → T) : Type 0 where
    pub held : (a u : ℕ) → has (tasks a) u ≡ true → taken u ≡ true
    pub one : (a b u : ℕ) → has (tasks a) u ≡ true → has (tasks b) u ≡ true → a ≡ b
    pub local : (a : ℕ) → Local (tasks a)

  -- Task `tid` becomes `t`: it takes only locks that are free, and gives back only its own.
  pub record IsMove (Local Local' : T → Type 0) (taken taken' : ℕ → Bool) (tasks : ℕ → T) (tid : ℕ)
      (t : T) : Type 0 where
    pub takes : (u : ℕ) → has t u ≡ true → (has (tasks tid) u ≡ true) ⊎ (taken u ≡ false)
    pub held : (u : ℕ) → has t u ≡ true → taken' u ≡ true
    pub keeps : (u : ℕ) → taken u ≡ true → has (tasks tid) u ≡ false → taken' u ≡ true
    pub local : Local' t
    pub others :
        (a : ℕ)
        → ((u : ℕ) → has (tasks a) u ≡ true → has (tasks tid) u ≡ false)
        → Local (tasks a)
        → Local' (tasks a)

  module _ {Local Local' : T → Type 0} {taken taken' : ℕ → Bool} {tasks : ℕ → T} {tid : ℕ} {t : T}
      (h : IsExclusive Local taken tasks) (v : IsMove Local Local' taken taken' tasks tid t) where
    -- What another task has is neither the mover's nor taken by the move.
    apart : (a u : ℕ) → tid ≢ a → has (tasks a) u ≡ true → has (tasks tid) u ≡ false
    apart a u ne mine = elim (Bool-cases (has (tasks tid) u)) [
      | inl both ↦ absurd (ne (h.one tid a u both mine))
      | inr free ↦ free
    ]

    not_both : (a u : ℕ) → tid ≢ a → has (tasks a) u ≡ true → has t u ≡ true → ⊥
    not_both a u ne mine p = elim (v.takes u p) [
      | inl both ↦ ne (h.one tid a u both mine)
      | inr free ↦ let busy = h.held a u mine in cc
    ]

    pub move-IsExclusive : IsExclusive Local' taken' (update tasks tid t)
    move-IsExclusive = record {
      held = λ a u. held a u (update-cases tasks tid t a);
      one = λ a b u. one a b u (update-cases tasks tid t a) (update-cases tasks tid t b);
      local = λ a. local a (update-cases tasks tid t a);
    }
      where
        IsUpdate : ℕ → T → Type 0
        IsUpdate a x = ((tid ≡ a) × (x ≡ t)) ⊎ ((tid ≢ a) × (x ≡ tasks a))

        same : {x y : T} (u : ℕ) → x ≡ y → has x u ≡ true → has y u ≡ true
        same u e p = sym (ap (λ x. has x u) e) ∙ p

        held : {x : T} (a u : ℕ) → IsUpdate a x → has x u ≡ true → taken' u ≡ true
        held a u (inl (_, e)) p = v.held u (same u e p)
        held a u (inr (ne, e)) p =
            let mine = same u e p in v.keeps u (h.held a u mine) (apart a u ne mine)

        one :
            {x y : T} (a b u : ℕ)
            → IsUpdate a x
            → IsUpdate b y
            → has x u ≡ true
            → has y u ≡ true
            → a ≡ b
        one a b u (inl (e, _)) (inl (f, _)) p q = sym e ∙ f
        one a b u (inl (_, e)) (inr (ne, f)) p q =
            absurd (not_both b u ne (same u f q) (same u e p))
        one a b u (inr (ne, e)) (inl (_, f)) p q =
            absurd (not_both a u ne (same u e p) (same u f q))
        one a b u (inr (_, e)) (inr (_, f)) p q = h.one a b u (same u e p) (same u f q)

        local : {x : T} (a : ℕ) → IsUpdate a x → Local' x
        local a (inl (_, e)) = subst Local' (sym e) v.local
        local a (inr (ne, e)) = subst Local' (sym e) (v.others a (λ u. apart a u ne) (h.local a))
