-- ===== src/Locking/Waiting.antt =====
-- What belongs to a lock that nobody holds (Locking.antt).
use fibers.Prelude.{ℕ, ◌≡◌, refl, sym, ◌∙◌, ap, subst, ◌⊎◌, inl, inr, Bool, true, false, update}
use fibers.Locking.{IsExclusive, update-cases}

-- `enters t u`: a task in state `t` has taken lock `u` and is on its way in; `Back t u c`: it has
-- come in, with what belongs to `u` as `c`, or has gone wrong. `Known` are the locks that there are.
module _ {T C : Type 0} (has enters : T → ℕ → Bool) (Back : T → ℕ → C → Type 0) where
  pub record IsWaiting (Known : ℕ → Type 0) (taken : ℕ → Bool) (context : ℕ → C) (tasks : ℕ → T)
      (u : ℕ) (c : C) : Type 0 where
    pub known : Known u
    pub same : context u ≡ c
    pub nobody : (taken u ≡ false) ⊎ ((a : ℕ) × (enters (tasks a) u ≡ true))

  -- What a step of task `tid`, which becomes `t`, does to the locks that wait.
  pub record IsTurn (Known Known' : ℕ → Type 0) (taken taken' : ℕ → Bool) (context context' : ℕ → C)
      (tasks : ℕ → T) (tid : ℕ) (t : T) : Type 0 where
    pub known : (u : ℕ) → Known u → Known' u
    pub same :
        (u : ℕ)
        → Known u
        → (context' u ≡ context u) ⊎ ((has (tasks tid) u ≡ true) × (enters (tasks tid) u ≡ false))
    pub free :
        (u : ℕ)
        → Known u
        → taken u ≡ false
        → (taken' u ≡ false) ⊎ (enters t u ≡ true) ⊎ Back t u (context u)
    pub entering :
        (u : ℕ) → enters (tasks tid) u ≡ true → (enters t u ≡ true) ⊎ Back t u (context u)

  module _ {Local : T → Type 0} {Known Known' : ℕ → Type 0} {taken taken' : ℕ → Bool}
      {context context' : ℕ → C} {tasks : ℕ → T} {tid : ℕ} {t : T}
      (enters-has : (x : T) (u : ℕ) → enters x u ≡ true → has x u ≡ true)
      (h : IsExclusive has Local taken tasks)
      (v : IsTurn Known Known' taken taken' context context' tasks tid t) where
    module _ (u : ℕ) (c : C) (w : IsWaiting Known taken context tasks u c) where
      abbrev Result : Type 0
      Result =
          IsWaiting Known' taken' context' (update tasks tid t) u c
          ⊎ ((a : ℕ) × Back (update tasks tid t a) u c)

      still :
          context' u ≡ context u
          → (taken' u ≡ false) ⊎ ((a : ℕ) × (enters (update tasks tid t a) u ≡ true))
          → Result
      still e nobody =
          inl (record { known = v.known u w.known; same = e ∙ w.same; nobody = nobody })

      now : update tasks tid t tid ≡ t
      now = elim (update-cases tasks tid t tid) [ inl (_, e) ↦ e | inr (ne, _) ↦ absurd (ne refl) ]

      arrive : Back t u (context u) → Result
      arrive back = inr (tid, subst (λ x. Back x u c) (sym now) (subst (Back t u) w.same back))

      free : taken u ≡ false → Result
      free idle = elim (v.same u w.known) [
        | inr (busy, _) ↦ absurd (let p = h.held tid u busy in cc)
        | inl e ↦ elim (v.free u w.known idle) [
          | inl idle' ↦ still e (inl idle')
          | inr (inl comes) ↦ still e (inr (tid, ap (λ x. enters x u) now ∙ comes))
          | inr (inr back) ↦ arrive back
        ]
      ]

      entering : (a : ℕ) → enters (tasks a) u ≡ true → Result
      entering a comes = elim (v.same u w.known) [
        | inr (busy, out) ↦
            let mine = h.one tid a u busy (enters-has (tasks a) u comes) in
            absurd (let p = subst (λ x. enters (tasks x) u ≡ false) mine out in cc)
        | inl e ↦ elim (update-cases tasks tid t a) [
          | inr (_, at) ↦ still e (inr (a, ap (λ x. enters x u) at ∙ comes))
          | inl (mine, _) ↦
              elim (v.entering u (subst (λ x. enters (tasks x) u ≡ true) (sym mine) comes)) [
                | inl on_way ↦ still e (inr (tid, ap (λ x. enters x u) now ∙ on_way))
                | inr back ↦ arrive back
              ]
        ]
      ]

      pub turn-IsWaiting : Result
      turn-IsWaiting = elim w.nobody [ inl idle ↦ free idle | inr (a, comes) ↦ entering a comes ]
