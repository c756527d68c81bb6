-- ===== src/Device/Registration.antt =====
-- fibers/device.c: the registration of the device and its removal. What Linux keeps of devices is a
-- type, and its functions on it are parameters; a function that the code calls on what is already
-- destroyed may be an oops, which is `none`.
use fibers.Prelude.{ℕ, ◌≡◌, refl, ap, subst, ◌∙◌, Option, none, some, ℤ, pos, negsuc, neg}
use fibers.Group.{Ptr, err_ptr, valid}

pub record Drivers (K : Type 0) : Type 0 where
  -- A major number, or a negative error
  pub register_chrdev : K → ℤ × K
  pub unregister_chrdev : ℕ → K → K
  pub class_create : K → Ptr ℕ × K
  pub class_unregister : ℕ → K → Option K
  pub class_destroy : ℕ → K → Option K
  pub device_create : ℕ → ℕ → K → Ptr ℕ × K
  pub device_destroy : ℕ → ℕ → K → K

-- A creation that fails changes nothing, and each removal undoes its creation.
pub record IsUndone (K : Type 0) ⦃d : Drivers K⦄ : Type 0 where
  pub chrdev_fails : (k k' : K) (e : ℕ) → d.register_chrdev k ≡ (negsuc e, k') → k' ≡ k
  pub chrdev_undo :
      (k k' : K) (major : ℕ)
      → d.register_chrdev k ≡ (pos major, k')
      → d.unregister_chrdev major k' ≡ k
  pub class_fails : (k k' : K) (e : ℕ) → d.class_create k ≡ (err_ptr e, k') → k' ≡ k
  pub class_undo :
      (k k' : K) (c : ℕ) → d.class_create k ≡ (valid c, k') → d.class_destroy c k' ≡ some k
  pub device_fails :
      (k k' : K) (c major e : ℕ) → d.device_create c major k ≡ (err_ptr e, k') → k' ≡ k
  pub device_undo :
      (k k' : K) (c major p : ℕ)
      → d.device_create c major k ≡ (valid p, k')
      → d.device_destroy c major k' ≡ k

-- The static variables, as the registration leaves them.
pub record Registered : Type 0 where
  pub fibers_device_major : ℕ
  pub fibers_device_class : ℕ
  pub fibers_device : ℕ

-- How the registration ends: with an error, as a negative number, or SUCCESS; or it oopses.
pub data Ends (K : Type 0) : Type 0 where
  failed : ℤ → K → Ends K
  success : Registered → K → Ends K
  oops : Ends K

module _ {K : Type 0} ⦃d : Drivers K⦄ where
  -- The labels error_class and error_device.
  unfoldable pub error_class : ℕ → ℕ → K → Ends K
  error_class major e k = failed (neg e) (d.unregister_chrdev major k)

  unfoldable pub error_device : ℕ → ℕ → ℕ → K → Ends K
  error_device major c e k = elim (d.class_destroy c k) [
    | none ↦ oops
    | some k' ↦ error_class major e k'
  ]

  -- The rest of the registration, from what device_create, class_create and register_chrdev return.
  unfoldable pub with_device : ℕ → ℕ → Ptr ℕ × K → Ends K
  with_device major c (err_ptr e, k) = error_device major c e k
  with_device major c (valid device, k) =
      success
        (record { fibers_device_major = major; fibers_device_class = c; fibers_device = device }) k

  unfoldable pub with_class : ℕ → Ptr ℕ × K → Ends K
  with_class major (err_ptr e, k) = error_class major e k
  with_class major (valid c, k) = with_device major c (d.device_create c major k)

  unfoldable pub with_major : ℤ × K → Ends K
  with_major (negsuc e, k) = failed (negsuc e) k
  with_major (pos major, k) = with_class major (d.class_create k)

  unfoldable pub fibers_register_device : K → Ends K
  fibers_register_device k = with_major (d.register_chrdev k)

  unfoldable pub fibers_unregister_device : Registered → K → Option K
  fibers_unregister_device r k =
      let k' = d.device_destroy r.fibers_device_class r.fibers_device_major k in
      elim (d.class_unregister r.fibers_device_class k') [
        | none ↦ none
        | some k'' ↦ elim (d.class_destroy r.fibers_device_class k'') [
          | none ↦ none
          | some k₃ ↦ some (d.unregister_chrdev r.fibers_device_major k₃)
        ]
      ]

  -- All three are there, and come apart in the reverse order; or nothing is.
  abbrev pub AllOrNothing : K → Ends K → Type 0
  AllOrNothing k (failed e k') = k' ≡ k
  AllOrNothing k (success r k') =
      (k₁ : K) × (k₂ : K) × (d.device_destroy r.fibers_device_class r.fibers_device_major k' ≡ k₂)
      × (d.class_create k₁ ≡ (valid r.fibers_device_class, k₂))
      × (d.class_destroy r.fibers_device_class k₂ ≡ some k₁)
      × (d.unregister_chrdev r.fibers_device_major k₁ ≡ k)
  AllOrNothing k oops = ⊥

module _ {K : Type 0} ⦃d : Drivers K⦄ (u : IsUndone K) (k : K) where
  module _ (major : ℕ) (k₁ : K) (at : d.register_chrdev k ≡ (pos major, k₁)) where
    module _ (c : ℕ) (k₂ : K) (at' : d.class_create k₁ ≡ (valid c, k₂)) where
      with_device-AllOrNothing :
          (r : Ptr ℕ × K) → d.device_create c major k₂ ≡ r → AllOrNothing k (with_device major c r)
      unfolding with_device error_device error_class
      with_device-AllOrNothing (valid p, k₃) e = (
        k₁,
        k₂,
        u.device_undo k₂ k₃ c major p e,
        at',
        u.class_undo k₁ k₂ c at',
        u.chrdev_undo k k₁ major at,
      )
      with_device-AllOrNothing (err_ptr err, k₃) e =
          rw (error_device, u.device_fails k₂ k₃ c major err e, u.class_undo k₁ k₂ c at')
            (u.chrdev_undo k k₁ major at)

    with_class-AllOrNothing :
        (r : Ptr ℕ × K) → d.class_create k₁ ≡ r → AllOrNothing k (with_class major r)
    unfolding with_class error_class
    with_class-AllOrNothing (valid c, k₂) e =
        with_device-AllOrNothing c k₂ e (d.device_create c major k₂) refl
    with_class-AllOrNothing (err_ptr err, k₂) e =
        ap (d.unregister_chrdev major) (u.class_fails k₁ k₂ err e) ∙ u.chrdev_undo k k₁ major at

  with_major-AllOrNothing : (r : ℤ × K) → d.register_chrdev k ≡ r → AllOrNothing k (with_major r)
  unfolding with_major
  with_major-AllOrNothing (negsuc err, k₁) e = u.chrdev_fails k k₁ err e
  with_major-AllOrNothing (pos major, k₁) e =
      with_class-AllOrNothing major k₁ e (d.class_create k₁) refl

  -- Where a creation that fails changes nothing, and each removal undoes its creation (IsUndone),
  -- fibers_register_device does not oops: it registers the major number, the class and the device,
  -- which the removals in reverse order undo, or it returns an error and leaves Linux as it was.
  pub fibers_register_device-AllOrNothing : AllOrNothing k (fibers_register_device k)
  unfolding fibers_register_device
  fibers_register_device-AllOrNothing = with_major-AllOrNothing (d.register_chrdev k) refl

  -- A class that is unregistered cannot be unregistered again by class_destroy.
  destroyed_twice :
      ((k₁ k₂ k₃ : K) (c : ℕ)
        → d.class_create k₁ ≡ (valid c, k₂)
        → d.class_unregister c k₂ ≡ some k₃
        → d.class_destroy c k₃ ≡ none)
      → (r : Registered) (k' : K) → AllOrNothing k (success r k')
      → fibers_unregister_device r k' ≡ none
  unfolding fibers_unregister_device
  destroyed_twice once r k' (k₁, k₂, undo, made, _, _) =
      split (d.class_unregister r.fibers_device_class k₂) refl
    where
      split :
          (o : Option K)
          → d.class_unregister r.fibers_device_class k₂ ≡ o
          → fibers_unregister_device r k' ≡ none
      split none e = rw (fibers_unregister_device, undo, e) refl
      split (some k₃) e =
          rw (fibers_unregister_device, undo, e, once k₁ k₂ k₃ r.fibers_device_class made e) refl

  -- Where in addition a class that is unregistered cannot be unregistered again by class_destroy, the
  -- removal of a device that was registered with success oopses: fibers_unregister_device calls
  -- class_unregister and class_destroy on the same class.
  pub fibers_unregister_device-oops :
      ((k₁ k₂ k₃ : K) (c : ℕ)
        → d.class_create k₁ ≡ (valid c, k₂)
        → d.class_unregister c k₂ ≡ some k₃
        → d.class_destroy c k₃ ≡ none)
      → (r : Registered) (k' : K) → fibers_register_device k ≡ success r k'
      → fibers_unregister_device r k' ≡ none
  fibers_unregister_device-oops once r k' e =
      destroyed_twice once r k' (subst (AllOrNothing k) e fibers_register_device-AllOrNothing)
