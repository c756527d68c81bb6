-- ===== src/Examples/Drivers.antt =====
-- The registration of the device (fibers/device.c) in a small Linux, with one major number, one class
-- and one device.
use fibers.Prelude.{
  ℕ, ◌≡◌, refl, sym, ap, Bool, true, false, Option, none, some, ℤ, pos, negsuc, arith,
}
use fibers.Group.{Ptr, err_ptr, valid}
use fibers.Device.Registration.{
  Drivers, IsUndone, fibers_register_device, fibers_unregister_device, AllOrNothing,
  fibers_register_device-AllOrNothing,
}

-- Whether the major number, the class and the device are there.
abbrev Linux : Type 0
Linux = Bool × Bool × Bool

abbrev chrdev : Linux → ℤ × Linux
chrdev (false, c, d) = (pos 240, (true, c, d))
chrdev (true, c, d) = (negsuc 15, (true, c, d))

abbrev no_chrdev : Linux → Linux
no_chrdev (m, c, d) = (false, c, d)

abbrev new_class : Linux → Ptr ℕ × Linux
new_class (m, false, d) = (valid 1, (m, true, d))
new_class (m, true, d) = (err_ptr 16, (m, true, d))

abbrev no_class : Linux → Option Linux
no_class (m, true, d) = some (m, false, d)
no_class (m, false, d) = none

abbrev new_device : Linux → Ptr ℕ × Linux
new_device (m, c, false) = (valid 2, (m, c, true))
new_device (m, c, true) = (err_ptr 16, (m, c, true))

abbrev no_device : Linux → Linux
no_device (m, c, d) = (m, c, false)

instance linux : Drivers Linux
linux = record {
  register_chrdev = chrdev;
  unregister_chrdev = λ major. no_chrdev;
  class_create = new_class;
  class_unregister = λ c. no_class;
  class_destroy = λ c. no_class;
  device_create = λ c major. new_device;
  device_destroy = λ c major. no_device;
}

chrdev_fails : (k k' : Linux) (e : ℕ) → chrdev k ≡ (negsuc e, k') → k' ≡ k
chrdev_fails (true, c, d) k' e p = sym (ap (λ x. x.1) p)
chrdev_fails (false, c, d) k' e p = ground arith

chrdev_undo : (k k' : Linux) (major : ℕ) → chrdev k ≡ (pos major, k') → no_chrdev k' ≡ k
chrdev_undo (true, c, d) k' major p = ground arith
chrdev_undo (false, c, d) k' major p = ap (λ x. no_chrdev x.1) (sym p)

class_fails : (k k' : Linux) (e : ℕ) → new_class k ≡ (err_ptr e, k') → k' ≡ k
class_fails (m, true, d) k' e p = sym (ap (λ x. x.1) p)
class_fails (m, false, d) k' e p = ground arith

class_undo : (k k' : Linux) (c : ℕ) → new_class k ≡ (valid c, k') → no_class k' ≡ some k
class_undo (m, true, d) k' c p = ground arith
class_undo (m, false, d) k' c p = ap (λ x. no_class x.1) (sym p)

device_fails : (k k' : Linux) (e : ℕ) → new_device k ≡ (err_ptr e, k') → k' ≡ k
device_fails (m, c, true) k' e p = sym (ap (λ x. x.1) p)
device_fails (m, c, false) k' e p = ground arith

device_undo : (k k' : Linux) (q : ℕ) → new_device k ≡ (valid q, k') → no_device k' ≡ k
device_undo (m, c, true) k' q p = ground arith
device_undo (m, c, false) k' q p = ap (λ x. no_device x.1) (sym p)

linux-IsUndone : IsUndone Linux
unfolding linux
linux-IsUndone = record {
  chrdev_fails = chrdev_fails;
  chrdev_undo = chrdev_undo;
  class_fails = class_fails;
  class_undo = class_undo;
  device_fails = λ k k' c major. device_fails k k';
  device_undo = λ k k' c major. device_undo k k';
}

-- Where the device is there already, all is undone.
fibers_register_device-AllOrNothing_example :
    AllOrNothing {K = Linux} (false, false, true) (fibers_register_device (false, false, true))
fibers_register_device-AllOrNothing_example =
    fibers_register_device-AllOrNothing linux-IsUndone (false, false, true)

-- A device that is registered, and removed: class_destroy finds its class unregistered.
unregistered_twice :
    fibers_unregister_device {K = Linux}
      (record { fibers_device_major = 240; fibers_device_class = 1; fibers_device = 2 })
      (true, true, true)
    ≡ none
unfolding linux fibers_unregister_device
unregistered_twice = refl
