-- ===== src/Kernel.antt =====
-- What fibers/*.c takes from Linux: the hash of a table's key, the search in a bitmap, and what the
-- calling task (`current`) shows of itself. These are parameters of the model.
use fibers.Prelude.{ℕ, ◌≡◌, ◌≤◌, ◌<◌, Bool, true, false, ℤ}

pub record Kernel : Type 0 where
  -- `hash_min` of a key, for tables of 2 ^ H_SIZE chains
  pub bucket : ℤ → ℕ
  -- The index of the first zero bit, or the size where every bit is set.
  pub find_first_zero_bit : (ℕ → Bool) → ℕ → ℕ
  pub first_zero_le : (bmp : ℕ → Bool) (size : ℕ) → find_first_zero_bit bmp size ≤ size
  pub first_zero_clear :
      (bmp : ℕ → Bool) (size : ℕ)
      → find_first_zero_bit bmp size < size
      → bmp (find_first_zero_bit bmp size) ≡ false
  pub first_zero_least :
      (bmp : ℕ → Bool) (size i : ℕ) → i < find_first_zero_bit bmp size → bmp i ≡ true
  -- Whether a list node can still be read after `kfree` of the struct around it. The C API gives no
  -- such promise.
  pub freed_readable : Bool
