-- ===== src/Proc/Entries.antt =====
-- fibers/proc.c: fibers_readdir and fibers_lookup. Both list the fibers of a process in an array and
-- hand it to a function of the kernel, which is a parameter, like the allocation of the array.
use fibers.Prelude.{
  ℕ, zero, suc, ◌-◌, ◌*◌, ◌%◌, ◌^◌, Bool, List, [], ◌∷◌, ◌++◌, Option, none, some, ℤ, pos, negsuc,
  neg, ite, ℕ_discrete, ltb, length, if◌then◌else◌,
}
use fibers.Kernel.{Kernel}
use fibers.Fiber.{Fiber, ThreadGroup}
use fibers.Group.{World, esrch, get_group}

-- `struct pid_entry`, without the two tables of operations, which are the same in every entry.
pub record PidEntry : Type 0 where
  pub name : List ℕ
  pub len : ℕ
  pub mode : ℕ

-- A call returns; or it dereferences a null pointer, or it writes behind the array.
pub data Listing : Type 0 where
  listed : ℤ → Listing
  null_pointer : Listing
  overrun : Listing

-- The nodes of one chain, and those of the first `n` chains, as hash_for_each_rcu visits them.
unfoldable pub chain : Kernel → ℕ → List Fiber → List Fiber
chain k bkt [] = []
chain k bkt (f ∷ fs) = ite (ℕ_discrete (k.bucket f.fid) bkt) (f ∷ chain k bkt fs) (chain k bkt fs)

unfoldable pub chains : Kernel → ℕ → List Fiber → List Fiber
chains k zero fs = []
chains k (suc n) fs = chains k n fs ++ chain k n fs

-- 2 ^ H_SIZE
abbrev pub hash_size : ℕ
hash_size = 2 ^ 8

-- An `int` as an `unsigned long`, and the bytes of an array, which wrap.
abbrev pub nents_of : ℤ → ℕ
nents_of (pos n) = n
nents_of (negsuc n) = 2 ^ 64 - suc n

abbrev pub array_bytes : ℕ → ℕ
array_bytes nents = (nents * 40) % 2 ^ 64

-- S_IFREG|S_IRUGO
abbrev pub entry_of : Fiber → PidEntry
entry_of f = record { name = f.info.name; len = length f.info.name; mode = 33060 }

-- The entries that are not written are zero.
unfoldable pub zeroes : ℕ → List (Option PidEntry)
zeroes zero = []
zeroes (suc n) = none ∷ zeroes n

-- The loop, from index `i` on: the array's rest, or nothing where it writes behind the end.
unfoldable pub fill : ℕ → ℕ → List Fiber → Option (List (Option PidEntry))
fill nents i [] = some (zeroes (nents - i))
fill nents i (f ∷ fs) =
    let rest = fill nents (suc i) fs in
    if ltb i nents
    then (elim rest [ none ↦ none | some entries ↦ some (some (entry_of f) ∷ entries) ])
    else none

-- What the two functions share behind the lookup of the group; `pident` is the kernel's function on
-- the array and its length.
unfoldable pub list_fibers :
    Kernel → (ℕ → Bool) → (List (Option PidEntry) → ℕ → ℤ) → ThreadGroup → Listing
list_fibers k kmalloc pident tg =
    let nents = nents_of tg.fid_count in
    let filled = fill nents 0 (chains k hash_size tg.fibers) in
    if kmalloc (array_bytes nents)
    then (elim filled [ none ↦ overrun | some entries ↦ listed (pident entries nents) ])
    else null_pointer

-- fibers_readdir; fibers_lookup is the same with the kernel's other function. `task` is the process
-- of the task that the inode names.
unfoldable pub fibers_readdir :
    Kernel → (ℕ → Bool) → (List (Option PidEntry) → ℕ → ℤ) → World → Option ℤ → Listing
fibers_readdir k kmalloc pident w none = listed (neg esrch)
fibers_readdir k kmalloc pident w (some tgid) = elim (get_group k tgid w.groups) [
  | none ↦ listed (pos 0)
  | some tg ↦ list_fibers k kmalloc pident tg
]

unfoldable pub fibers_lookup :
    Kernel → (ℕ → Bool) → (List (Option PidEntry) → ℕ → ℤ) → World → Option ℤ → Listing
fibers_lookup k kmalloc pident w none = listed (neg esrch)
fibers_lookup k kmalloc pident w (some tgid) = elim (get_group k tgid w.groups) [
  | none ↦ listed (pos 0)
  | some tg ↦ list_fibers k kmalloc pident tg
]
