-- ===== src/Proc/Overrun.antt =====
-- How many entries fibers_readdir and fibers_lookup of fibers/proc.c write.
use fibers.Prelude.{
  ℕ, zero, suc, ◌+◌, ◌≤◌, ◌<◌, ◌≡◌, ◌∙◌, Bool, true, List, [], ◌∷◌, ◌++◌, Option, none, some, ℤ,
  pos, arith, ite, ℤ_discrete, dec_lt, length,
}
use fibers.Table.{walk, delete}
use fibers.Table.Laws.{walk-delete_ne}
use fibers.Kernel.{Kernel}
use fibers.Fiber.{Fiber, ThreadGroup}
use fibers.Group.{World}
use fibers.Group.Lookup.{group_at, get_group-walk}
use fibers.Invariant.{Inv}
use fibers.Proc.Entries.{
  PidEntry, overrun, chain, chains, hash_size, array_bytes, fill, list_fibers, fibers_readdir,
  fibers_lookup,
}

length-++ : (xs ys : List Fiber) → length (xs ++ ys) ≡ length xs + length ys
length-++ [] ys = ground arith
length-++ (x ∷ xs) ys = ground (arith, length-++ xs ys)

module _ (k : Kernel) where
  -- A node stands in one of the chains.
  length-chains_cons :
      (n : ℕ) (f : Fiber) (fs : List Fiber)
      → length (chains k n (f ∷ fs))
        ≡ ite (dec_lt (k.bucket f.fid) n) (suc (length (chains k n fs))) (length (chains k n fs))
  unfolding chains chain
  length-chains_cons zero f fs = ground arith
  length-chains_cons (suc n) f fs = ground (
    arith,
    length-chains_cons n f fs,
    length-++ (chains k n (f ∷ fs)) (chain k n (f ∷ fs)),
    length-++ (chains k n fs) (chain k n fs),
  )

  length-chains_nil : (n : ℕ) → length (chains k n []) ≡ 0
  unfolding chains chain
  length-chains_nil zero = ground arith
  length-chains_nil (suc n) =
      ground (arith, length-chains_nil n, length-++ (chains k n []) (chain k n []))

  length-chains :
      ((key : ℤ) → k.bucket key < hash_size)
      → (fs : List Fiber) → length (chains k hash_size fs) ≡ length fs
  length-chains h [] = length-chains_nil hash_size
  length-chains h (f ∷ fs) =
      ground (arith, length-chains_cons hash_size f fs, length-chains h fs, h f.fid)

length-delete :
    (j : ℤ) (fs : List Fiber) {f : Fiber}
    → walk Fiber.fid j fs ≡ some f
    → suc (length (delete Fiber.fid j fs)) ≡ length fs
unfolding walk delete
length-delete j [] e = ground arith
length-delete j (x ∷ fs) {f} e = elim (ℤ_discrete x.fid j) [
  | yes p ↦ ground arith
  | no n ↦ ground (arith, length-delete j fs {f = f} (ground arith))
]

-- A table that has the keys 0 to n - 1 has at least `n` nodes.
length-dense :
    (n : ℕ) (fs : List Fiber)
    → ((i : ℕ) → i < n → (f : Fiber) × (walk Fiber.fid (pos i) fs ≡ some f))
    → n ≤ length fs
length-dense zero fs h = ground arith
length-dense (suc n) fs h =
    let (f, e) = h n (omega arith) in
    let fewer = length-dense n (delete Fiber.fid (pos n) fs) (λ i lt.
      let (g, d) = h i (omega arith) in
      (g, walk-delete_ne Fiber.fid (pos n) (pos i) fs (λ q. ground (arith, q)) ∙ d)) in
    omega (arith, fewer, length-delete (pos n) fs e)

fill-short :
    (nents i : ℕ) (fs : List Fiber) → nents < i + length fs → i ≤ nents → fill nents i fs ≡ none
unfolding fill
fill-short nents i [] h lt = absurd (omega arith)
fill-short nents i (f ∷ fs) h lt = elim (dec_lt i nents) [
  | yes p ↦ ground (arith, fill-short nents (suc i) fs (omega arith) (omega arith))
  | no n ↦ ground (arith, n)
]

module _ (k : Kernel) (kmalloc : ℕ → Bool) (pident : List (Option PidEntry) → ℕ → ℤ)
    {tg : ThreadGroup} (hashes : (key : ℤ) → k.bucket key < hash_size) where
  list_fibers-overrun :
      {n : ℕ}
      → Inv (suc n) tg
      → kmalloc (array_bytes n) ≡ true
      → list_fibers k kmalloc pident tg ≡ overrun
  unfolding list_fibers
  list_fibers-overrun {n} inv got =
      let many = length-dense (suc n) tg.fibers inv.dense in
      let all = length-chains k hashes tg.fibers in
      ground (
        arith,
        inv.count,
        fill-short n 0 (chains k hash_size tg.fibers) (omega (arith, many, all)) (omega arith),
      )

  -- In a sound group that has a fiber, with a hash that stays below the size of its tables, and where
  -- the array can be allocated, fibers_readdir and fibers_lookup write behind the end of their array.
  pub fibers_readdir-overrun :
      (g : ℤ) (w : World) {n : ℕ}
      → group_at g w ≡ some tg
      → Inv (suc n) tg
      → kmalloc (array_bytes n) ≡ true
      → (fibers_readdir k kmalloc pident w (some g) ≡ overrun)
        × (fibers_lookup k kmalloc pident w (some g) ≡ overrun)
  unfolding fibers_readdir fibers_lookup
  fibers_readdir-overrun g w here inv got =
      let over = list_fibers-overrun inv got in
      (ground (arith, get_group-walk k g w.groups), ground (arith, get_group-walk k g w.groups))
