-- ===== src/Probes.antt =====
-- fibers/probes.c: the return probes by which a process that has fibers gets a directory `fibers` in
-- its directory under /proc. What Linux answers a handler is in a record, since it changes between
-- calls; what the handlers pass to proc_pident_readdir and proc_pident_lookup is their result.
use fibers.Prelude.{
  ℕ, ◌+◌, ◌-◌, ◌%◌, ◌^◌, ◌≤◌, ◌<◌, ◌≡◌, ap, false, List, [], ◌∷◌, Option, none, some, ℤ, neg, arith,
  ◌==◌, if◌then◌else◌,
}
use fibers.Kernel.{Kernel}
use fibers.Fiber.{ThreadGroup}
use fibers.Group.{get_group}

-- The argument registers of the probed function, and what the entry handlers keep of them.
pub record Args : Type 0 where
  pub di : ℕ
  pub si : ℕ

pub record DirData : Type 0 where
  pub file : ℕ
  pub ctx : ℕ

pub record LookupData : Type 0 where
  pub dentry : ℕ
  pub inode : ℕ

-- Linux at the return of the probed function: the inode of a file, `pos` of a dir_context, and the
-- tgid of the task of an inode, which may be gone.
pub record Moment : Type 0 where
  pub groups : List ThreadGroup
  pub file_inode : ℕ → ℕ
  pub ctx_pos : ℕ → ℕ
  pub get_proc_task : ℕ → Option ℤ

-- A table of entries: where it starts, counted from fibers_dir, and its length.
pub record Entries : Type 0 where
  pub start : ℤ
  pub nents : ℕ

-- A handler returns, or calls the function of Linux with a table, or goes through a task that is NULL.
pub data Handled : Type 0 where
  returned : Handled
  passed : Entries → Handled
  oops : Handled

unfoldable pub entry_handler_lookup : Args → LookupData
entry_handler_lookup regs = record { dentry = regs.si; inode = regs.di }

unfoldable pub entry_handler_readdir : Args → DirData
entry_handler_readdir regs = record { file = regs.di; ctx = regs.si }

-- A number as an unsigned int.
abbrev pub uint : ℕ → ℕ
uint n = n % 2 ^ 32

-- `fibers_dir - (pos - 2), pos - 1`, where `pos` is an unsigned int.
unfoldable pub entries_at : ℕ → Entries
entries_at p = record { start = neg (uint (p + (2 ^ 32 - 2))); nents = uint (p + (2 ^ 32 - 1)) }

-- `nents`, as an unsigned int, after the test under the lock.
unfoldable pub settle : ℕ → ℕ → ℕ
settle nents p = if nents == 0 then uint p else nents

-- The probed functions return, one after the other.
pub data Probe : Type 0 where
  readdir : Moment → Args → Probe
  lookup : Moment → Args → Probe

-- `if (!tg) return 0;`
abbrev pub if_group : Option ThreadGroup → Handled → Handled
if_group none r = returned
if_group (some tg) r = r

module _ (k : Kernel) where
  -- `tg = get_group(task->tgid)`, and `r` where there is a group.
  unfoldable pub in_group_of : Option ℤ → Moment → Handled → Handled
  in_group_of none now r = oops
  in_group_of (some tgid) now r = if_group (get_group k tgid now.groups) r

  unfoldable pub handler_lookup : Moment → LookupData → ℕ → Handled
  handler_lookup now kept nents =
      in_group_of (now.get_proc_task kept.inode) now
        (if nents == 0 then returned else passed (entries_at nents))

  unfoldable pub handler_readdir : Moment → DirData → ℕ → ℕ × Handled
  handler_readdir now kept nents =
      let after = settle nents (now.ctx_pos kept.ctx) in
      (
        after,
        in_group_of (now.get_proc_task (now.file_inode kept.file)) now (passed (entries_at after)),
      )

  unfoldable pub probed : List Probe → ℕ → List Handled
  probed [] nents = []
  probed (readdir now regs ∷ ps) nents =
      let r = handler_readdir now (entry_handler_readdir regs) nents in r.1 ∷ probed ps r.0
  probed (lookup now regs ∷ ps) nents =
      handler_lookup now (entry_handler_lookup regs) nents ∷ probed ps nents

-- The position at the end of the first directory that is read, or 0.
abbrev pub first_pos : List Probe → ℕ
first_pos [] = 0
first_pos (readdir now regs ∷ ps) = now.ctx_pos regs.si
first_pos (lookup now regs ∷ ps) = first_pos ps

-- A position in a directory of Linux, behind its two dots, as an int.
abbrev pub IsPos : ℕ → Type 0
IsPos p = (2 ≤ p) × (p < 2 ^ 31)

abbrev pub InRange : List Probe → Type 0
InRange [] = Unit
InRange (readdir now regs ∷ ps) = IsPos (now.ctx_pos regs.si) × InRange ps
InRange (lookup now regs ∷ ps) = InRange ps

-- A table that ends with fibers_dir[0], and starts `p - 2` entries before it.
abbrev pub Fits : ℕ → Handled → Type 0
Fits p returned = Unit
Fits p (passed e) = (2 ≤ p) × (e.start ≡ neg (p - 2)) × (e.nents ≡ p - 1)
Fits p oops = Unit

abbrev pub EachFits : ℕ → List Handled → Type 0
EachFits p [] = Unit
EachFits p (r ∷ rs) = Fits p r × EachFits p rs

entries_at-Fits : (p : ℕ) → IsPos p → Fits p (passed (entries_at p))
unfolding entries_at
entries_at-Fits p (low, high) = (low, ap neg (omega (arith, low, high)), omega (arith, low, high))

not_zero : (p : ℕ) → IsPos p → (p == 0) ≡ false
not_zero p (low, high) = ground (arith, low)

settled : (p q : ℕ) → IsPos p → settle p q ≡ p
unfolding settle
settled p q (low, high) = ground (arith, low)

first_settled : (p : ℕ) → IsPos p → settle 0 p ≡ p
unfolding settle
first_settled p (low, high) = ground (arith, high)

module _ (k : Kernel) where
  in_group_of-Fits :
      (task : Option ℤ) (now : Moment) (r : Handled) (p : ℕ)
      → Fits p r
      → Fits p (in_group_of k task now r)
  unfolding in_group_of
  in_group_of-Fits none now r p fits = tt
  in_group_of-Fits (some tgid) now r p fits = split (get_group k tgid now.groups)
    where
      split : (tg : Option ThreadGroup) → Fits p (if_group tg r)
      split none = tt
      split (some tg) = fits

  settled-EachFits : (ps : List Probe) (p : ℕ) → IsPos p → EachFits p (probed k ps p)
  unfolding probed handler_lookup handler_readdir
  settled-EachFits [] p at = tt
  settled-EachFits (readdir now regs ∷ ps) p at =
      rw (settled p (now.ctx_pos (entry_handler_readdir regs).ctx) at)
        (in_group_of-Fits _ now _ p (entries_at-Fits p at), settled-EachFits ps p at)
  settled-EachFits (lookup now regs ∷ ps) p at = (
    in_group_of-Fits _ now _ p (rw (not_zero p at) (entries_at-Fits p at)),
    settled-EachFits ps p at,
  )

  -- Where directories are read up to positions from 2 to 2 ^ 31 - 1, in any run of the probes since the
  -- module was loaded, each table that a handler passes ends with the entry of fibers_dir and starts
  -- p - 2 entries before it, where p is the position at which the first directory was read; and none
  -- is passed before.
  pub probed-EachFits : (ps : List Probe) → InRange ps → EachFits (first_pos ps) (probed k ps 0)
  unfolding probed handler_lookup handler_readdir entry_handler_readdir
  probed-EachFits [] range = tt
  probed-EachFits (readdir now regs ∷ ps) (at, range) =
      let p = now.ctx_pos regs.si in
      rw (first_settled p at)
        (in_group_of-Fits _ now _ p (entries_at-Fits p at), settled-EachFits ps p at)
  probed-EachFits (lookup now regs ∷ ps) range =
      (in_group_of-Fits _ now _ (first_pos ps) tt, probed-EachFits ps range)
