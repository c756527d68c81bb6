-- ===== src/Proc.antt =====
-- fibers/proc.c: fibers_read, the read of /proc/<pid>/fibers/<fid>. The printing of a fiber's data
-- (the format of snprintf), kstrtoul and the caller's memory are parameters.
pub mod Windows
pub mod Entries
pub mod Overrun
use fibers.Prelude.{
  ℕ, suc, ◌+◌, ◌-◌, ◌≤◌, ◌<◌, Bool, List, [], ◌∷◌, ◌++◌, Option, none, some, ℤ, pos, neg, low_word,
  ltb, length, take, drop, if◌then◌else◌,
}
use fibers.Kernel.{Kernel}
use fibers.Fiber.{Info, Fiber}
use fibers.Group.{World, esrch, get_group, get_fiber}

abbrev pub info_size : ℕ
info_size = 1024

-- What fibers_read takes from outside: the text of a fiber's data, before it is cut, and the number
-- that a file's name reads as, if it is one.
pub record Text : Type 0 where
  pub format : Info → List ℕ
  pub kstrtoul : List ℕ → Option ℕ

-- A read returns a count, with the bytes that it copied and the new offset, or it fails; or the task
-- behind the file is gone, and a null pointer is read.
pub data ReadResult : Type 0 where
  copied : ℕ → List ℕ → ℕ → ReadResult
  failed : ℕ → ReadResult
  null_task : ReadResult

-- `read_fid`, which stays 0 where the name is no number.
abbrev pub read_fid : Text → List ℕ → ℤ
read_fid x name = elim (x.kstrtoul name) [ none ↦ pos 0 | some n ↦ low_word n ]

-- snprintf into a buffer of INFO_SIZE bytes, whose last is the final zero
abbrev pub fiber_data : Text → Info → List ℕ
fiber_data x info = take (info_size - 1) (x.format info)

-- How many bytes a read copies.
unfoldable pub read_bytes : ℕ → ℕ → ℕ → ℕ
read_bytes buf_size data_lenght offset =
    if ltb buf_size (data_lenght - offset - 1) then buf_size else data_lenght - offset - 1

-- The part of fibers_read behind the print.
unfoldable pub read_data : Bool → ℕ → List ℕ → ℕ → ReadResult
read_data writable buf_size bytes offset =
    let n = read_bytes buf_size (length bytes) offset in
    if ltb offset (length bytes)
    then (if writable then copied n (take n (drop offset bytes)) (offset + n) else failed 1)
    else copied 0 [] offset

-- `task` is the process of the task that the file's inode names; `name` the file's name.
unfoldable pub fibers_read : Kernel → Text → World → Option ℤ → List ℕ → Bool → ℕ → ℕ → ReadResult
fibers_read k x w none name writable buf_size offset = null_task
fibers_read k x w (some tgid) name writable buf_size offset = elim (get_group k tgid w.groups) [
  | none ↦ failed esrch
  | some tg ↦ elim (get_fiber k (read_fid x name) tg) [
    | none ↦ failed esrch
    | some f ↦ read_data writable buf_size (fiber_data x f.info) offset
  ]
]
