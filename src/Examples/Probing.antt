-- ===== src/Examples/Probing.antt =====
-- A run of the probes (fibers/probes.c) on a process that has fibers.
use fibers.Prelude.{ℕ, List, [], ◌∷◌, some, pos, arith}
use fibers.Examples.{linux}
use fibers.Probes.{
  Args, Moment, Probe, readdir, lookup, probed, probed-EachFits, first_pos, EachFits,
}

-- The end of a directory that is read up to `pos`.
abbrev at_pos : ℕ → Moment
at_pos p = record {
  groups = record { tgid = pos 4; fid_count = pos 0; threads = []; fibers = [] } ∷ [];
  file_inode = λ f. f;
  ctx_pos = λ c. p;
  get_proc_task = λ i. some (pos 4);
}

abbrev args : Args
args = record { di = 1; si = 2 }

-- A name is looked up, the directory is read twice, and a name is looked up again.
abbrev reads : List Probe
reads =
    lookup (at_pos 0) args
    ∷ readdir (at_pos 40) args
    ∷ readdir (at_pos 50) args
    ∷ lookup (at_pos 0) args
    ∷ []

probed-EachFits_example : EachFits (first_pos reads) (probed linux reads 0)
probed-EachFits_example =
    probed-EachFits linux reads ((omega arith, omega arith), ((omega arith, omega arith), tt))
