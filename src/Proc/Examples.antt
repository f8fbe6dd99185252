-- ===== src/Proc/Examples.antt =====
-- Runs of kernel/proc.c on a table of three processes.

use xv7_mirror.Base.{ℕ, false, [], ◌∷◌, Option, none, some, replicate}
use xv7_mirror.Proc.{Proc, ProcState, Table, unused, sleeping, running, zombie, nowhere, wait}
use xv7_mirror.Proc.Wait.{WaitSpec, wait_lem}

abbrev proc : ProcState → ℕ → Option ℕ → Proc
proc s n o = record {
  sz = 0;
  pgdir = 0;
  kstack = 0;
  state = s;
  pid = n;
  parent = o;
  chan = nowhere;
  killed = false;
  ofile = replicate 16 0;
  cwd = 0;
  name = replicate 16 0;
  pending = 0;
  blocked = 0;
  handlers = replicate 32 0;
  sig_tf = 0;
}

-- init, a child of it, a child of that, and a free slot.
abbrev family : Table
family =
    proc sleeping 1 none
    ∷ proc running 2 (some 0)
    ∷ proc zombie 3 (some 1)
    ∷ proc unused 0 none
    ∷ []

wait_lem_example : let (o, u) = wait 1 false family in WaitSpec 1 false family u o
wait_lem_example = wait_lem 1 false family

abbrev free_slot : Proc
free_slot = proc unused 0 none
