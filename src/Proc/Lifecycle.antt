-- ===== src/Proc/Lifecycle.antt =====
-- The kernel's routines as steps of the process table.
use xv7_mirror.Base.{ℕ, ◌≡◌, ◌≤◌, refl, Bool, Option, some, arith, get_elem?, replicate}
use xv7_mirror.Proc.{
  Proc, Table, Chan, allocproc, fork_copy, wakeup1, kill, wait, exit, run_slot, yield, sleep, awake,
}
use xv7_mirror.Proc.Pids.{
  Live, PidsOk, Fewer-PidsOk, allocproc-PidsOk, own-Fewer, wakeup1-Fewer, kill-Fewer, wait-Fewer,
  fork_copy-Fewer, run_slot-Fewer,
}
use xv7_mirror.Proc.ExitPids.{exit-Fewer}

-- The table, and the number of the next process.
pub record Ptable : Type 0 where
  pub procs : Table
  pub nextpid : ℕ

abbrev pub with_procs : Ptable → Table → Ptable
with_procs s t = record s { procs = t }

-- One routine that holds the lock. The routines that change the process that calls them, or a child
-- that it has just allocated, find it in its slot.
pub data Step (s : Ptable) : Ptable → Type 0 where
  alloc :
      (page : ℕ)
      → Step s (record {
        procs = (allocproc page s.nextpid s.procs).2;
        nextpid = (allocproc page s.nextpid s.procs).1;
      })
  copy :
      (cur np pgdir : ℕ) (p c : Proc)
      → get_elem? s.procs np ≡ some c
      → Live c
      → Step s (with_procs s (fork_copy cur np pgdir p s.procs).1)
  wakeup : (c : Chan) → Step s (with_procs s (wakeup1 c s.procs))
  signal : (pid sig : ℕ) → Step s (with_procs s (kill pid sig s.procs).1)
  waits : (cur : ℕ) (killed : Bool) → Step s (with_procs s (wait cur killed s.procs).1)
  exits :
      (cur init : ℕ) (parent : Option ℕ) (p : Proc) {t : Table}
      → get_elem? s.procs cur ≡ some p
      → Live p
      → exit cur init parent s.procs ≡ some t
      → Step s (with_procs s t)
  picked : (i : ℕ) → Step s (with_procs s (run_slot i s.procs))
  yields :
      (cur : ℕ) (p : Proc)
      → get_elem? s.procs cur ≡ some p
      → Live p
      → Step s (with_procs s (yield cur s.procs))
  sleeps :
      (cur : ℕ) (c : Chan) (p : Proc)
      → get_elem? s.procs cur ≡ some p
      → Live p
      → Step s (with_procs s (sleep cur c s.procs))
  wakes :
      (cur : ℕ) (p : Proc)
      → get_elem? s.procs cur ≡ some p
      → Live p
      → Step s (with_procs s (awake cur s.procs))

pub data Reach (s : Ptable) : Ptable → Type 0 where
  here : Reach s s
  next : {t u : Ptable} → Reach s t → Step t u → Reach s u

pub record IsValid (s : Ptable) : Type 0 where
  pub positive : 1 ≤ s.nextpid
  pub pids : PidsOk s.procs s.nextpid

Step-IsValid : {s t : Ptable} → Step s t → IsValid s → IsValid t
unfolding yield sleep awake
Step-IsValid {s} (alloc page) v =
    let (ok, grows) = allocproc-PidsOk page s.nextpid s.procs v.positive v.pids in
    record { positive = omega (arith, v.positive, grows); pids = ok }
Step-IsValid {s} (copy cur np pgdir p c e l) v = record {
  positive = v.positive;
  pids = Fewer-PidsOk (fork_copy-Fewer cur np pgdir p c s.procs e l) v.pids;
}
Step-IsValid {s} (wakeup c) v = record {
  positive = v.positive;
  pids = Fewer-PidsOk (wakeup1-Fewer c s.procs) v.pids;
}
Step-IsValid {s} (signal pid sig) v = record {
  positive = v.positive;
  pids = Fewer-PidsOk (kill-Fewer pid sig s.procs) v.pids;
}
Step-IsValid {s} (waits cur killed) v = record {
  positive = v.positive;
  pids = Fewer-PidsOk (wait-Fewer cur killed s.procs) v.pids;
}
Step-IsValid {s} (exits cur init parent p e l h) v = record {
  positive = v.positive;
  pids = Fewer-PidsOk (exit-Fewer cur init parent s.procs p e l h) v.pids;
}
Step-IsValid {s} (picked i) v = record {
  positive = v.positive;
  pids = Fewer-PidsOk (run_slot-Fewer i s.procs) v.pids;
}
Step-IsValid {s} (yields cur p e l) v = record {
  positive = v.positive;
  pids = Fewer-PidsOk (own-Fewer _ s.procs cur p e l (λ q. refl)) v.pids;
}
Step-IsValid {s} (sleeps cur c p e l) v = record {
  positive = v.positive;
  pids = Fewer-PidsOk (own-Fewer _ s.procs cur p e l (λ q. refl)) v.pids;
}
Step-IsValid {s} (wakes cur p e l) v = record {
  positive = v.positive;
  pids = Fewer-PidsOk (own-Fewer _ s.procs cur p e l (λ q. refl)) v.pids;
}

pub Reach-IsValid : {s t : Ptable} → Reach s t → IsValid s → IsValid t
Reach-IsValid here v = v
Reach-IsValid (next r st) v = Step-IsValid st (Reach-IsValid r v)

-- The table at boot: `n` free slots, and the first number to give.
unfoldable pub boot : Proc → ℕ → Ptable
boot p n = record { procs = replicate n p; nextpid = 1 }
