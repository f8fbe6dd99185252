-- ===== src/Proc.antt =====
-- kernel/proc.c: the process table, and what each routine does to it while it holds `ptable.lock`.
-- A process is the slot of its `struct proc` in the table. The trap frame and the saved context lie
-- in the kernel stack and are not modelled, nor is the switch between stacks: `sched` is the point
-- where a routine of this file ends. Pages come from `kalloc`, whose result (0 if it fails) is an
-- argument.
pub mod Slots
pub mod Wakeup
pub mod Wait
pub mod Moved
pub mod Exit
pub mod ExitPids
pub mod Pids
pub mod Kill
pub mod Lifecycle
mod Examples
use Prim.Native.Nat.{bit_or}
use xv7_mirror.Str.{safestrcpy}
use xv7_mirror.Base.{
  ℕ, zero, suc, ◌+◌, ◌*◌, ◌%◌, ◌^◌, Bool, true, false, ◌&&◌, ◌||◌, not, Option, none, some, List,
  [], ◌∷◌, ltb, ◌==◌, if◌then◌else◌, length, get_elem?, set, replicate,
}

pub data ProcState : Type 0 where
  unused embryo sleeping runnable running zombie : ProcState

abbrev pub is_unused : ProcState → Bool
is_unused unused = true
is_unused _ = false

abbrev pub is_sleeping : ProcState → Bool
is_sleeping sleeping = true
is_sleeping _ = false

abbrev pub is_runnable : ProcState → Bool
is_runnable runnable = true
is_runnable _ = false

abbrev pub is_zombie : ProcState → Bool
is_zombie zombie = true
is_zombie _ = false

-- What a process sleeps on: nothing, a process, or another kernel address.
pub data Chan : Type 0 where
  nowhere : Chan
  of_proc : ℕ → Chan
  at : ℕ → Chan

abbrev pub same_chan : Chan → Chan → Bool
same_chan nowhere nowhere = true
same_chan (of_proc i) (of_proc j) = i == j
same_chan (at a) (at b) = a == b
same_chan _ _ = false

-- `struct proc`; `parent` is a slot, `ofile`, `cwd`, `handlers` and `sig_tf` hold addresses.
pub record Proc : Type 0 where
  pub sz : ℕ
  pub pgdir : ℕ
  pub kstack : ℕ
  pub state : ProcState
  pub pid : ℕ
  pub parent : Option ℕ
  pub chan : Chan
  pub killed : Bool
  pub ofile : List ℕ
  pub cwd : ℕ
  pub name : List ℕ
  pub pending : ℕ
  pub blocked : ℕ
  pub handlers : List ℕ
  pub sig_tf : ℕ

abbrev pub Table : Type 0
Table = List Proc

abbrev pub is_parent : ℕ → Option ℕ → Bool
is_parent i none = false
is_parent i (some j) = j == i

-- Apply a change to the process in a slot.
abbrev pub adjust : Table → ℕ → (Proc → Proc) → Table
adjust [] i f = []
adjust (p ∷ ps) zero f = f p ∷ ps
adjust (p ∷ ps) (suc i) f = p ∷ adjust ps i f

-- The search of `allocproc`: the first free slot.
pub find_unused : Table → Option ℕ
find_unused [] = none
find_unused (p ∷ ps) =
    if is_unused p.state
    then some 0
    else elim (find_unused ps) [ none ↦ none | some i ↦ some (suc i) ]

-- What the `found` part sets while it holds the lock.
pub embryo_of : ℕ → Proc → Proc
embryo_of pid p = record p {
  state = embryo;
  pid = pid;
  pending = 0;
  blocked = 0;
  handlers = replicate 32 0;
  sig_tf = 0;
}

alloc_stack : ℕ → ℕ → Table → Option ℕ × Table
alloc_stack page i t =
    if page == 0
    then (none, adjust t i (λ p. record p { kstack = 0; state = unused }))
    else (some i, adjust t i (λ p. record p { kstack = page }))

alloc_at : ℕ → ℕ → Table → Option ℕ → Option ℕ × ℕ × Table
alloc_at page nextpid t none = (none, nextpid, t)
alloc_at page nextpid t (some i) =
    let (found, t') = alloc_stack page i (adjust t i (embryo_of nextpid)) in
    (found, nextpid + 1, t')

-- `allocproc`: the slot (none is the null result), `nextpid` and the table.
pub allocproc : (page nextpid : ℕ) → Table → Option ℕ × ℕ × Table
unfolding alloc_at alloc_stack
allocproc page nextpid t = alloc_at page nextpid t (find_unused t)

-- The child gets a copy of each open file; its other entries stay as they are.
copy_files : (mine its : List ℕ) → List ℕ
copy_files [] its = its
copy_files (f ∷ fs) [] = []
copy_files (f ∷ fs) (g ∷ gs) = (if f == 0 then g else f) ∷ copy_files fs gs

-- `fork` behind `allocproc`, for a child in slot `np`: `pgdir` is the result of `copyuvm`, and the
-- file and directory references were taken by `filedup` and `idup`, which return their arguments.
-- The child of a failed copy loses its stack and its slot.
pub fork_copy : (cur np pgdir : ℕ) → Proc → Table → Option ℕ × Table
unfolding copy_files
fork_copy cur np pgdir p t =
    if pgdir == 0 then (none, adjust t np (λ c. record c { kstack = 0; state = unused })) else (
      some np,
      adjust t np λ c. record c {
        pgdir = pgdir;
        sz = p.sz;
        parent = some cur;
        ofile = copy_files p.ofile c.ofile;
        cwd = p.cwd;
        name = safestrcpy c.name p.name 16;
        state = runnable;
      },
    )

pub wake : Chan → Proc → Proc
wake c p = if is_sleeping p.state && same_chan p.chan c then record p { state = runnable } else p

-- `wakeup1`, and `wakeup` around it.
pub wakeup1 : Chan → Table → Table
unfolding wake
wakeup1 c [] = []
wakeup1 c (p ∷ ps) = wake c p ∷ wakeup1 c ps

abbrev pub sigkill : ℕ
sigkill = 9

-- What `kill` does to the process that it finds.
pub signal : ℕ → Proc → Proc
signal sig p =
    let q =
      if sig == sigkill
      then record p { killed = true }
      else record p { pending = bit_or p.pending (2 ^ sig % 2 ^ 32) } in
    if is_sleeping q.state then record q { state = runnable } else q

pub kill_loop : (pid sig : ℕ) → Table → Bool × Table
unfolding signal
kill_loop pid sig [] = (false, [])
kill_loop pid sig (p ∷ ps) =
    if p.pid == pid
    then (true, signal sig p ∷ ps)
    else let (found, qs) = kill_loop pid sig ps in (found, p ∷ qs)

-- `kill`, for a signal below 32: whether it returns 0, and the table.
pub kill : (pid sig : ℕ) → Table → Bool × Table
unfolding kill_loop
kill pid sig t = if pid == 1 then (false, t) else kill_loop pid sig t

-- The fields that `wait` clears in a child that has exited.
pub reap : Proc → Proc
reap p = record p {
  kstack = 0;
  pid = 0;
  parent = none;
  name = set p.name 0 0;
  killed = false;
  sig_tf = 0;
  state = unused;
}

-- One turn of the loop of `wait`.
pub data WaitTurn : Type 0 where
  returns : ℕ → WaitTurn
  fails : WaitTurn
  sleeps : WaitTurn

-- The scan for exited children of slot `cur`: what was found, and the table.
pub data Scan : Type 0 where
  reaped : ℕ → Scan
  seen : (havekids : Bool) → Scan

pub scan : ℕ → Bool → Table → Scan × Table
scan cur havekids [] = (seen havekids, [])
scan cur havekids (p ∷ ps) =
    let (found, qs) = scan cur (if is_parent cur p.parent then true else havekids) ps in
    if is_parent cur p.parent && is_zombie p.state
    then (reaped p.pid, reap p ∷ ps)
    else (found, p ∷ qs)

wait_end : Bool → Scan → WaitTurn
wait_end killed (reaped pid) = returns pid
wait_end killed (seen havekids) = if not havekids || killed then fails else sleeps

-- `wait` of the process in slot `cur`, up to where it returns or goes to sleep on itself.
pub wait : ℕ → Bool → Table → WaitTurn × Table
unfolding wait_end
wait cur killed t = let (found, t') = scan cur false t in (wait_end killed found, t')

adopt : (init : ℕ) → Bool → Table → Table
adopt init exited t = if exited then wakeup1 (of_proc init) t else t

-- One turn of the loop of `exit` over the children.
abandon : (cur init i : ℕ) → Proc → Table → Table
abandon cur init i p t =
    if is_parent cur p.parent
    then adopt init (is_zombie p.state) (adjust t i (λ q. record q { parent = some init }))
    else t

abandon_at : (cur init i : ℕ) → Option Proc → Table → Table
unfolding abandon adopt
abandon_at cur init i none t = t
abandon_at cur init i (some p) t = abandon cur init i p t

-- `n` turns, from slot `i` on.
pub abandon_loop : (cur init : ℕ) → ℕ → ℕ → Table → Table
unfolding abandon_at
abandon_loop cur init zero i t = t
abandon_loop cur init (suc n) i t =
    abandon_loop cur init n (i + 1) (abandon_at cur init i (get_elem? t i) t)

pub wake_parent : Option ℕ → Table → Table
wake_parent none t = wakeup1 nowhere t
wake_parent (some j) t = wakeup1 (of_proc j) t

-- What `exit` does under the lock, the files and the directory of slot `cur` being closed; `none` is
-- the panic "init exiting".
pub exit : (cur init : ℕ) → Option ℕ → Table → Option Table
unfolding wake_parent abandon_loop
exit cur init parent t =
    if cur == init
    then none
    else let t' = adjust t cur (λ p. record p { ofile = replicate 16 0; cwd = 0 }) in
      let t'' = abandon_loop cur init (length t') 0 (wake_parent parent t') in
      some (adjust t'' cur (λ p. record p { state = zombie }))

-- The turn of `scheduler` that picks slot `i`; other slots are passed over.
pub run_slot : ℕ → Table → Table
run_slot i t = adjust t i (λ p. if is_runnable p.state then record p { state = running } else p)

-- `yield` and `sleep` of the process in slot `cur`, up to `sched`.
unfoldable pub yield : ℕ → Table → Table
yield cur t = adjust t cur (λ p. record p { state = runnable })

unfoldable pub sleep : ℕ → Chan → Table → Table
sleep cur c t = adjust t cur (λ p. record p { chan = c; state = sleeping })

-- `sleep` behind `sched`.
unfoldable pub awake : ℕ → Table → Table
awake cur t = adjust t cur (λ p. record p { chan = nowhere })
