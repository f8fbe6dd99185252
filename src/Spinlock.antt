-- ===== src/Spinlock.antt =====
-- kernel/spinlock.c: spin locks, and the nesting of disabled interrupts behind them.
-- A cpu is its number with the state that the code keeps of it; `flag` is the interrupt flag. The
-- exchange in `acquire` is one step; a cpu that finds the lock taken tries again.
pub mod Nesting
pub mod Exclusion
mod Examples
use xv7_mirror.Base.{
  ℕ, zero, suc, ◌+◌, ◌-◌, Bool, true, false, ◌&&◌, Option, none, some, ◌==◌, if◌then◌else◌,
}

-- `ncli` and `intena` of `struct cpu`, and FL_IF.
pub record Cpu : Type 0 where
  pub flag : Bool
  pub ncli : ℕ
  pub intena : Bool

-- `struct spinlock`, less its name and the call stack.
pub record Spinlock : Type 0 where
  pub locked : Bool
  pub cpu : Option ℕ

abbrev pub is_cpu : ℕ → Option ℕ → Bool
is_cpu k none = false
is_cpu k (some j) = j == k

pub pushcli : Cpu → Cpu
pushcli c = record {
  flag = false;
  ncli = c.ncli + 1;
  intena = if c.ncli == 0 then c.flag else c.intena;
}

-- `popcli`; `none` is either panic.
pub popcli : Cpu → Option Cpu
popcli c =
    if c.flag
    then none
    else if c.ncli == 0
    then none
    else some (record c { flag = (c.ncli - 1 == 0) && c.intena; ncli = c.ncli - 1 })

held_by : ℕ → Spinlock → Option Cpu → Option (Bool × Cpu)
held_by k l none = none
held_by k l (some c) = some (l.locked && is_cpu k l.cpu, c)

-- `holding`
pub holding : ℕ → Cpu → Spinlock → Option (Bool × Cpu)
unfolding held_by
holding k c l = held_by k l (popcli (pushcli c))

-- How a call goes: it stops the machine, finds the lock taken, or has it.
pub data Acquired : Type 0 where
  panics : Acquired
  spins : Cpu → Acquired
  acquired : Cpu → Spinlock → Acquired

-- One round of the loop of `acquire`.
pub try : ℕ → Cpu → Spinlock → Acquired
try k c l = if l.locked then spins c else acquired c (record { locked = true; cpu = some k })

unless_held : ℕ → Spinlock → Option (Bool × Cpu) → Acquired
unless_held k l none = panics
unless_held k l (some (true, c)) = panics
unless_held k l (some (false, c)) = try k c l

-- `acquire` up to its first round.
pub acquire : ℕ → Cpu → Spinlock → Acquired
unfolding unless_held try
acquire k c l = unless_held k l (holding k (pushcli c) l)

set_free : Option Cpu → Option (Cpu × Spinlock)
set_free none = none
set_free (some c) = some (c, record { locked = false; cpu = none })

if_held : Option (Bool × Cpu) → Option (Cpu × Spinlock)
unfolding set_free
if_held none = none
if_held (some (false, c)) = none
if_held (some (true, c)) = set_free (popcli c)

-- `release`; `none` is a panic.
pub release : ℕ → Cpu → Spinlock → Option (Cpu × Spinlock)
unfolding if_held
release k c l = if_held (holding k c l)
