-- ===== src/Pipe.antt =====
-- kernel/pipe.c: the ring of bytes behind a pipe, its two open flags, and the blocking loops.
-- A loop that blocks is modelled up to the point where it sleeps: `pipewrite` and `piperead` give
-- the outcome of one activation, made with the pipe's lock held, and `asleep` means that the caller
-- waits on its channel and starts again, with the rest of its bytes, when it is woken. Each call of
-- `wakeup` is recorded in order. `killed` is the flag of the calling process, which one activation
-- tests at most once.
pub mod Ring
pub mod Write
pub mod Read
pub mod Fifo
pub mod Close
mod Examples
use xv7_mirror.Base.{
  ℕ, zero, suc, ◌+◌, ◌%◌, ◌^◌, Bool, true, false, not, ◌&&◌, ◌||◌, Option, none, some, List, [],
  ◌∷◌, ◌==◌, if◌then◌else◌, get_or, set,
}

abbrev pub pipesize : ℕ
pipesize = 512

-- `struct pipe`, less its lock.
pub record Pipe : Type 0 where
  pub bytes : List ℕ
  pub nread : ℕ
  pub nwrite : ℕ
  pub readopen : Bool
  pub writeopen : Bool

-- `uint` addition.
abbrev pub add32 : ℕ → ℕ → ℕ
add32 a b = (a + b) % 2 ^ 32

-- The channels that are slept on: `&p->nread` and `&p->nwrite`.
pub data Chan : Type 0 where
  on_nread on_nwrite : Chan

-- How an activation ends. `asleep k` has moved `k` bytes so far.
pub data Outcome : Type 0 where
  returned : ℕ → Outcome
  failed : Outcome
  asleep : ℕ → Outcome

-- What `pipealloc` stores in a page that it got from `kalloc`; the bytes are whatever they were.
pub fresh : List ℕ → Pipe
fresh junk = record { bytes = junk; nread = 0; nwrite = 0; readopen = true; writeopen = true }

-- The channel that is woken, the pipe, and whether its page is freed.
pub pipeclose : Pipe → Bool → Chan × Pipe × Bool
pipeclose p writable =
    if writable
    then (on_nread, record p { writeopen = false }, not p.readopen)
    else (on_nwrite, record p { readopen = false }, not p.writeopen)

-- `p->nwrite == p->nread + PIPESIZE`
abbrev pub full : Pipe → Bool
full p = p.nwrite == add32 p.nread pipesize

-- `p->data[p->nwrite++ % PIPESIZE] = c`
pub put : Pipe → ℕ → Pipe
put p c = record p { bytes = set p.bytes (p.nwrite % pipesize) c; nwrite = add32 p.nwrite 1 }

-- The loop of `pipewrite` over the bytes that are left, `i` being written.
pub write_loop : Bool → Pipe → List ℕ → ℕ → Outcome × List Chan × Pipe
write_loop killed p [] i = (returned i, on_nread ∷ [], p)
write_loop killed p (c ∷ cs) i =
    if full p
    then if not p.readopen || killed then (failed, [], p) else (asleep i, on_nread ∷ [], p)
    else write_loop killed (put p c) cs (i + 1)

pub pipewrite : Bool → Pipe → List ℕ → Outcome × List Chan × Pipe
pipewrite killed p cs = write_loop killed p cs 0

-- `p->nread == p->nwrite`
abbrev pub empty : Pipe → Bool
empty p = p.nread == p.nwrite

-- `p->data[p->nread % PIPESIZE]`
abbrev pub front : Pipe → ℕ
front p = get_or p.bytes (p.nread % pipesize) 0

pub advance : Pipe → Pipe
advance p = record p { nread = add32 p.nread 1 }

-- The copying loop of `piperead`, with `n` rounds left: the bytes copied, and the pipe.
pub copy_loop : ℕ → Pipe → List ℕ × Pipe
copy_loop zero p = ([], p)
copy_loop (suc n) p =
    let (cs, q) = copy_loop n (advance p) in if empty p then ([], p) else (front p ∷ cs, q)

-- How a read ends, with the bytes that it stores at `addr`. The value returned is their number.
pub data ReadOutcome : Type 0 where
  got : List ℕ → ReadOutcome
  interrupted : ReadOutcome
  waiting : ReadOutcome

pub piperead : Bool → Pipe → ℕ → ReadOutcome × List Chan × Pipe
piperead killed p n =
    if empty p && p.writeopen
    then if killed then (interrupted, [], p) else (waiting, [], p)
    else let (cs, q) = copy_loop n p in (got cs, on_nwrite ∷ [], q)
