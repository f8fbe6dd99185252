-- ===== src/File.antt =====
-- kernel/file.c: the table of open files with its reference counts, and `filewrite` in pieces; and
-- `pipealloc` of kernel/pipe.c, which takes two files from the table.
-- The table is a list, a file its index. `iput`, `pipeclose`, `readi` and `writei` belong to other
-- parts: what is called is part of the result, or a parameter. The lock is left out: each operation
-- is one critical section.
pub mod Refs
pub mod Holders
pub mod Pipes
pub mod Chunks
mod Examples
use xv7_mirror.Base.Modify.{modify}
use xv7_mirror.Base.{
  ℕ, zero, suc, ◌+◌, ◌-◌, ◌*◌, ◌/◌, ◌%◌, ◌^◌, Bool, true, false, ◌&&◌, not, Option, none, some,
  List, [], ◌∷◌, ltb, ◌==◌, if◌then◌else◌, get_elem?,
}

pub data FileType : Type 0 where
  fd_none fd_pipe fd_inode : FileType

-- `struct file`; `pipe` and `ip` are addresses.
pub record File : Type 0 where
  pub type : FileType
  pub ref : ℕ
  pub readable : Bool
  pub writable : Bool
  pub pipe : ℕ
  pub ip : ℕ
  pub off : ℕ
  pub flags : ℕ

abbrev pub Ftable : Type 0
Ftable = List File

-- `filealloc`: the file (none is the null result), and the table.
pub filealloc : Ftable → Option ℕ × Ftable
filealloc [] = (none, [])
filealloc (f ∷ fs) =
    let (found, gs) = filealloc fs in
    if f.ref == 0
    then (some 0, record f { ref = 1 } ∷ fs)
    else (elim found [ none ↦ none | some i ↦ some (suc i) ], f ∷ gs)

dup_at : ℕ → Option File → Ftable → Option Ftable
dup_at i none t = none
dup_at i (some f) t =
    if ltb f.ref 1 then none else some (modify t i (λ g. record g { ref = g.ref + 1 }))

-- `filedup`; `none` is the panic.
pub filedup : ℕ → Ftable → Option Ftable
unfolding dup_at
filedup i t = dup_at i (get_elem? t i) t

-- What `fileclose` does with the object behind the last reference.
pub data Last : Type 0 where
  nothing : Last
  closes : (pipe : ℕ) → (writable : Bool) → Last
  puts : (ip : ℕ) → Last

pub last_of : File → Last
last_of f = elim f.type [
  | fd_none ↦ nothing
  | fd_pipe ↦ closes f.pipe f.writable
  | fd_inode ↦ puts f.ip
]

-- How `fileclose` goes.
pub data Closed : Type 0 where
  panics : Closed
  kept : Ftable → Closed
  gone : Last → Ftable → Closed

close_at : ℕ → Option File → Ftable → Closed
unfolding last_of
close_at i none t = panics
close_at i (some f) t =
    if ltb f.ref 1
    then panics
    else if ltb 0 (f.ref - 1)
    then kept (modify t i (λ g. record g { ref = g.ref - 1 }))
    else gone (last_of f) (modify t i (λ g. record g { ref = 0; type = fd_none }))

pub fileclose : ℕ → Ftable → Closed
unfolding close_at
fileclose i t = close_at i (get_elem? t i) t

-- The table that `fileclose` leaves; a panic leaves none.
abbrev pub closed_table : Closed → Option Ftable
closed_table panics = none
closed_table (kept t) = some t
closed_table (gone l t) = some t

-- The two ends that `pipealloc` sets up around the pipe at `page`.
abbrev pub read_side : ℕ → File → File
read_side page f = record f { type = fd_pipe; readable = true; writable = false; pipe = page }

abbrev pub write_side : ℕ → File → File
write_side page f = record f { type = fd_pipe; readable = false; writable = true; pipe = page }

-- How `pipealloc` goes: the two files and the table; or the -1 with the table; or the panic of a
-- `fileclose`.
pub data Piped : Type 0 where
  piped : ℕ → ℕ → Ftable → Piped
  refused : Ftable → Piped
  stops : Piped

back : Option Ftable → Piped
back none = stops
back (some t) = refused t

pipe_page : ℕ → ℕ → ℕ → Ftable → Piped
unfolding back
pipe_page i j page t =
    if page == 0
    then elim (closed_table (fileclose i t)) [
      | none ↦ stops
      | some u ↦ back (closed_table (fileclose j u))
    ]
    else piped i j (modify (modify t i (read_side page)) j (write_side page))

pipe_second : ℕ → ℕ → Option ℕ × Ftable → Piped
unfolding pipe_page back
pipe_second i page (none, t) = back (closed_table (fileclose i t))
pipe_second i page (some j, t) = pipe_page i j page t

pipe_first : ℕ → Option ℕ × Ftable → Piped
unfolding pipe_second
pipe_first page (none, t) = refused t
pipe_first page (some i, t) = pipe_second i page (filealloc t)

-- `pipealloc`, `page` being the result of `kalloc`.
pub pipealloc : ℕ → Ftable → Piped
unfolding pipe_first
pipealloc page t = pipe_first page (filealloc t)

-- `((MAXOPBLOCKS - 1 - 1 - 2) / 2) * 512`
abbrev pub max_chunk : ℕ
max_chunk = (20 - 1 - 1 - 2) / 2 * 512

-- How the loop of `filewrite` over an inode goes.
pub data Written {ℓ} (S : Type ℓ) : Type ℓ where
  all : (off : ℕ) → S → Written S
  error : (off : ℕ) → S → Written S
  short : Written S
  no_fuel : Written S

module _ {ℓ} {S : Type ℓ} (writei : S → (from off n : ℕ) → Option ℕ × S) where
  -- The rounds from byte `i` on; `writei` gets the place in `addr`, the offset and the number of
  -- bytes, and `none` is its -1.
  pub chunk_loop : (fuel i n off : ℕ) → S → Written S
  chunk_loop zero i n off s = if ltb i n then no_fuel else all off s
  chunk_loop (suc fuel) i n off s =
      let n1 = if ltb max_chunk (n - i) then max_chunk else n - i in
      let (r, s') = writei s i off n1 in
      if ltb i n
      then elim r [
        | none ↦ error off s'
        | some k ↦ if k == n1 then chunk_loop fuel (i + k) n (off + k) s' else short
      ]
      else all off s
