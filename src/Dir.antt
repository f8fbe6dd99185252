-- ===== src/Dir.antt =====
-- kernel/fs.c: namecmp, dirlookup, dirlink: a directory is a file of entries of 16 bytes.
-- The entry `de` and the name lie in one memory. `dirlink` gives the reference that its `dirlookup` took
-- back at once; it is left out there.
pub mod Names
pub mod Entries
pub mod Lookup
pub mod Link
pub mod Added
pub mod Again
mod Examples
use xv7_mirror.Base.{
  ℕ, zero, suc, ◌+◌, ◌-◌, ◌*◌, ◌/◌, ◌%◌, Bool, true, false, ◌&&◌, not, Option, none, some, ltb,
  ◌==◌, if◌then◌else◌,
}
use xv7_mirror.Str.{Mem, store, strncmp, strncpy}
use xv7_mirror.Str.Cstring.{agrees}
use xv7_mirror.FreeMap.{Superblock}
use xv7_mirror.PathName.{dirsiz}
use xv7_mirror.Inode.{Icache, iget}
use xv7_mirror.FileData.{FileInode, Handler, readi, writei}

-- T_DIR and `sizeof(struct dirent)`
abbrev pub t_dir : ℕ
t_dir = 1

abbrev pub desize : ℕ
desize = 16

-- `de.inum`
abbrev pub entry_inum : Mem → ℕ → ℕ
entry_inum m de = m de + m (de + 1) * 256

-- `namecmp(name, de.name) == 0`
pub same_name : Mem → (name de : ℕ) → Bool
same_name m name de = agrees (strncmp name (de + 2) dirsiz m)

-- `strncpy(de.name, name, DIRSIZ); de.inum = inum;`
pub fill_entry : (name inum de : ℕ) → Mem → Mem
fill_entry name inum de m =
    store (de + 1) (inum / 256 % 256) (store de (inum % 256) (strncpy (de + 2) name dirsiz m))

-- What a routine returns, the directory, and the memory; none is a panic.
abbrev pub Outcome : Type 0 → Type 0
Outcome A = Option (A × FileInode × Mem)

module _ (sb : Superblock) (devsw : ℕ → Option Handler) (now de : ℕ) where
  whole_entry : Outcome (Option ℕ) → Option (FileInode × Mem)
  whole_entry none = none
  whole_entry (some (none, dp, m)) = none
  whole_entry (some (some k, dp, m)) = if k == desize then some (dp, m) else none

  -- `if (readi(dp, (char*)&de, off, sizeof(de)) != sizeof(de)) panic(...)`
  pub read_entry : ℕ → FileInode → Mem → Option (FileInode × Mem)
  unfolding whole_entry
  read_entry off dp m = whole_entry (readi sb devsw now off desize de dp m)

  -- The loop of `dirlookup`: the number of the inode and the offset of the entry.
  pub lookup_loop : ℕ → (name off : ℕ) → FileInode → Mem → Outcome (Option (ℕ × ℕ))
  lookup_loop zero name off dp m = none
  lookup_loop (suc fuel) name off dp m =
      let round : Outcome (Option (ℕ × ℕ)) = elim (read_entry off dp m) [
        | none ↦ none
        | some (dp', m') ↦
            let next = lookup_loop fuel name (off + desize) dp' m' in
            if entry_inum m' de == 0
            then next
            else if same_name m' name de
            then some (some (entry_inum m' de, off), dp', m')
            else next
      ] in
      if ltb off dp.size then round else some (none, dp, m)

  -- `dirlookup` up to its `iget`.
  pub lookup : ℕ → FileInode → Mem → Outcome (Option (ℕ × ℕ))
  unfolding lookup_loop
  lookup name dp m = if dp.type == t_dir then lookup_loop (dp.size + 1) name 0 dp m else none

  get_found : (dev : ℕ) → Icache → Option (ℕ × ℕ) → Option (Option (ℕ × ℕ) × Icache)
  get_found dev t none = some (none, t)
  get_found dev t (some (inum, off)) = elim (iget dev inum t) [
    | none ↦ none
    | some (i, t') ↦ some (some (i, off), t')
  ]

  -- `dirlookup`: the inode in memory and the offset, and the table of inodes.
  pub dirlookup :
      (name dev : ℕ)
      → FileInode
      → Icache
      → Mem
      → Option ((Option (ℕ × ℕ) × Icache) × FileInode × Mem)
  unfolding get_found
  dirlookup name dev dp t m = elim (lookup name dp m) [
    | none ↦ none
    | some (r, dp', m') ↦ elim (get_found dev t r) [ none ↦ none | some g ↦ some (g, dp', m') ]
  ]

  -- `for (...) { ...; if (de.inum == 0) break; }`: the offset at its end.
  pub empty_loop : ℕ → (off : ℕ) → FileInode → Mem → Outcome ℕ
  empty_loop zero off dp m = none
  empty_loop (suc fuel) off dp m =
      let round : Outcome ℕ = elim (read_entry off dp m) [
        | none ↦ none
        | some (dp', m') ↦
            let next = empty_loop fuel (off + desize) dp' m' in
            if entry_inum m' de == 0 then some (off, dp', m') else next
      ] in
      if ltb off dp.size then round else some (off, dp, m)

  whole_write : Mem → Option (Option ℕ × FileInode) → Outcome Bool
  whole_write m none = none
  whole_write m (some (none, dp)) = none
  whole_write m (some (some k, dp)) = if k == desize then some (true, dp, m) else none

  write_entry : (name inum off : ℕ) → FileInode → Mem → Outcome Bool
  unfolding whole_write
  write_entry name inum off dp m =
      let m' = fill_entry name inum de m in whole_write m' (writei sb devsw now off desize de dp m')

  -- `dirlink`: true is the result 0, false is -1.
  pub dirlink : (name inum : ℕ) → FileInode → Mem → Outcome Bool
  unfolding write_entry
  dirlink name inum dp m = elim (lookup name dp m) [
    | none ↦ none
    | some (r, dp', m') ↦ elim r [
      | some found ↦ some (false, dp', m')
      | none ↦ elim (empty_loop (dp'.size + 1) 0 dp' m') [
        | none ↦ none
        | some (off, dp'', m'') ↦ write_entry name inum off dp'' m''
      ]
    ]
  ]
