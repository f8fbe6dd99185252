-- ===== src/Inode.antt =====
-- kernel/fs.c: the cache of inodes in memory: iget, idup, iput.
-- The table is a list, an inode its index. The content of an inode is that of FileData, its form on the
-- disk that of Dinode; `iput` says whether it frees the inode on the disk. Each critical section under
-- `icache.lock` is one operation; the sleep lock of an inode is left out.
pub mod Find
pub mod Once
pub mod Sharing
mod Examples
use xv7_mirror.Base.Modify.{modify}
use xv7_mirror.Base.{
  ℕ, zero, suc, ◌+◌, ◌-◌, Bool, true, false, ◌&&◌, Option, none, some, List, [], ◌∷◌, ltb, ◌==◌,
  if◌then◌else◌, get_elem?,
}

-- `struct inode`, less its lock, content and times.
pub record Inode : Type 0 where
  pub dev : ℕ
  pub inum : ℕ
  pub ref : ℕ
  pub valid : Bool
  pub type : ℕ
  pub nlink : ℕ

abbrev pub Icache : Type 0
Icache = List Inode

-- `ip->ref > 0 && ip->dev == dev && ip->inum == inum`
abbrev pub active : ℕ → ℕ → Inode → Bool
active dev inum ip = ltb 0 ip.ref && ((ip.dev == dev) && (ip.inum == inum))

-- What the loop of `iget` ends with.
pub data Search : Type 0 where
  hit : ℕ → Search
  miss : (empty : Option ℕ) → Search

-- `if (empty == 0 && ip->ref == 0) empty = ip`
abbrev pub remember : ℕ → Inode → Option ℕ → Option ℕ
remember i ip (some e) = some e
remember i ip none = if ip.ref == 0 then some i else none

-- The loop, from entry `i` on.
pub search : ℕ → ℕ → ℕ → Option ℕ → Icache → Search
search dev inum i empty [] = miss empty
search dev inum i empty (ip ∷ ips) =
    let rest = search dev inum (i + 1) (remember i ip empty) ips in
    if active dev inum ip then hit i else rest

abbrev pub add_ref : Inode → Inode
add_ref ip = record ip { ref = ip.ref + 1 }

abbrev pub recycle : ℕ → ℕ → Inode → Inode
recycle dev inum ip = record ip { dev = dev; inum = inum; ref = 1; valid = false }

iget_found : ℕ → ℕ → Icache → Search → Option (ℕ × Icache)
iget_found dev inum t (hit i) = some (i, modify t i add_ref)
iget_found dev inum t (miss none) = none
iget_found dev inum t (miss (some i)) = some (i, modify t i (recycle dev inum))

-- `iget`; `none` is the panic "no inodes".
pub iget : ℕ → ℕ → Icache → Option (ℕ × Icache)
unfolding iget_found
iget dev inum t = iget_found dev inum t (search dev inum 0 none t)

-- `idup`
unfoldable pub idup : ℕ → Icache → Icache
idup i t = modify t i add_ref

-- The test of `iput` for the last reference to an inode without links.
abbrev pub unlinked : Inode → Bool
unlinked ip = (ip.valid && (ip.nlink == 0)) && (ip.ref == 1)

-- `iput` of a reference that is held.
abbrev pub put_ref : Inode → Inode
put_ref ip =
    if unlinked ip
    then record ip { type = 0; valid = false; ref = ip.ref - 1 }
    else record ip { ref = ip.ref - 1 }

iput_at : ℕ → Option Inode → Icache → Bool × Icache
iput_at i none t = (false, t)
iput_at i (some ip) t = (unlinked ip, modify t i put_ref)

-- Whether the inode is freed on the disk, and the table.
pub iput : ℕ → Icache → Bool × Icache
unfolding iput_at
iput i t = iput_at i (get_elem? t i) t
