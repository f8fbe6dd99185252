-- ===== src/Dinode/Examples.antt =====
-- An inode on a small device: written, read, locked, allocated.
use xv7_mirror.Base.{◌+◌, refl, true, false, some, [], ◌∷◌, arith}
use xv7_mirror.FreeMap.{Blocks}
use xv7_mirror.Inode.{Icache}
use xv7_mirror.Dinode.{Fields, MemInode, iupdate, ilock, ialloc}
use xv7_mirror.Dinode.Stored.{Fits}
use xv7_mirror.Dinode.Update.{Others, IsStale, IsLoaded, ilock-iupdate}
use xv7_mirror.Dinode.Alloc.{Ialloc, ialloc_lem}
use xv7_mirror.Dinode.Holding.{Ilock, ilock_lem}

abbrev blank : Blocks
blank b a = 0

abbrev a_file : Fields
a_file = record {
  type = 2;
  major = 0;
  minor = 0;
  nlink = 1;
  size = 70000;
  addrs = λ i. 600 + i;
  atime = 1;
  mtime = 2;
}

abbrev a_node : MemInode
a_node = record {
  inum = 9;
  ref = 1;
  lock = record { locked = false; pid = 0; asleep = [] };
  valid = true;
  fields = a_file;
}

abbrev a_copy : MemInode
a_copy = record a_node { valid = false; fields = record a_file { size = 0; nlink = 5 } }

a_file-Fits : Fits a_file
a_file-Fits = record {
  type = omega arith;
  major = omega arith;
  minor = omega arith;
  nlink = omega arith;
  size = omega arith;
  addrs = λ i lt. omega arith;
  atime = omega arith;
  mtime = omega arith;
}

a_copy-IsStale : IsStale 9 a_copy
a_copy-IsStale = record { number = refl; used = omega arith; free = refl; stale = refl }

ilock-iupdate_example :
    IsLoaded 3 a_file a_copy (ilock 32 3 (iupdate 32 a_node blank) (some a_copy))
    × Others 32 9 blank (iupdate 32 a_node blank)
ilock-iupdate_example =
    ilock-iupdate 32 3 a_node a_copy blank a_file-Fits (λ e. omega (arith, e)) a_copy-IsStale

-- On a blank device there is no type, which `ilock` finds out.
ilock_lem_example : Ilock 32 3 blank a_copy (ilock 32 3 blank (some a_copy))
ilock_lem_example = ilock_lem 32 3 blank a_copy

abbrev one_entry : Icache
one_entry = record { dev = 0; inum = 0; ref = 0; valid = false; type = 0; nlink = 0 } ∷ []

ialloc_lem_example : Ialloc 32 200 1 2 one_entry blank (ialloc 32 200 1 2 one_entry blank)
ialloc_lem_example = ialloc_lem 32 200 1 2 one_entry blank (omega arith)
