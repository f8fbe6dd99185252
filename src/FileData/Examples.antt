-- ===== src/FileData/Examples.antt =====
-- The theorems on `readi` and `writei` at a small file.
use xv7_mirror.Base.{ℕ, none, Option}
use xv7_mirror.Str.{Mem}
use xv7_mirror.Bmap.Examples.{file}
use xv7_mirror.FileData.{FileInode, Handler}

abbrev inode : FileInode
inode = record {
  type = 2;
  major = 0;
  size = 300;
  atime = 1;
  mtime = 1;
  modtime = 1;
  content = file;
}

abbrev no_devices : ℕ → Option Handler
no_devices k = none

abbrev buffer : Mem
buffer a = 9
