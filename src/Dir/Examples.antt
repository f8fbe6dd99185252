-- ===== src/Dir/Examples.antt =====
-- The theorems on directories at a small one, whose two entries have the name of fourteen bytes 7.
use xv7_mirror.Base.{ℕ, none, Option}
use xv7_mirror.Str.{Mem}
use xv7_mirror.Bmap.Examples.{file}
use xv7_mirror.FileData.{FileInode, Handler}

abbrev directory : FileInode
directory = record {
  type = 1;
  major = 0;
  size = 32;
  atime = 1;
  mtime = 1;
  modtime = 1;
  content = file;
}

abbrev no_devices : ℕ → Option Handler
no_devices k = none

abbrev memory : Mem
memory a = 9
