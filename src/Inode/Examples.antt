-- ===== src/Inode/Examples.antt =====
-- Runs of the inode cache of kernel/fs.c with two entries.
use xv7_mirror.Base.Modify.{modify}
use xv7_mirror.Base.{ℕ, ◌≡◌, refl, true, false, some, [], ◌∷◌, get_elem?, replicate}
use xv7_mirror.Inode.{Inode, Icache, active, add_ref, search, iget, iget_found}
use xv7_mirror.Inode.Once.{Unique}
use xv7_mirror.Inode.Sharing.{here, next, gets, inodes_shared}

abbrev free_entry : Inode
free_entry = record { dev = 0; inum = 0; ref = 0; valid = false; type = 0; nlink = 0 }

-- The root directory, looked up once.
abbrev with_root : Icache
with_root = record free_entry { dev = 1; inum = 1; ref = 1 } ∷ free_entry ∷ []

iget_test : iget 1 1 (replicate 2 free_entry) ≡ some (0, with_root)
unfolding iget iget_found search
iget_test = refl

inodes_shared_example :
    Unique with_root
    × ((dev inum i : ℕ) (ip : Inode)
        → get_elem? with_root i ≡ some ip
        → active dev inum ip ≡ true
        → iget dev inum with_root ≡ some (i, modify with_root i add_ref))
inodes_shared_example = inodes_shared 2 free_entry refl (next here (gets 1 1 0 iget_test))
