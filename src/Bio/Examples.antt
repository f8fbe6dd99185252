-- ===== src/Bio/Examples.antt =====
-- Runs of kernel/bio.c on a cache of two buffers.
use xv7_mirror.Base.{ℕ, ◌≡◌, ◌≢◌, refl, true, false, [], ◌∷◌, arith}
use xv7_mirror.Bio.{Disk, Buf, Cache, bread, brelse}
use xv7_mirror.Bio.View.{view}
use xv7_mirror.Bio.Refine.{Good, BreadSpec, bread_lem}
use xv7_mirror.Bio.Release.{brelse_lem}

abbrev disk : Disk
disk dev n = n ∷ []

-- Block 7 of device 1, changed, in use and dirty.
abbrev block_seven : Buf
block_seven = record {
  dev = 1;
  blockno = 7;
  valid = true;
  dirty = true;
  refcnt = 1;
  bytes = 9 ∷ [];
}

abbrev never_used : Buf
never_used = record { dev = 0; blockno = 0; valid = false; dirty = false; refcnt = 0; bytes = [] }

abbrev two_buffers : Cache
two_buffers = block_seven ∷ never_used ∷ []

two_buffers-Good : Good disk two_buffers
two_buffers-Good = record {
  once = ((λ h. refl), ((λ h. refl), tt));
  sound = (
    record { coherent = λ v r. absurd (cc); fresh = λ v. absurd (cc) },
    (record { coherent = λ v r. absurd (cc); fresh = λ v. refl }, tt),
  );
}

bread_lem_example : BreadSpec disk 1 8 two_buffers (bread disk 1 8 two_buffers)
bread_lem_example = bread_lem disk 1 8 two_buffers (omega arith) two_buffers-Good

brelse_lem_example :
    Good disk (brelse 0 two_buffers)
    × ((x y : ℕ) → x ≢ 0 → view disk (brelse 0 two_buffers) x y ≡ view disk two_buffers x y)
brelse_lem_example =
    brelse_lem disk two_buffers 0 block_seven two_buffers-Good refl (omega arith)
      (λ z h v. absurd (cc))
