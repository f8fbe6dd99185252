-- ===== src/FreeMap/Examples.antt =====
-- Tests of the block allocator, and its theorems at a small device.
use xv7_mirror.Base.{ℕ, ◌≡◌, refl, some, none, arith, ◌==◌, if◌then◌else◌, Option}
use xv7_mirror.FreeMap.{Blocks, Superblock, balloc, bfree, is_free, scan_bits, take_bit}
use xv7_mirror.FreeMap.Free.{IsFormatted, Allocates, Frees, balloc_lem, bfree_lem}

-- Twenty blocks, the free map in block 2, blocks 0 to 4 in use.
abbrev pub small : Superblock
small = record { size = 20; bmapstart = 2 }

abbrev pub device : Blocks
device b a = if b == 2 then (if a == 0 then 31 else 0) else 7

pub device-IsFormatted : IsFormatted small device
unfolding is_free
device-IsFormatted = record {
  bytes = λ x a. ground arith;
  maps = λ x m. let e : x ≡ 2 = ground arith in rw e (omega arith, refl);
  boot = refl;
}

first_free : Option ℕ
first_free = elim (balloc small device) [ none ↦ none | some (b, d) ↦ some b ]

first_free-test : first_free ≡ some 5
unfolding first_free balloc scan_bits is_free take_bit
first_free-test = refl

balloc_lem_example : Allocates small device (balloc small device)
balloc_lem_example = balloc_lem small device (omega arith) device-IsFormatted

bfree_lem_example : Frees small device 4 (bfree small 4 device)
bfree_lem_example =
    bfree_lem small device 4 device-IsFormatted (omega arith) refl (λ e. omega arith)
