-- ===== src/FreeMap.antt =====
-- kernel/fs.c: the allocator of disk blocks: bzero, balloc, bfree.
-- The blocks of a device are a function from block numbers to arrays of bytes, as they are seen
-- through the buffer cache: `bread`, a change of `bp->data`, `log_write` and `brelse` are one change of a block.
pub mod Bits
pub mod Scan
pub mod Free
pub mod Owner
pub mod Examples
use Prim.Native.Nat.{bit_or, bit_and}
use xv7_mirror.Base.{
  ℕ, zero, suc, ◌+◌, ◌-◌, ◌/◌, ◌%◌, ◌^◌, Bool, true, false, ◌&&◌, Option, none, some, ltb, ◌==◌,
  if◌then◌else◌,
}
use xv7_mirror.Str.{Mem, store, memset}

abbrev pub Blocks : Type 0
Blocks = ℕ → Mem

abbrev pub bsize : ℕ
bsize = 512

-- Bits of the free map in a block.
abbrev pub bpb : ℕ
bpb = 4096

-- What the routines use of `struct superblock`.
pub record Superblock : Type 0 where
  pub size : ℕ
  pub bmapstart : ℕ

abbrev pub set_block : ℕ → Mem → Blocks → Blocks
set_block b m d c = if c == b then m else d c

-- `(bp->data[bi / 8] & (1 << (bi % 8))) == 0`
unfoldable pub is_free : Mem → ℕ → Bool
is_free m bi = bit_and (m (bi / 8)) (2 ^ (bi % 8)) == 0

-- `bp->data[bi / 8] |= m`
pub mark : ℕ → Mem → Mem
mark bi m = store (bi / 8) (bit_or (m (bi / 8)) (2 ^ (bi % 8))) m

-- `bp->data[bi / 8] &= ~m`
pub unmark : ℕ → Mem → Mem
unmark bi m = store (bi / 8) (bit_and (m (bi / 8)) (255 - 2 ^ (bi % 8))) m

pub bzero : ℕ → Blocks → Blocks
bzero b d = set_block b (memset 0 0 bsize (d b)) d

module _ (sb : Superblock) where
  -- `BBLOCK`
  abbrev pub bblock : ℕ → ℕ
  bblock b = b / bpb + sb.bmapstart

  -- The inner loop, with `n` rounds left: the bit at which it stops.
  pub scan_bits : ℕ → Mem → (b bi : ℕ) → Option ℕ
  scan_bits zero m b bi = none
  scan_bits (suc n) m b bi =
      let rest = scan_bits n m b (bi + 1) in
      if ltb (b + bi) sb.size then (if is_free m bi then some bi else rest) else none

  take_bit : ℕ → ℕ → Blocks → ℕ × Blocks
  take_bit b bi d = (b + bi, bzero (b + bi) (set_block (bblock b) (mark bi (d (bblock b))) d))

  -- The outer loop, from block `b` on.
  pub scan_blocks : ℕ → ℕ → Blocks → Option (ℕ × Blocks)
  scan_blocks zero b d = none
  scan_blocks (suc fuel) b d =
      let found = scan_bits bpb (d (bblock b)) b 0 in
      let next = scan_blocks fuel (b + bpb) d in
      if ltb b sb.size then elim found [ none ↦ next | some bi ↦ some (take_bit b bi d) ] else none

  -- `balloc`; `none` is the panic "out of blocks". One round for each block is enough.
  pub balloc : Blocks → Option (ℕ × Blocks)
  unfolding scan_blocks
  balloc d = scan_blocks (sb.size + 1) 0 d

  -- `bfree`; `none` is the panic "freeing free block".
  pub bfree : ℕ → Blocks → Option Blocks
  bfree b d =
      if is_free (d (bblock b)) (b % bpb)
      then none
      else some (set_block (bblock b) (unmark (b % bpb) (d (bblock b))) d)
