-- ===== src/Dinode.antt =====
-- kernel/fs.c: ialloc, iupdate, ilock, iunlock: an inode in memory and its form on the disk.
-- The device is that of FreeMap. A `short` is its pattern of 16 bits. The time of the last change that
-- `fsupdtime` reads from the clock is left out. `ip->addrs` has NDIRECT + 1 entries here, as it is declared, and
-- these are what `memmove` copies.
pub mod Bytes
pub mod Stored
pub mod Update
pub mod Alloc
pub mod Holding
mod Examples
use xv7_mirror.Base.{
  ℕ, zero, suc, ◌+◌, ◌-◌, ◌*◌, ◌/◌, ◌%◌, Bool, true, false, ◌||◌, not, Option, none, some, ltb,
  ◌==◌, if◌then◌else◌,
}
use xv7_mirror.Str.{Mem, store, store32, memset}
use xv7_mirror.FreeMap.{Blocks, set_block}
use xv7_mirror.Inode.{Icache, iget}
use xv7_mirror.Sleeplock.{Sleeplock, sleeps, acquired, acquiresleep, releasesleep, holdingsleep}
use xv7_mirror.Sleeplock as Sleeplock

-- What an inode has in memory and on the disk.
pub record Fields : Type 0 where
  pub type : ℕ
  pub major : ℕ
  pub minor : ℕ
  pub nlink : ℕ
  pub size : ℕ
  pub addrs : ℕ → ℕ
  pub atime : ℕ
  pub mtime : ℕ

-- `struct inode`, less its device.
pub record MemInode : Type 0 where
  pub inum : ℕ
  pub ref : ℕ
  pub lock : Sleeplock
  pub valid : Bool
  pub fields : Fields

-- `sizeof(struct dinode)`, IPB, and the entries of `ip->addrs`.
abbrev pub dinode_size : ℕ
dinode_size = 72

abbrev pub ipb : ℕ
ipb = 7

abbrev pub naddrs : ℕ
naddrs = 11

-- Little-endian loads and a store of 16 bits.
pub load16 : Mem → ℕ → ℕ
load16 m p = m p + m (p + 1) * 256

pub load32 : Mem → ℕ → ℕ
load32 m p = m p + m (p + 1) * 256 + m (p + 2) * 65536 + m (p + 3) * 16777216

pub store16 : ℕ → ℕ → Mem → Mem
store16 p v m = store (p + 1) (v / 256 % 256) (store p (v % 256) m)

-- `memmove(dip->addrs, ip->addrs, sizeof(ip->addrs))`, word by word, and back.
pub put_addrs : ℕ → ℕ → (ℕ → ℕ) → Mem → Mem
put_addrs zero p a m = m
put_addrs (suc n) p a m = store32 (p + 4 * n) (a n) (put_addrs n p a m)

pub get_addrs : Mem → ℕ → (ℕ → ℕ) → ℕ → ℕ
get_addrs m p a i = if ltb i naddrs then load32 m (p + 4 * i) else a i

-- The assignments of `iupdate`, with `dip` at `p`.
pub put_fields : ℕ → Fields → Mem → Mem
put_fields p f m = put_addrs naddrs (p + 12) f.addrs (
    store32 (p + 68) f.mtime (
      store32 (p + 64) f.atime (
        store32 (p + 8) f.size (
          store16 (p + 6) f.nlink
            (store16 (p + 4) f.minor (store16 (p + 2) f.major (store16 p f.type m)))))))

-- The assignments of `ilock`.
pub get_fields : Mem → ℕ → Fields → Fields
get_fields m p f = record {
  type = load16 m p;
  major = load16 m (p + 2);
  minor = load16 m (p + 4);
  nlink = load16 m (p + 6);
  size = load32 m (p + 8);
  addrs = get_addrs m (p + 12) f.addrs;
  atime = load32 m (p + 64);
  mtime = load32 m (p + 68);
}

-- Where `dip` points to in the block.
abbrev pub slot : ℕ → ℕ
slot inum = inum % ipb * dinode_size

-- `memset(dip, 0, sizeof(*dip)); dip->type = type;`
abbrev pub new_dinode : (type inum : ℕ) → Mem → Mem
new_dinode type inum m = store16 (slot inum) type (memset (slot inum) 0 dinode_size m)

-- How `ilock` goes.
pub data Locked : Type 0 where
  panics : Locked
  waits : MemInode → Locked
  locked : MemInode → Locked

-- `iunlock`; none is the panic.
pub iunlock : ℕ → Option MemInode → Option MemInode
iunlock pid none = none
iunlock pid (some ip) =
    if not (holdingsleep pid ip.lock) || ltb ip.ref 1
    then none
    else some (record ip { lock = releasesleep ip.lock })

with_device : Blocks → Option (ℕ × Icache) → Option (ℕ × Icache × Blocks)
with_device d none = none
with_device d (some (i, t)) = some (i, t, d)

-- `return iget(dev, inum);`
get_new : (dev : ℕ) → Icache → Option (ℕ × Blocks) → Option (ℕ × Icache × Blocks)
unfolding with_device
get_new dev t none = none
get_new dev t (some (inum, d)) = with_device d (iget dev inum t)

-- `sb.inodestart`
module _ (inodestart : ℕ) where
  -- `IBLOCK`
  abbrev pub iblock : ℕ → ℕ
  iblock inum = inum / ipb + inodestart

  pub iupdate : MemInode → Blocks → Blocks
  iupdate ip d =
      set_block (iblock ip.inum) (put_fields (slot ip.inum) ip.fields (d (iblock ip.inum))) d

  -- `if (ip->valid == 0) { ... }`
  load_fields : Blocks → MemInode → Locked
  load_fields d ip =
      let f = get_fields (d (iblock ip.inum)) (slot ip.inum) ip.fields in
      if ip.valid
      then locked ip
      else if f.type == 0
      then panics
      else locked (record ip { fields = f; valid = true })

  with_lock : Blocks → MemInode → Sleeplock.Attempt → Locked
  unfolding load_fields
  with_lock d ip (sleeps lk) = waits (record ip { lock = lk })
  with_lock d ip (acquired lk) = load_fields d (record ip { lock = lk })

  -- `ilock` by the process `pid`, up to its end or its next sleep; none is a null pointer.
  pub ilock : ℕ → Blocks → Option MemInode → Locked
  unfolding with_lock
  ilock pid d none = panics
  ilock pid d (some ip) = if ltb ip.ref 1 then panics else with_lock d ip (acquiresleep pid ip.lock)

  -- `sb.ninodes`
  module _ (ninodes : ℕ) where
    -- The loop of `ialloc` with `n` rounds left, up to its `iget`; none is the panic.
    pub alloc_loop : ℕ → (type inum : ℕ) → Blocks → Option (ℕ × Blocks)
    alloc_loop zero type inum d = none
    alloc_loop (suc n) type inum d =
        let rest = alloc_loop n type (inum + 1) d in
        if ltb inum ninodes
        then if load16 (d (iblock inum)) (slot inum) == 0
          then some (inum, set_block (iblock inum) (new_dinode type inum (d (iblock inum))) d)
          else rest
        else none

    -- `ialloc`: the entry of the cache of inodes, the cache and the device.
    pub ialloc : (dev type : ℕ) → Icache → Blocks → Option (ℕ × Icache × Blocks)
    unfolding alloc_loop get_new
    ialloc dev type t d = get_new dev t (alloc_loop ninodes type 1 d)
