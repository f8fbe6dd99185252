-- ===== src/Bio.antt =====
-- kernel/bio.c: the cache of disk blocks, as the list of its buffers from the most recently used to
-- the least (`head.next` to `head.prev`); a buffer is named by its place in the list.
-- `iderw` of kernel/dev/ide.c is modelled by what its comment promises, with a disk that is a function
-- of device and block. The sleep lock of a buffer, which its user holds between `bread` and `brelse`,
-- is left out, and with it the panics of a caller without it.
pub mod View
pub mod Refine
pub mod Write
pub mod Release
mod Examples
use xv7_mirror.Base.Modify.{modify}
use xv7_mirror.Base.{
  ℕ, zero, suc, ◌+◌, ◌-◌, Bool, true, false, ◌&&◌, not, Option, none, some, List, [], ◌∷◌, ◌==◌,
  if◌then◌else◌, get_elem?,
}

abbrev pub Disk : Type 0
Disk = ℕ → ℕ → List ℕ

-- `struct buf`; `valid` and `dirty` are B_VALID and B_DIRTY.
pub record Buf : Type 0 where
  pub dev : ℕ
  pub blockno : ℕ
  pub valid : Bool
  pub dirty : Bool
  pub refcnt : ℕ
  pub bytes : List ℕ

abbrev pub Cache : Type 0
Cache = List Buf

-- `b->dev == dev && b->blockno == blockno`
abbrev pub matches : ℕ → ℕ → Buf → Bool
matches dev blockno b = (b.dev == dev) && (b.blockno == blockno)

-- `b->refcnt == 0 && (b->flags & B_DIRTY) == 0`
abbrev pub reusable : Buf → Bool
reusable b = (b.refcnt == 0) && not b.dirty

-- The first search of `bget`, from the head on.
pub find_cached : ℕ → ℕ → Cache → Option ℕ
find_cached dev blockno [] = none
find_cached dev blockno (b ∷ bs) =
    let rest = find_cached dev blockno bs in
    if matches dev blockno b then some 0 else elim rest [ none ↦ none | some i ↦ some (suc i) ]

-- The second, from the tail on.
pub find_reusable : Cache → Option ℕ
find_reusable [] = none
find_reusable (b ∷ bs) = elim (find_reusable bs) [
  | none ↦ if reusable b then some 0 else none
  | some i ↦ some (suc i)
]

abbrev pub hold : Buf → Buf
hold b = record b { refcnt = b.refcnt + 1 }

abbrev pub claim : ℕ → ℕ → Buf → Buf
claim dev blockno b = record b {
  dev = dev;
  blockno = blockno;
  valid = false;
  dirty = false;
  refcnt = 1;
}

get_reusable : ℕ → ℕ → Cache → Option ℕ → Option (ℕ × Cache)
get_reusable dev blockno c none = none
get_reusable dev blockno c (some i) = some (i, modify c i (claim dev blockno))

get_cached : ℕ → ℕ → Cache → Option ℕ → Option (ℕ × Cache)
unfolding get_reusable
get_cached dev blockno c none = get_reusable dev blockno c (find_reusable c)
get_cached dev blockno c (some i) = some (i, modify c i hold)

-- `bget`; `none` is the panic "no buffers".
pub bget : ℕ → ℕ → Cache → Option (ℕ × Cache)
unfolding get_cached
bget dev blockno c = get_cached dev blockno c (find_cached dev blockno c)

-- `iderw` of a buffer that is not dirty and not valid.
abbrev pub ide_read : Disk → Buf → Buf
ide_read d b = record b { bytes = d b.dev b.blockno; valid = true }

abbrev pub fill : Disk → Buf → Buf
fill d b = if b.valid then b else ide_read d b

read_got : Disk → Option (ℕ × Cache) → Option (ℕ × Cache)
read_got d none = none
read_got d (some (i, c)) = some (i, modify c i (fill d))

-- `bread`
pub bread : Disk → ℕ → ℕ → Cache → Option (ℕ × Cache)
unfolding read_got
bread d dev blockno c = read_got d (bget dev blockno c)

-- `iderw` of a dirty buffer: the disk, and the buffer.
abbrev pub ide_write : Disk → Buf → Disk
ide_write d b dev blockno = if matches dev blockno b then b.bytes else d dev blockno

abbrev pub clean : Buf → Buf
clean b = record b { dirty = false; valid = true }

write_at : ℕ → Option Buf → Disk → Cache → Disk × Cache
write_at i none d c = (d, c)
write_at i (some b) d c = (ide_write d b, modify c i clean)

-- `bwrite`
pub bwrite : ℕ → Disk → Cache → Disk × Cache
unfolding write_at
bwrite i d c = write_at i (get_elem? c i) d c

-- The list less its element `i`.
abbrev pub unlink : Cache → ℕ → Cache
unlink [] i = []
unlink (b ∷ bs) zero = bs
unlink (b ∷ bs) (suc i) = b ∷ unlink bs i

-- `b->refcnt--`, of a buffer that is held.
abbrev pub drop_ref : Buf → Buf
drop_ref b = record b { refcnt = b.refcnt - 1 }

release_at : ℕ → Option Buf → Cache → Cache
release_at i none c = c
release_at i (some b) c = if b.refcnt - 1 == 0 then drop_ref b ∷ unlink c i else modify c i drop_ref

-- `brelse`
pub brelse : ℕ → Cache → Cache
unfolding release_at
brelse i c = release_at i (get_elem? c i) c
