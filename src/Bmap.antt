-- ===== src/Bmap.antt =====
-- kernel/fs.c: bmap and itrunc, the tree of blocks that holds the content of an inode.
-- `addrs` has the NDIRECT + 3 entries that the routines use (and that `struct dinode` has). A block that
-- is read stays as it is while the routine holds its buffer, so that `a[i]` reads the block.
pub mod Words
pub mod Nodes
pub mod Grow
pub mod Steps
pub mod Reached
pub mod Slots
pub mod Mapped
pub mod Trunc
pub mod Emptied
pub mod Listed
pub mod Bytes
pub mod Examples
use xv7_mirror.Base.{
  ℕ, zero, suc, ◌+◌, ◌-◌, ◌*◌, ◌/◌, ◌%◌, Bool, true, false, Option, none, some, ltb, ◌==◌,
  if◌then◌else◌,
}
use xv7_mirror.Str.{Mem, store32}
use xv7_mirror.FreeMap.{Blocks, Superblock, set_block, balloc, bfree}

-- NDIRECT, NINDIRECT, NDINDIRECT, NTINDIRECT
abbrev pub ndirect : ℕ
ndirect = 10

abbrev pub nindirect : ℕ
nindirect = 128

abbrev pub ndindirect : ℕ
ndindirect = 16384

abbrev pub ntindirect : ℕ
ntindirect = 2097152

-- The addresses of an inode, and the device.
pub record Content : Type 0 where
  pub addrs : ℕ → ℕ
  pub blocks : Blocks

-- `a[i]` of a block of `uint`s, and a store to it.
pub word : Mem → ℕ → ℕ
word m i = m (4 * i) + m (4 * i + 1) * 256 + m (4 * i + 2) * 65536 + m (4 * i + 3) * 16777216

pub set_word : ℕ → ℕ → Mem → Mem
set_word i v m = store32 (4 * i) v m

-- A computation on the content; `none` is a panic.
abbrev pub M : Type 0 → Type 0
M A = Content → Option (A × Content)

infixl 5 ◌>>=◌
abbrev pub ◌>>=◌ : {A B : Type 0} → M A → (A → M B) → M B
◌>>=◌ m f s = elim (m s) [ none ↦ none | some (a, t) ↦ f a t ]

abbrev pub set_addr : ℕ → ℕ → Content → Content
set_addr i v s = record s { addrs = λ j. if j == i then v else s.addrs j }

module _ (sb : Superblock) where
  -- `addr = balloc(ip->dev)`, stored in `ip->addrs[i]`.
  new_root : ℕ → Option (ℕ × Blocks) → M ℕ
  new_root i none s = none
  new_root i (some (b, d)) s = some (b, set_addr i b (record s { blocks = d }))

  -- `if ((addr = ip->addrs[i]) == 0) ip->addrs[i] = addr = balloc(ip->dev);`
  pub root : ℕ → M ℕ
  unfolding new_root
  root i s = if s.addrs i == 0 then new_root i (balloc sb s.blocks) s else some (s.addrs i, s)

  new_child : ℕ → ℕ → Option (ℕ × Blocks) → M ℕ
  new_child p i none s = none
  new_child p i (some (b, d)) s = some (b, record s { blocks = set_block p (set_word i b (d p)) d })

  -- `bp = bread(ip->dev, p); a = bp->data; if ((addr = a[i]) == 0) { a[i] = addr = balloc(ip->dev); ... }`
  pub child : ℕ → ℕ → M ℕ
  unfolding new_child
  child p i s =
      if word (s.blocks p) i == 0
      then new_child p i (balloc sb s.blocks) s
      else some (word (s.blocks p) i, s)

  -- The four ranges of `bmap`, each with the number that is left for it.
  single : ℕ → M ℕ
  single bn = do p ← root ndirect; child p bn

  double : ℕ → M ℕ
  double bn = do p ← root (ndirect + 1); q ← child p (bn / nindirect); child q (bn % nindirect)

  triple : ℕ → M ℕ
  triple bn = do
    p ← root (ndirect + 2)
    q ← child p (bn / ndindirect)
    r ← child q (bn % ndindirect / nindirect)
    child r (bn % ndindirect % nindirect)

  out_of_range : M ℕ
  out_of_range s = none

  -- `bmap`; `none` is a panic.
  pub bmap : ℕ → M ℕ
  unfolding single double triple out_of_range
  bmap bn =
      if ltb bn ndirect
      then root bn
      else let bn1 = bn - ndirect in
        if ltb bn1 nindirect
        then single bn1
        else let bn2 = bn1 - nindirect in
          if ltb bn2 ndindirect
          then double bn2
          else let bn3 = bn2 - ndindirect in if ltb bn3 ntindirect then triple bn3 else out_of_range

  -- `for (j = 0; j < NINDIRECT; j++) if (a[j]) f(a[j]);`, with `n` rounds left.
  pub free_entries : ℕ → ℕ → Mem → (ℕ → Blocks → Option Blocks) → Blocks → Option Blocks
  free_entries zero j a f d = some d
  free_entries (suc n) j a f d = elim (if word a j == 0 then some d else f (word a j) d) [
    | none ↦ none
    | some e ↦ free_entries n (j + 1) a f e
  ]

  -- The body of the loops: the entries of block `p`, and then the block.
  pub free_tree : (ℕ → Blocks → Option Blocks) → ℕ → Blocks → Option Blocks
  free_tree f p d = elim (free_entries nindirect 0 (d p) f d) [
    | none ↦ none
    | some e ↦ bfree sb p e
  ]

  -- `if (ip->addrs[i]) { ...; ip->addrs[i] = 0; }`
  free_root : ℕ → (ℕ → Blocks → Option Blocks) → Content → Option Content
  free_root i f s = if s.addrs i == 0 then some s else elim (f (s.addrs i) s.blocks) [
    | none ↦ none
    | some e ↦ some (set_addr i 0 (record s { blocks = e }))
  ]

  -- `for (i = 0; i < NDIRECT; i++) ...`, with `n` rounds left.
  free_direct : ℕ → ℕ → Content → Option Content
  unfolding free_root
  free_direct zero i s = some s
  free_direct (suc n) i s = elim (free_root i (bfree sb) s) [
    | none ↦ none
    | some t ↦ free_direct n (i + 1) t
  ]

  -- `itrunc`, less the size; `none` is a panic.
  pub itrunc : Content → Option Content
  itrunc s = elim (free_direct ndirect 0 s) [
    | none ↦ none
    | some s1 ↦ elim (free_root ndirect (free_tree (bfree sb)) s1) [
      | none ↦ none
      | some s2 ↦ elim (free_root (ndirect + 1) (free_tree (free_tree (bfree sb))) s2) [
        | none ↦ none
        | some s3 ↦ free_root (ndirect + 2) (free_tree (free_tree (free_tree (bfree sb)))) s3
      ]
    ]
  ]
