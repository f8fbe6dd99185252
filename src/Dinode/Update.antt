-- ===== src/Dinode/Update.antt =====
-- What `iupdate` writes, `ilock` reads, and other inodes on the disk stay as they are.
use xv7_mirror.Base.{
  ℕ, ◌+◌, ◌/◌, ◌%◌, ◌≤◌, ◌<◌, ◌≡◌, ◌≢◌, ◌∙◌, refl, sym, ◌⊎◌, inl, inr, arith, ltb, ◌==◌, true,
  false, Bool-cases, eq→==, some,
}
use xv7_mirror.Str.{Mem}
use xv7_mirror.FreeMap.{Blocks, set_block}
use xv7_mirror.Sleeplock.{acquiresleep, holdingsleep}
use xv7_mirror.Dinode.{
  Fields, MemInode, Locked, put_fields, get_fields, ipb, dinode_size, slot, iblock, iupdate, locked,
  panics, waits, load_fields, with_lock, ilock,
}
use xv7_mirror.Dinode.Stored.{Fits, Same, get_fields-put_fields, put_fields-other}

-- Two numbers with one block have places apart.
slots_apart :
    (i j a : ℕ)
    → i ≢ j
    → i / ipb ≡ j / ipb
    → a < dinode_size
    → (slot j + a < slot i) ⊎ (slot i + dinode_size ≤ slot j + a)
slots_apart i j a ne e lt = elim (Bool-cases (ltb (j % ipb) (i % ipb))) [
  | inl below ↦ inl (ground arith)
  | inr above ↦ inr (ground (arith, ne))
]

-- A copy in memory that is in use, not locked and not valid.
pub record IsStale (inum : ℕ) (jp : MemInode) : Type 0 where
  pub number : jp.inum ≡ inum
  pub used : 0 < jp.ref
  pub free : jp.lock.locked ≡ false
  pub stale : jp.valid ≡ false

-- The copy is locked by `pid`, and has the fields `f`.
pub IsLoaded : ℕ → Fields → MemInode → Locked → Type 0
IsLoaded pid f jp (locked kp) =
    (kp.inum ≡ jp.inum)
    × (kp.ref ≡ jp.ref)
    × (kp.valid ≡ true)
    × Same f kp.fields
    × (holdingsleep pid kp.lock ≡ true)
IsLoaded pid f jp (waits kp) = ⊥
IsLoaded pid f jp panics = ⊥

module _ (inodestart : ℕ) where
  -- The bytes of each inode but one are the same.
  pub Others : ℕ → Blocks → Blocks → Type 0
  Others inum d d' =
      (j a : ℕ)
      → j ≢ inum
      → a < dinode_size
      → d' (iblock inodestart j) (slot j + a) ≡ d (iblock inodestart j) (slot j + a)

  -- So they are when one place in a block is changed.
  pub set_block-Others :
      (inum : ℕ) (m : Mem) (d : Blocks)
      → ((a : ℕ)
          → (a < slot inum) ⊎ (slot inum + dinode_size ≤ a)
          → m a ≡ d (iblock inodestart inum) a)
      → Others inum d (set_block (iblock inodestart inum) m d)
  unfolding Others
  set_block-Others inum m d h j a ne lt =
      elim (Bool-cases (iblock inodestart j == iblock inodestart inum)) [
        | inl e ↦
            let same : inum / ipb ≡ j / ipb = ground arith in
            let block : iblock inodestart j ≡ iblock inodestart inum = ground arith in
            rw e (h (slot j + a) (slots_apart inum j a (λ x. ne (sym x)) same lt) ∙ rw block refl)
        | inr e ↦ rw e refl
      ]

  -- `iupdate` leaves the fields of its inode on the disk, and every other inode as it is.
  pub iupdate_lem :
      (ip : MemInode) (old : Fields) (d : Blocks)
      → Fits ip.fields
      → Same ip.fields
          (get_fields (iupdate inodestart ip d (iblock inodestart ip.inum)) (slot ip.inum) old)
        × Others ip.inum d (iupdate inodestart ip d)
  unfolding iupdate
  iupdate_lem ip old d fits =
      let m = d (iblock inodestart ip.inum) in
      let here : (iblock inodestart ip.inum == iblock inodestart ip.inum) ≡ true =
        eq→== (iblock inodestart ip.inum) (iblock inodestart ip.inum) refl in
      (
        rw here (get_fields-put_fields (slot ip.inum) ip.fields m fits old),
        set_block-Others ip.inum (put_fields (slot ip.inum) ip.fields m) d
            (put_fields-other (slot ip.inum) ip.fields m),
      )

  -- After `iupdate` of an inode whose type is not 0, `ilock` on a copy of it that was not read yet ends
  -- at once, holds the lock, and the copy has the fields of the inode; and every other inode on the disk
  -- keeps its bytes.
  pub ilock-iupdate :
      (pid : ℕ) (ip jp : MemInode) (d : Blocks)
      → Fits ip.fields
      → ip.fields.type ≢ 0
      → IsStale ip.inum jp
      → IsLoaded pid ip.fields jp (ilock inodestart pid (iupdate inodestart ip d) (some jp))
        × Others ip.inum d (iupdate inodestart ip d)
  unfolding IsLoaded ilock with_lock load_fields acquiresleep holdingsleep
  ilock-iupdate pid ip jp d fits typed st =
      let (same, others) = iupdate_lem ip jp.fields d fits in
      let some_ref : ltb jp.ref 1 ≡ false = ground (arith, st.used) in
      let m = iupdate inodestart ip d (iblock inodestart ip.inum) in
      let kind : ((get_fields m (slot ip.inum) jp.fields).type == 0) ≡ false =
        ground (arith, same.type, typed) in
      let mine : (pid == pid) ≡ true = eq→== pid pid refl in
      (rw (some_ref, st.free, st.stale, st.number, kind) (refl, refl, refl, same, rw mine), others)
