-- ===== src/Dinode/Alloc.antt =====
-- `ialloc` takes the first inode whose type is 0.
use xv7_mirror.Base.{
  ℕ, zero, suc, ◌+◌, ◌^◌, ◌≤◌, ◌<◌, ◌≡◌, ◌≢◌, ◌∙◌, refl, ◌⊎◌, inl, inr, arith, ltb, leb, ◌==◌, ◌&&◌,
  true, false, Bool-cases, ==→eq, eq→==, Option, some, none,
}
use xv7_mirror.Str.{memset}
use xv7_mirror.Str.Fill.{memset_lem}
use xv7_mirror.FreeMap.{Blocks, set_block}
use xv7_mirror.Inode.{Icache, iget}
use xv7_mirror.Dinode.{
  dinode_size, slot, new_dinode, iblock, alloc_loop, with_device, get_new, ialloc, load16,
}
use xv7_mirror.Dinode.Bytes.{load16-store16, store16-other}
use xv7_mirror.Dinode.Update.{Others, set_block-Others}

module _ (inodestart : ℕ) where
  -- `dip->type` on the disk.
  abbrev pub type_on : Blocks → ℕ → ℕ
  type_on d j = load16 (d (iblock inodestart j)) (slot j)

  -- `inum` was the first free one from `from` on; it has the type now, its other bytes are 0, and the
  -- other inodes are as they were.
  pub record Allocated (type from end inum : ℕ) (d d' : Blocks) : Type 0 where
    pub range : (from ≤ inum) × (inum < end)
    pub free : type_on d inum ≡ 0
    pub first : (j : ℕ) → from ≤ j → j < inum → type_on d j ≢ 0
    pub typed : type_on d' inum ≡ type
    pub cleared :
        (k : ℕ) → 2 ≤ k → k < dinode_size → d' (iblock inodestart inum) (slot inum + k) ≡ 0
    pub others : Others inodestart inum d d'

  new_dinode-Allocated :
      (type from end : ℕ) (d : Blocks)
      → type < 2 ^ 16
      → from < end
      → type_on d from ≡ 0
      → Allocated type from end from d
          (set_block (iblock inodestart from) (new_dinode type from (d (iblock inodestart from))) d)
  new_dinode-Allocated type from end d small lt z =
      let b = iblock inodestart from in
      let m = d b in
      let here : (b == b) ≡ true = eq→== b b refl in
      record {
        range = (omega arith, lt);
        free = z;
        first = λ j le below. absurd (omega arith);
        typed =
            rw here (load16-store16 (memset (slot from) 0 dinode_size m) (slot from) type small);
        cleared = λ k lo hi.
            let within : (leb (slot from) (slot from + k)
                  && ltb (slot from + k) (slot from + dinode_size))
                ≡ true =
              ground arith in
            rw here (
              store16-other (memset (slot from) 0 dinode_size m) (slot from) type (slot from + k)
                (inr (omega arith))
              ∙ memset_lem (slot from) 0 dinode_size m (slot from + k) (omega arith)
              ∙ rw within refl);
        others = set_block-Others inodestart from (new_dinode type from m) d (λ a out.
            let away : (leb (slot from) a && ltb a (slot from + dinode_size)) ≡ false =
              ground arith in
            store16-other (memset (slot from) 0 dinode_size m) (slot from) type a
              (elim out [ inl x ↦ inl x | inr x ↦ inr (omega arith) ])
            ∙ memset_lem (slot from) 0 dinode_size m a (omega arith)
            ∙ rw away refl);
      }

  -- What the loop gives, by its result.
  abbrev pub Found : (type from end : ℕ) → Blocks → Option (ℕ × Blocks) → Type 0
  Found type from end d none = (j : ℕ) → from ≤ j → j < end → type_on d j ≢ 0
  Found type from end d (some (inum, d')) = Allocated type from end inum d d'

  later-Found :
      (type from end : ℕ) (d : Blocks) (r : Option (ℕ × Blocks))
      → type_on d from ≢ 0
      → Found type (from + 1) end d r
      → Found type from end d r
  later-Found type from end d none used h = λ j lo hi. elim (Bool-cases (j == from)) [
    | inl e ↦ rw (==→eq j from e) used
    | inr e ↦ h j (ground arith) hi
  ]
  later-Found type from end d (some (inum, d')) used a = record {
    range = (omega (arith, a.range.0), a.range.1);
    free = a.free;
    first = λ j lo below. elim (Bool-cases (j == from)) [
      | inl e ↦ rw (==→eq j from e) used
      | inr e ↦ a.first j (ground arith) below
    ];
    typed = a.typed;
    cleared = a.cleared;
    others = a.others;
  }

  alloc_loop-Found :
      (ninodes n type from : ℕ) (d : Blocks)
      → type < 2 ^ 16
      → ninodes ≤ from + n
      → Found type from ninodes d (alloc_loop inodestart ninodes n type from d)
  unfolding alloc_loop
  alloc_loop-Found ninodes zero type from d small enough = λ j lo hi. absurd (omega arith)
  alloc_loop-Found ninodes (suc n) type from d small enough = elim (Bool-cases (ltb from ninodes)) [
    | inl more ↦ elim (Bool-cases (type_on d from == 0)) [
      | inl z ↦
          rw (more, z)
            (new_dinode-Allocated type from ninodes d small (ground arith)
              (==→eq (type_on d from) 0 z))
      | inr used ↦
          rw (more, used)
            (later-Found type from ninodes d (alloc_loop inodestart ninodes n type (from + 1) d)
              (ground arith) (alloc_loop-Found ninodes n type (from + 1) d small (omega arith)))
    ]
    | inr over ↦ rw over (λ j lo hi. absurd (ground arith))
  ]

  -- What `ialloc` gives: the number went through `iget`, or one of the two panics was due.
  abbrev pub Ialloc :
      (ninodes dev type : ℕ) → Icache → Blocks → Option (ℕ × Icache × Blocks) → Type 0
  Ialloc ninodes dev type t d none =
      ((j : ℕ) → 1 ≤ j → j < ninodes → type_on d j ≢ 0) ⊎ ((inum : ℕ) × (iget dev inum t ≡ none))
  Ialloc ninodes dev type t d (some (i, t', d')) =
      (inum : ℕ) × Allocated type 1 ninodes inum d d' × (iget dev inum t ≡ some (i, t'))

  got-Ialloc :
      (ninodes dev type inum : ℕ) (t : Icache) (d d' : Blocks)
      → Allocated type 1 ninodes inum d d'
      → (r : Option (ℕ × Icache)) → iget dev inum t ≡ r
      → Ialloc ninodes dev type t d (with_device d' r)
  unfolding with_device
  got-Ialloc ninodes dev type inum t d d' a none e = inr (inum, e)
  got-Ialloc ninodes dev type inum t d d' a (some (i, t')) e = (inum, a, e)

  get_new-Ialloc :
      (ninodes dev type : ℕ) (t : Icache) (d : Blocks) (r : Option (ℕ × Blocks))
      → Found type 1 ninodes d r
      → Ialloc ninodes dev type t d (get_new dev t r)
  unfolding get_new
  get_new-Ialloc ninodes dev type t d none h = inl h
  get_new-Ialloc ninodes dev type t d (some (inum, d')) a =
      got-Ialloc ninodes dev type inum t d d' a (iget dev inum t) refl

  -- `ialloc` of a type that fits into 16 bits takes the first number from 1 on whose inode on the disk
  -- has type 0 and returns the entry that `iget` gives for it. On the disk that inode then has the type
  -- and is zero otherwise, and every other inode keeps its bytes. It panics only if no inode has type 0,
  -- or if `iget` does.
  pub ialloc_lem :
      (ninodes dev type : ℕ) (t : Icache) (d : Blocks)
      → type < 2 ^ 16
      → Ialloc ninodes dev type t d (ialloc inodestart ninodes dev type t d)
  unfolding ialloc
  ialloc_lem ninodes dev type t d small =
      get_new-Ialloc ninodes dev type t d (alloc_loop inodestart ninodes ninodes type 1 d)
        (alloc_loop-Found ninodes ninodes type 1 d small (omega arith))
