-- ===== src/Dir/Entries.antt =====
-- Entries of a directory as they stand in its bytes, and what `readi` gives of them.
use xv7_mirror.Base.{
  ℕ, ◌+◌, ◌-◌, ◌*◌, ◌^◌, ◌≤◌, ◌<◌, ◌≡◌, ◌≢◌, refl, sym, ap, ◌∙◌, Bool, true, false, ◌&&◌, not,
  arith, ltb, leb, ◌==◌, inl, inr, ◌⊎◌, some, none, Option, min,
}
use xv7_mirror.Str.{Mem}
use xv7_mirror.PathName.{dirsiz}
use xv7_mirror.FreeMap.{Superblock}
use xv7_mirror.Bmap.{Content}
use xv7_mirror.Bmap.Nodes.{IsTree}
use xv7_mirror.Bmap.Bytes.{byte_at}
use xv7_mirror.FileData.{FileInode, Handler, maxbytes, t_dev, readi}
use xv7_mirror.FileData.Read.{SameBytes, HasHole, Gives, ReadsFile, readi_lem}
use xv7_mirror.Dir.{desize, entry_inum, same_name, Outcome, read_entry, whole_entry}
use xv7_mirror.Dir.Names.{names_agree, names_agree_ext, agrees-strncmp}

-- The inode's number and the name in the entry at offset `off`.
abbrev pub inum_at : Content → ℕ → ℕ
inum_at s off = byte_at s off + byte_at s (off + 1) * 256

abbrev pub name_at : Content → ℕ → Mem → ℕ → Bool
name_at s off m name = names_agree dirsiz m name (byte_at s) (off + 2)

-- The entry is in use and has this name.
abbrev pub hit : Content → ℕ → Mem → ℕ → Bool
hit s off m name = not (inum_at s off == 0) && name_at s off m name

-- The name does not overlap with the entry `de`.
abbrev pub ApartFrom : (de name : ℕ) → Type 0
ApartFrom de name = (name + dirsiz ≤ de) ⊎ (de + desize ≤ name)

module _ (sb : Superblock) where
  -- A directory as `readi` works on it.
  pub record IsDir (dp : FileInode) : Type 0 where
    pub tree : IsTree sb dp.content
    pub file : dp.type ≢ t_dev
    pub fits : dp.size ≤ maxbytes

  -- The same directory, but for its times and blocks that were missing.
  pub record SameDir (dp dp' : FileInode) : Type 0 where
    pub type : dp'.type ≡ dp.type
    pub size : dp'.size ≡ dp.size
    pub content : SameBytes sb dp.content dp'.content

  pub SameDir-IsDir : {dp dp' : FileInode} → IsDir dp → SameDir dp dp' → IsDir dp'
  SameDir-IsDir {dp} {dp'} d s = record {
    tree = s.content.tree;
    file = λ e. d.file (sym s.type ∙ e);
    fits = omega (arith, s.size, d.fits);
  }

  pub SameDir-refl : (dp : FileInode) → IsDir dp → SameDir dp dp
  SameDir-refl dp d = record {
    type = refl;
    size = refl;
    content = record { tree = d.tree; bytes = λ i h. refl; holes = λ bm h z. z };
  }

  pub SameDir-trans : {a b c : FileInode} → SameDir a b → SameDir b c → SameDir a c
  SameDir-trans s t = record {
    type = t.type ∙ s.type;
    size = t.size ∙ s.size;
    content = record {
      tree = t.content.tree;
      bytes = λ i h. t.content.bytes i h ∙ s.content.bytes i h;
      holes = λ bm h z. s.content.holes bm h (t.content.holes bm h z);
    };
  }

  pub inum_at-same :
      (s t : Content) (off : ℕ)
      → SameBytes sb s t
      → off + desize ≤ maxbytes
      → inum_at t off ≡ inum_at s off
  inum_at-same s t off h le = rw (h.bytes off (omega arith), h.bytes (off + 1) (omega arith))

  pub name_at-same :
      (s t : Content) (off : ℕ) (m m' : Mem) (name : ℕ)
      → SameBytes sb s t
      → off + desize ≤ maxbytes
      → ((k : ℕ) → k < dirsiz → m' (name + k) ≡ m (name + k))
      → name_at t off m' name ≡ name_at s off m name
  name_at-same s t off m m' name h le same =
      names_agree_ext dirsiz m' name (byte_at t) (off + 2) m name (byte_at s) (off + 2) same
        (λ k lt. h.bytes (off + 2 + k) (omega arith))

  -- The memory outside of the entry is the same.
  abbrev pub Outside : (de : ℕ) → Mem → Mem → Type 0
  Outside de m m' = (a : ℕ) → ((a < de) ⊎ (de + desize ≤ a)) → m' a ≡ m a

  pub Outside-name :
      (de name : ℕ) (m m' : Mem)
      → ApartFrom de name
      → Outside de m m'
      → (k : ℕ) → k < dirsiz
      → m' (name + k) ≡ m (name + k)
  Outside-name de name m m' apart out k lt =
      out (name + k) (elim apart [ inl x ↦ inl (omega arith) | inr x ↦ inr (omega arith) ])

  -- The entry at `off` stands at `de`.
  pub record Loaded (dp : FileInode) (off de : ℕ) (m : Mem) (dp' : FileInode) (m' : Mem)
      : Type 0 where
    pub dir : SameDir dp dp'
    pub outside : Outside de m m'
    pub entry : (k : ℕ) → k < desize → m' (de + k) ≡ byte_at dp.content (off + k)

  abbrev pub Loads : FileInode → (off de : ℕ) → Mem → Option (FileInode × Mem) → Type 0
  Loads dp off de m none = HasHole sb dp.content off desize
  Loads dp off de m (some (dp', m')) = Loaded dp off de m dp' m'

  Gives-Loaded :
      (now off de : ℕ) (dp dp' : FileInode) (m m' : Mem)
      → dp' ≡ record dp { atime = now; modtime = now; content = dp'.content }
      → SameBytes sb dp.content dp'.content
      → Gives sb dp.content off desize de m m'
      → Loaded dp off de m dp' m'
  Gives-Loaded now off de dp dp' m m' e same g = record {
    dir = record {
      type = ap (λ (d : FileInode). d.type) e;
      size = ap (λ (d : FileInode). d.size) e;
      content = same;
    };
    outside = λ a h.
        let out : (leb de a && ltb a (de + desize)) ≡ false = ground arith in rw out at (g a);
    entry = λ k lt.
        let here : (leb de (de + k) && ltb (de + k) (de + desize)) ≡ true = ground arith in
        let back : de + k - de ≡ k = omega arith in rw (here, back) at (g (de + k));
  }

  module _ (pos : 0 < sb.size) (small : sb.size ≤ 2 ^ 32) (devsw : ℕ → Option Handler)
      (now de : ℕ) where
    whole-Loads :
        (off : ℕ) (dp : FileInode) (m : Mem) (r : Outcome (Option ℕ))
        → off + desize ≤ dp.size
        → ReadsFile sb now off desize de dp m r
        → Loads dp off de m (whole_entry sb devsw now de r)
    unfolding whole_entry
    whole-Loads off dp m none le (i, lo, hi, z) = (i, lo, omega arith, z)
    whole-Loads off dp m (some (none, dp', m')) le h = absurd (cc h.0)
    whole-Loads off dp m (some (some k, dp', m')) le (e, same, bytes, gives) =
        let all : min desize (dp.size - off) ≡ desize = omega arith in
        let full : (k == desize) ≡ true = ground (arith, all) in
        rw full (Gives-Loaded now off de dp dp' m m' same bytes (rw all at gives))

    pub read_entry-Loads :
        (off : ℕ) (dp : FileInode) (m : Mem)
        → IsDir dp
        → off + desize ≤ dp.size
        → Loads dp off de m (read_entry sb devsw now de off dp m)
    unfolding read_entry
    read_entry-Loads off dp m d le =
        whole-Loads off dp m (readi sb devsw now off desize de dp m) le (
          readi_lem sb pos small devsw now off desize de dp m d.tree d.file d.fits (omega arith)
            (omega (arith, d.fits)))

  -- The tests of the loops, on the entry that was read.
  pub Loaded-inum :
      (dp : FileInode) (off de : ℕ) (m : Mem) (dp' : FileInode) (m' : Mem)
      → Loaded dp off de m dp' m'
      → entry_inum m' de ≡ inum_at dp.content off
  Loaded-inum dp off de m dp' m' l =
      let z : de + 0 ≡ de = omega arith in
      let z' : off + 0 ≡ off = omega arith in
      let e0 = rw (z, z') at (l.entry 0 (omega arith)) in rw (e0, l.entry 1 (omega arith))

  pub Loaded-name :
      (dp : FileInode) (off de name : ℕ) (m : Mem) (dp' : FileInode) (m' : Mem)
      → Loaded dp off de m dp' m'
      → ApartFrom de name
      → same_name m' name de ≡ name_at dp.content off m name
  unfolding same_name
  Loaded-name dp off de name m dp' m' l apart =
      agrees-strncmp dirsiz name (de + 2) m'
      ∙ names_agree_ext dirsiz m' name m' (de + 2) m name (byte_at dp.content) (off + 2)
          (Outside-name de name m m' apart l.outside)
          (λ k lt.
            let x : de + 2 + k ≡ de + (2 + k) = omega arith in
            let y : off + 2 + k ≡ off + (2 + k) = omega arith in
            rw (x, y) (l.entry (2 + k) (omega arith)))
