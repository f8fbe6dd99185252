-- ===== src/Dir/Lookup.antt =====
-- `dirlookup` finds the first entry in use with the name.
use xv7_mirror.Base.{ℕ, ◌+◌, ◌-◌, ◌%◌, ◌≤◌, ◌<◌, ◌≡◌, true, false, some, none, Option}
use xv7_mirror.Str.{Mem}
use xv7_mirror.FreeMap.{Superblock}
use xv7_mirror.Bmap.{Content}
use xv7_mirror.FileData.{FileInode}
use xv7_mirror.FileData.Read.{HasHole}
use xv7_mirror.Dir.{desize, Outcome}
use xv7_mirror.Dir.Entries.{inum_at, hit, SameDir, Outside}

-- No entry from `off` on, below `k`, is in use and has the name.
abbrev pub NoHit : Content → (off k : ℕ) → Mem → ℕ → Type 0
NoHit s off k m name = (o : ℕ) → off ≤ o → o < k → o % desize ≡ 0 → hit s o m name ≡ false

module _ (sb : Superblock) (de name : ℕ) where
  pub record Missing (dp : FileInode) (off : ℕ) (m : Mem) (dp' : FileInode) (m' : Mem)
      : Type 0 where
    pub dir : SameDir sb dp dp'
    pub outside : Outside sb de m m'
    pub before : NoHit dp.content off dp.size m name

  pub record Found (dp : FileInode) (off : ℕ) (m : Mem) (inum o : ℕ) (dp' : FileInode) (m' : Mem)
      : Type 0 where
    pub dir : SameDir sb dp dp'
    pub outside : Outside sb de m m'
    pub from : off ≤ o
    pub inside : o + desize ≤ dp.size
    pub aligned : o % desize ≡ 0
    pub number : inum ≡ inum_at dp.content o
    pub here : hit dp.content o m name ≡ true
    pub before : NoHit dp.content off o m name

  abbrev pub Finds : FileInode → (off : ℕ) → Mem → Outcome (Option (ℕ × ℕ)) → Type 0
  Finds dp off m none = HasHole sb dp.content off (dp.size - off)
  Finds dp off m (some (none, dp', m')) = Missing dp off m dp' m'
  Finds dp off m (some (some (inum, o), dp', m')) = Found dp off m inum o dp' m'
