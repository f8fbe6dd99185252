-- ===== src/Dir/Added.antt =====
-- `dirlink` adds an entry.
use xv7_mirror.Base.{
  ℕ, ◌+◌, ◌%◌, ◌^◌, ◌≤◌, ◌<◌, ◌≡◌, Bool, true, false, ltb, if◌then◌else◌, ◌⊎◌, some, none, Option,
}
use xv7_mirror.Str.{Mem}
use xv7_mirror.FreeMap.{Superblock}
use xv7_mirror.FreeMap.Bits.{IsBytes}
use xv7_mirror.Bmap.Nodes.{IsTree}
use xv7_mirror.Bmap.Bytes.{byte_at}
use xv7_mirror.FileData.{FileInode, Handler, maxbytes}
use xv7_mirror.FileData.Read.{HasHole}
use xv7_mirror.Dir.{desize, Outcome, fill_entry}
use xv7_mirror.Dir.Entries.{inum_at, name_at, ApartFrom, IsDir, SameDir, Outside}
use xv7_mirror.Dir.Lookup.{NoHit, Found}

module _ (sb : Superblock) where
  -- `dp'` is `dp` with the entry at `o`.
  pub record Linked (name inum : ℕ) (dp : FileInode) (m : Mem) (o : ℕ) (dp' : FileInode)
      : Type 0 where
    pub tree : IsTree sb dp'.content
    pub type : dp'.type ≡ dp.type
    pub size : dp'.size ≡ (if ltb o dp.size then dp.size else dp.size + desize)
    pub inside : o ≤ dp.size
    pub aligned : o % desize ≡ 0
    pub free : o < dp.size → inum_at dp.content o ≡ 0
    pub number : inum_at dp'.content o ≡ inum % 2 ^ 16
    pub named : name_at dp'.content o m name ≡ true
    pub others :
        (i : ℕ)
        → i < maxbytes
        → ((i < o) ⊎ (o + desize ≤ i))
        → byte_at dp'.content i ≡ byte_at dp.content i

  -- What `dirlink` did: false for a name that is there already.
  abbrev pub Links : (de name inum : ℕ) → FileInode → Mem → Outcome Bool → Type 0
  Links de name inum dp m none = HasHole sb dp.content 0 (dp.size + desize)
  Links de name inum dp m (some (false, dp', m')) =
      (k : ℕ) × (o : ℕ) × Found sb de name dp 0 m k o dp' m'
  Links de name inum dp m (some (true, dp', m')) =
      NoHit dp.content 0 dp.size m name × Outside sb de m m' × (o : ℕ) × Linked name inum dp m o dp'

  module _ (pos : 0 < sb.size) (small : sb.size ≤ 2 ^ 32) (devsw : ℕ → Option Handler)
      (now de name inum : ℕ) (apart : ApartFrom de name) (dp : FileInode) (m : Mem)
      (bytes : IsBytes m) (d : IsDir sb dp) (whole : dp.size % desize ≡ 0)
      (room : dp.size + desize ≤ maxbytes) (before : NoHit dp.content 0 dp.size m name) where
    -- The search has stopped at `o`.
    module _ (o : ℕ) (dp1 : FileInode) (m1 : Mem) (dir : SameDir sb dp dp1)
        (out : Outside sb de m m1) (inside : o ≤ dp.size) (al : o % desize ≡ 0)
        (free : o < dp.size → inum_at dp.content o ≡ 0) where
      abbrev m2 : Mem
      m2 = fill_entry name inum de m1
