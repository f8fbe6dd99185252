-- ===== src/Dir/Again.antt =====
-- `dirlookup` behind `dirlink`.
use xv7_mirror.Base.{ℕ, ◌+◌, ◌%◌, ◌^◌, ◌≡◌, Bool, true, false, some, none, Option}
use xv7_mirror.Str.{Mem}
use xv7_mirror.FreeMap.{Superblock}
use xv7_mirror.FileData.{FileInode, Handler}
use xv7_mirror.FileData.Read.{HasHole}
use xv7_mirror.Dir.{desize, Outcome, lookup}
use xv7_mirror.Dir.Lookup.{Found}

module _ (sb : Superblock) where
  -- What a `dirlookup` behind the `dirlink` may give: the new entry.
  abbrev pub FindsNew : (inum : ℕ) → FileInode → Outcome (Option (ℕ × ℕ)) → Type 0
  FindsNew inum dp none = HasHole sb dp.content 0 dp.size
  FindsNew inum dp (some (none, dp', m')) = ⊥
  FindsNew inum dp (some (some (k, o), dp', m')) = k ≡ inum % 2 ^ 16

  -- What is known behind a `dirlink`, by its outcome: the name was there, or a `dirlookup` finds the new
  -- entry.
  abbrev pub FindsAfter :
      (ℕ → Option Handler) → (now de name inum : ℕ) → FileInode → Mem → Outcome Bool → Type 0
  FindsAfter devsw now de name inum dp m none = HasHole sb dp.content 0 (dp.size + desize)
  FindsAfter devsw now de name inum dp m (some (false, dp', m')) =
      (k : ℕ) × (o : ℕ) × Found sb de name dp 0 m k o dp' m'
  FindsAfter devsw now de name inum dp m (some (true, dp', m')) =
      FindsNew inum dp' (lookup sb devsw now de name dp' m')
