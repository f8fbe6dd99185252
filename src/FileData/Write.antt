-- ===== src/FileData/Write.antt =====
-- `writei` changes the bytes of the file that it is given, and no others.
use xv7_mirror.Base.{
  ℕ, ◌+◌, ◌-◌, ◌/◌, ◌%◌, ◌^◌, ◌≤◌, ◌<◌, ◌≡◌, ◌≢◌, true, false, ◌&&◌, ◌||◌, arith, ltb, leb, ◌==◌,
  if◌then◌else◌, Bool-cases, inl, inr, ◌⊎◌, some, none, Option,
}
use xv7_mirror.Str.{Mem}
use xv7_mirror.FreeMap.{Superblock, bsize, set_block}
use xv7_mirror.FreeMap.Bits.{IsBytes}
use xv7_mirror.Bmap.{Content}
use xv7_mirror.Bmap.Nodes.{IsTree}
use xv7_mirror.Bmap.Mapped.{Mapped}
use xv7_mirror.Bmap.Bytes.{byte_at}
use xv7_mirror.FileData.{FileInode, Handler, maxbytes, t_dev, chunk, move_bytes, writei, write_file}
use xv7_mirror.FileData.Read.{HasHole}

-- Block `b` with `k` bytes of the memory from `src` on at offset `off` of the file, and the content with it.
abbrev changed_block : Content → (off k src b : ℕ) → Mem → Mem
changed_block t off k src b m = move_bytes (off % bsize) src k m (t.blocks b)

abbrev changed : Content → (off k src b : ℕ) → Mem → Content
changed t off k src b m = record t { blocks = set_block b (changed_block t off k src b m) t.blocks }

module _ (sb : Superblock) where
  -- The file of `t` is that of `s` with `n` bytes of the memory from `src` on at offset `off`.
  pub record Takes (s : Content) (off n src : ℕ) (m : Mem) (t : Content) : Type 0 where
    pub tree : IsTree sb t
    pub bytes :
        (i : ℕ)
        → i < maxbytes
        → byte_at t i ≡ (if leb off i && ltb i (off + n) then m (src + (i - off)) else byte_at s i)

  abbrev Writes : Content → (off n src : ℕ) → Mem → Option (ℕ × Content) → Type 0
  Writes s off n src m none = HasHole sb s off n
  Writes s off n src m (some (o, t)) = (o ≡ off + n) × Takes s off n src m t

  -- What `writei` does to a file: the number is returned, the size grows to the end of the bytes.
  abbrev pub WritesFile :
      Mem → (now off n src : ℕ) → FileInode → Option (Option ℕ × FileInode) → Type 0
  WritesFile m now off n src ip none = HasHole sb ip.content off n
  WritesFile m now off n src ip (some (r, ip')) =
      (r ≡ some n)
      × (ip' ≡ record ip {
        mtime = now;
        modtime = now;
        size = if ltb 0 n && ltb ip.size (off + n) then off + n else ip.size;
        content = ip'.content;
      })
      × Takes ip.content off n src m ip'.content

  module _ (pos : 0 < sb.size) (small : sb.size ≤ 2 ^ 32) (m : Mem) (bytes : IsBytes m) where
    module _ (s t : Content) (off n k src b : ℕ) (mp : Mapped sb s (off / bsize) b t)
        (ek : k ≡ chunk n off) (some_left : 0 < n) (le : off + n ≤ maxbytes) where
      abbrev block : Mem
      block = changed_block t off k src b m

      abbrev after : Content
      after = changed t off k src b m

-- A `writei` to a file that is not a device fails if the offset is larger than the size, the sum of
-- offset and number wraps or the bytes would end behind the largest file; it changes the times of
-- the inode and nothing else.
pub writei_refuses :
    (sb : Superblock) (devsw : ℕ → Option Handler) (now off n src : ℕ) (ip : FileInode) (m : Mem)
    → ip.type ≢ t_dev
    → off < 2 ^ 32
    → n < 2 ^ 32
    → ((ip.size < off) ⊎ (maxbytes < off + n))
    → writei sb devsw now off n src ip m ≡ some (none, record ip { mtime = now; modtime = now })
unfolding writei write_file
writei_refuses sb devsw now off n src ip m file lo ln bad =
    let no_device : (ip.type == t_dev) ≡ false = ground arith in
    rw no_device (elim (Bool-cases (ltb ip.size off || ltb ((off + n) % 2 ^ 32) off)) [
      | inl refused ↦ rw refused
      | inr good ↦ let big : ltb maxbytes (off + n) ≡ true = ground arith in rw (good, big)
    ])
