-- ===== src/FileData/Read.antt =====
-- `readi` gives the bytes of the file.
use xv7_mirror.Base.{
  ℕ, zero, suc, ◌+◌, ◌-◌, ◌/◌, ◌%◌, ◌^◌, ◌≤◌, ◌<◌, ◌≡◌, ◌≢◌, refl, sym, ◌∙◌, subst, true, false,
  ◌&&◌, ◌||◌, arith, ltb, leb, ◌==◌, if◌then◌else◌, Bool-cases, inl, inr, ◌⊎◌, ==→eq, ==_false→ne,
  ne→==_false, some, none, Option, ltb→lt, min,
}
use xv7_mirror.Str.{Mem}
use xv7_mirror.FreeMap.{Superblock, bsize}
use xv7_mirror.Bmap.{Content, bmap}
use xv7_mirror.Bmap.Nodes.{IsTree}
use xv7_mirror.Bmap.Slots.{maxfile, data_addr}
use xv7_mirror.Bmap.Mapped.{Mapped, Maps, bmap_lem}
use xv7_mirror.Bmap.Bytes.{byte_at, byte_at-Mapped}
use xv7_mirror.FileData.{
  FileInode, Handler, maxbytes, t_dev, chunk, move_bytes, read_loop, read_done, readi, read_file,
}

module _ (sb : Superblock) where
  -- The same bytes, on a well-formed tree again, and no block less.
  pub record SameBytes (s t : Content) : Type 0 where
    pub tree : IsTree sb t
    pub bytes : (i : ℕ) → i < maxbytes → byte_at t i ≡ byte_at s i
    pub holes : (bm : ℕ) → bm < maxfile → data_addr t bm ≡ 0 → data_addr s bm ≡ 0

  -- One of the `n` bytes from `off` on has no block.
  abbrev pub HasHole : Content → ℕ → ℕ → Type 0
  HasHole s off n = (i : ℕ) × (off ≤ i) × (i < off + n) × (data_addr s (i / bsize) ≡ 0)

  -- The memory with `n` bytes of the file from `off` on at `dst`.
  abbrev pub Gives : Content → (off n dst : ℕ) → Mem → Mem → Type 0
  Gives s off n dst m m' =
      (a : ℕ) → m' a ≡ (if leb dst a && ltb a (dst + n) then byte_at s (off + (a - dst)) else m a)

  abbrev Reads : Content → (off n dst : ℕ) → Mem → Option (Content × Mem) → Type 0
  Reads s off n dst m none = HasHole s off n
  Reads s off n dst m (some (t, m')) = SameBytes s t × Gives s off n dst m m'

  -- A byte of the block that `bmap` has found.
  pub byte_in_block :
      (s t : Content) (bn b i : ℕ)
      → Mapped sb s bn b t
      → bn < maxfile
      → i / bsize ≡ bn
      → t.blocks b (i % bsize) ≡ byte_at s i
  unfolding byte_at
  byte_in_block s t bn b i m lt e =
      let here : byte_at t i ≡ t.blocks b (i % bsize) =
        rw (e, m.result, ne→==_false b 0 m.nonzero) in
      sym here ∙ byte_at-Mapped sb i m lt (rw e lt)

  pub hole_back :
      (s t : Content) (bn b bm : ℕ)
      → Mapped sb s bn b t
      → bm < maxfile
      → data_addr t bm ≡ 0
      → data_addr s bm ≡ 0
  hole_back s t bn b bm m lt z = elim (Bool-cases (bm == bn)) [
    | inl here ↦
        absurd (
          let e = ==→eq bm bn here in m.nonzero (sym m.result ∙ subst (λ x. data_addr t x ≡ 0) e z))
    | inr other ↦ sym (m.others bm lt (==_false→ne bm bn other)) ∙ z
  ]

  given :
      (s t : Content) (off n k dst b : ℕ) (m : Mem) (a : ℕ)
      → Mapped sb s (off / bsize) b t
      → k ≡ chunk n off
      → 0 < n
      → off + n ≤ maxbytes
      → (if leb (dst + k) a && ltb a (dst + k + (n - k))
          then byte_at t (off + k + (a - (dst + k)))
          else move_bytes dst (off % bsize) k (t.blocks b) m a)
        ≡ (if leb dst a && ltb a (dst + n) then byte_at s (off + (a - dst)) else m a)
  unfolding move_bytes
  given s t off n k dst b m a mp ek pos le = elim (Bool-cases (leb dst a && ltb a (dst + k))) [
    | inl here ↦
        let lo : dst ≤ a = ground arith in
        let hi : a < dst + k = ground arith in
        let past : (leb (dst + k) a && ltb a (dst + k + (n - k))) ≡ false = ground arith in
        let all : (leb dst a && ltb a (dst + n)) ≡ true = ground arith in
        let pos_in : (off + (a - dst)) % bsize ≡ off % bsize + (a - dst) = omega arith in
        let e =
          byte_in_block s t (off / bsize) b (off + (a - dst)) mp (omega arith) (omega arith) in
        rw (past, here, all) (rw pos_in at e)
    | inr away ↦ elim (Bool-cases (leb dst a && ltb a (dst + n))) [
      | inl later ↦
          let past : (leb (dst + k) a && ltb a (dst + k + (n - k))) ≡ true = ground arith in
          let same : off + k + (a - (dst + k)) ≡ off + (a - dst) = ground arith in
          rw (past, later, same)
            (byte_at-Mapped sb (off + (a - dst)) mp (omega arith) (ground arith))
      | inr out ↦
          let past : (leb (dst + k) a && ltb a (dst + k + (n - k))) ≡ false = ground arith in
          rw (past, away, out)
    ]
  ]

  read_round :
      (s t : Content) (off n k dst b : ℕ) (m : Mem) (r : Option (Content × Mem))
      → Mapped sb s (off / bsize) b t
      → k ≡ chunk n off
      → 0 < n
      → off + n ≤ maxbytes
      → Reads t (off + k) (n - k) (dst + k) (move_bytes dst (off % bsize) k (t.blocks b) m) r
      → Reads s off n dst m r
  read_round s t off n k dst b m none mp ek pos le (i, lo, hi, z) =
      (i, omega arith, omega arith, hole_back s t (off / bsize) b (i / bsize) mp (omega arith) z)
  read_round s t off n k dst b m (some (u, m')) mp ek pos le (same, gives) = (
    record {
      tree = same.tree;
      bytes = λ i h. same.bytes i h ∙ byte_at-Mapped sb i mp (omega arith) (omega arith);
      holes = λ bm h z. hole_back s t (off / bsize) b bm mp h (same.holes bm h z);
    },
    λ a. gives a ∙ given s t off n k dst b m a mp ek pos le,
  )

  -- What `readi` returns of a file: the number of bytes, the inode with the times, the memory.
  abbrev pub ReadsFile :
      (now off n dst : ℕ) → FileInode → Mem → Option (Option ℕ × FileInode × Mem) → Type 0
  ReadsFile now off n dst ip m none = HasHole ip.content off (min n (ip.size - off))
  ReadsFile now off n dst ip m (some (r, ip', m')) =
      (r ≡ some (min n (ip.size - off)))
      × (ip' ≡ record ip { atime = now; modtime = now; content = ip'.content })
      × SameBytes ip.content ip'.content
      × Gives ip.content off (min n (ip.size - off)) dst m m'

  module _ (pos : 0 < sb.size) (small : sb.size ≤ 2 ^ 32) where
    read_block :
        (fuel tot n off dst : ℕ) (s : Content) (m : Mem) (r : Option (ℕ × Content))
        → tot < n
        → off + (n - tot) ≤ maxbytes
        → Maps sb s (off / bsize) r
        → ((k : ℕ) (t : Content) (m' : Mem)
            → k ≡ chunk (n - tot) off
            → IsTree sb t
            → Reads t
                (off + k)
                (n - (tot + k))
                (dst + k)
                m'
                (read_loop sb fuel (tot + k) n (off + k) (dst + k) t m'))
        → Reads s off (n - tot) dst m (elim r [
          | none ↦ none
          | some (b, t) ↦
              read_loop sb fuel
                (tot + chunk (n - tot) off)
                n
                (off + chunk (n - tot) off)
                (dst + chunk (n - tot) off)
                t
                (move_bytes dst (off % bsize) (chunk (n - tot) off) (t.blocks b) m)
        ])
    read_block fuel tot n off dst s m none lt le mp rest = (off, omega arith, omega arith, mp.0)
    read_block fuel tot n off dst s m (some (b, t)) lt le mp rest =
        let k = chunk (n - tot) off in
        let m' = move_bytes dst (off % bsize) k (t.blocks b) m in
        let e : n - (tot + k) ≡ n - tot - k = omega arith in
        read_round s t off (n - tot) k dst b m
          (read_loop sb fuel (tot + k) n (off + k) (dst + k) t m') mp refl (omega arith) le
          (rw e at (rest k t m' refl mp.tree))

    read_loop-Reads :
        (fuel tot n off dst : ℕ) (s : Content) (m : Mem)
        → n - tot < fuel
        → off + (n - tot) ≤ maxbytes
        → IsTree sb s
        → Reads s off (n - tot) dst m (read_loop sb fuel tot n off dst s m)
    unfolding read_loop
    read_loop-Reads zero tot n off dst s m enough le tree = absurd (omega arith)
    read_loop-Reads (suc fuel) tot n off dst s m enough le tree = elim (Bool-cases (ltb tot n)) [
      | inl more ↦ rw more (
          read_block fuel tot n off dst s m (bmap sb (off / bsize) s) (ltb→lt tot n more) le
            (bmap_lem sb s (off / bsize) pos small tree (omega (arith, ltb→lt tot n more)))
            (λ k t m' ek tree'.
              read_loop-Reads fuel (tot + k) n (off + k) (dst + k) t m'
                (omega (arith, ltb→lt tot n more)) (omega (arith, ltb→lt tot n more)) tree'))
      | inr done ↦ rw done (
        record { tree = tree; bytes = λ i h. refl; holes = λ bm h z. z },
        λ a. let out : (leb dst a && ltb a (dst + (n - tot))) ≡ false = ground arith in rw out,
      )
    ]

    read_done-ReadsFile :
        (now off n dst : ℕ) (ip : FileInode) (m : Mem) (r : Option (Content × Mem))
        → Reads ip.content off (min n (ip.size - off)) dst m r
        → ReadsFile now off n dst ip m
            (read_done sb (min n (ip.size - off)) (record ip { modtime = now; atime = now }) r)
    unfolding read_done
    read_done-ReadsFile now off n dst ip m none h = h
    read_done-ReadsFile now off n dst ip m (some (s, m')) (same, gives) = (refl, refl, same, gives)

    pub readi_lem :
        (devsw : ℕ → Option Handler) (now off n dst : ℕ) (ip : FileInode) (m : Mem)
        → IsTree sb ip.content
        → ip.type ≢ t_dev
        → ip.size ≤ maxbytes
        → off ≤ ip.size
        → off + n < 2 ^ 32
        → ReadsFile now off n dst ip m (readi sb devsw now off n dst ip m)
    unfolding readi read_file
    readi_lem devsw now off n dst ip m tree file small_file inside fits =
        let no_device : (ip.type == t_dev) ≡ false = ground arith in
        let no_wrap : (off + n) % 2 ^ 32 ≡ off + n = omega arith in
        let good : (ltb ip.size off || ltb (off + n) off) ≡ false = ground arith in
        let k : (if ltb ip.size (off + n) then ip.size - off else n) ≡ min n (ip.size - off) =
          ground arith in
        let got = min n (ip.size - off) in
        let whole : got - 0 ≡ got = omega arith in
        let h =
          read_loop-Reads (got + 1) 0 got off dst ip.content m (omega arith) (omega arith) tree in
        rw (no_device, no_wrap, good, k)
          (read_done-ReadsFile now off n dst ip m
            (read_loop sb (got + 1) 0 got off dst ip.content m) (rw whole at h))

-- A `readi` of a file that is not a device fails if the offset is larger than the size or the sum
-- of offset and number wraps; it changes the times of the inode and nothing else.
pub readi_refuses :
    (sb : Superblock) (devsw : ℕ → Option Handler) (now off n dst : ℕ) (ip : FileInode) (m : Mem)
    → ip.type ≢ t_dev
    → off < 2 ^ 32
    → n < 2 ^ 32
    → ((ip.size < off) ⊎ (2 ^ 32 ≤ off + n))
    → readi sb devsw now off n dst ip m ≡ some (none, record ip { atime = now; modtime = now }, m)
unfolding readi read_file
readi_refuses sb devsw now off n dst ip m file lo ln bad =
    let no_device : (ip.type == t_dev) ≡ false = ground arith in
    let no_good : (ltb ip.size off || ltb ((off + n) % 2 ^ 32) off) ≡ true = elim bad [
      | inl past ↦ ground arith
      | inr wraps ↦
          let e : (off + n) % 2 ^ 32 ≡ off + n - 2 ^ 32 = omega arith in rw e (ground arith)
    ] in
    rw (no_device, no_good)
