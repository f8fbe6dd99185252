-- ===== src/Dir/Link.antt =====
-- The parts of `dirlink`: the entry that it fills, and the search for its place.
use xv7_mirror.Base.{
  ℕ, zero, suc, ◌+◌, ◌-◌, ◌/◌, ◌%◌, ◌^◌, ◌≤◌, ◌<◌, ◌≡◌, refl, sym, ◌∙◌, true, arith, ltb, ◌==◌,
  if◌then◌else◌, Bool-cases, inl, inr, ◌⊎◌, ==→eq, ltb→lt, some, none, Option,
}
use xv7_mirror.Str.{Mem, store, strncpy}
use xv7_mirror.PathName.{dirsiz}
use xv7_mirror.FreeMap.{Superblock}
use xv7_mirror.FileData.{FileInode, Handler}
use xv7_mirror.FileData.Read.{HasHole}
use xv7_mirror.Dir.{desize, entry_inum, Outcome, read_entry, fill_entry, empty_loop}
use xv7_mirror.Dir.Names.{
  names_agree, names_agree_ext, strncpy_outside, names_agree-strncpy, strncpy_range,
}
use xv7_mirror.Dir.Entries.{
  inum_at, ApartFrom, IsDir, SameDir, SameDir-IsDir, SameDir-refl, SameDir-trans, inum_at-same,
  Outside, Loaded, Loads, read_entry-Loads, Loaded-inum,
}

-- What `fill_entry` leaves at `de`.
module _ (name inum de : ℕ) (m : Mem) (apart : ApartFrom de name)
    (bytes : (k : ℕ) → k < dirsiz → m (name + k) < 256) where
  pub filled-outside : (a : ℕ) → ((a < de) ⊎ (de + desize ≤ a)) → fill_entry name inum de m a ≡ m a
  unfolding fill_entry store
  filled-outside a h =
      let e =
        strncpy_outside dirsiz (de + 2) name a m
          (elim h [ inl x ↦ inl (omega arith) | inr x ↦ inr (omega arith) ]) in
      ground (arith, e)

  pub filled-inum : entry_inum (fill_entry name inum de m) de ≡ inum % 2 ^ 16
  unfolding fill_entry store
  filled-inum = ground arith

  pub filled-name : names_agree dirsiz m name (fill_entry name inum de m) (de + 2) ≡ true
  filled-name =
      names_agree_ext dirsiz m name (fill_entry name inum de m) (de + 2) m name
        (strncpy (de + 2) name dirsiz m) (de + 2) (λ k lt. refl)
        (λ k lt. unfold fill_entry in unfold store in ground arith)
      ∙ names_agree-strncpy dirsiz (de + 2) name m
          (elim apart [ inl x ↦ inl (omega arith) | inr x ↦ inr (omega arith) ])

  pub filled-bytes : (k : ℕ) → k < desize → fill_entry name inum de m (de + k) < 256
  unfolding fill_entry store
  filled-bytes k lt = elim (Bool-cases (ltb k 2)) [
    | inl first ↦ ground arith
    | inr later ↦
        let h = strncpy_range dirsiz (de + 2) name (de + k) m bytes (ground arith) (ground arith) in
        ground (arith, h)
  ]

module _ (sb : Superblock) (de : ℕ) where
  -- The first entry from `off` on that is not in use, or the end of the directory.
  pub record EmptyAt (dp : FileInode) (off : ℕ) (m : Mem) (o : ℕ) (dp' : FileInode) (m' : Mem)
      : Type 0 where
    pub dir : SameDir sb dp dp'
    pub outside : Outside sb de m m'
    pub from : off ≤ o
    pub inside : o ≤ dp.size
    pub aligned : o % desize ≡ 0
    pub free : o < dp.size → inum_at dp.content o ≡ 0

  abbrev pub Empties : FileInode → (off : ℕ) → Mem → Outcome ℕ → Type 0
  Empties dp off m none = HasHole sb dp.content off (dp.size - off)
  Empties dp off m (some (o, dp', m')) = EmptyAt dp off m o dp' m'

  further-Empties :
      (dp : FileInode) (off : ℕ) (m : Mem) (dp' : FileInode) (m' : Mem) (r : Outcome ℕ)
      → IsDir sb dp
      → dp.size % desize ≡ 0
      → off + desize ≤ dp.size
      → Loaded sb dp off de m dp' m'
      → Empties dp' (off + desize) m' r
      → Empties dp off m r
  further-Empties dp off m dp' m' none d whole le l (i, lo, hi, z) =
      let sz = l.dir.size in
      let top : i < dp.size = omega arith in
      (i, omega arith, omega arith, l.dir.content.holes (i / 512) (omega (arith, d.fits)) z)
  further-Empties dp off m dp' m' (some (o, dp'', m'')) d whole le l f =
      let sz = l.dir.size in
      record {
        dir = SameDir-trans sb l.dir f.dir;
        outside = λ a h. f.outside a h ∙ l.outside a h;
        from = (let lo = f.from in omega arith);
        inside = (let hi = f.inside in omega arith);
        aligned = f.aligned;
        free = λ lt.
            let al = f.aligned in
            sym (inum_at-same sb dp.content dp'.content o l.dir.content (omega (arith, d.fits)))
            ∙ f.free (omega arith);
      }

  module _ (pos : 0 < sb.size) (small : sb.size ≤ 2 ^ 32) (devsw : ℕ → Option Handler)
      (now : ℕ) where
    empty_round :
        (fuel off : ℕ) (dp : FileInode) (m : Mem) (r : Option (FileInode × Mem))
        → IsDir sb dp
        → dp.size % desize ≡ 0
        → off % desize ≡ 0
        → off + desize ≤ dp.size
        → Loads sb dp off de m r
        → ((dp' : FileInode) (m' : Mem)
            → IsDir sb dp'
            → dp'.size ≡ dp.size
            → Empties dp' (off + desize) m' (empty_loop sb devsw now de fuel (off + desize) dp' m'))
        → Empties dp off m (elim r [
          | none ↦ none
          | some (dp', m') ↦
              if entry_inum m' de == 0
              then some (off, dp', m')
              else empty_loop sb devsw now de fuel (off + desize) dp' m'
        ])
    empty_round fuel off dp m none d whole al le (i, lo, hi, z) rest = (i, lo, omega arith, z)
    empty_round fuel off dp m (some (dp', m')) d whole al le l rest =
        let e = Loaded-inum sb dp off de m dp' m' l in
        elim (Bool-cases (inum_at dp.content off == 0)) [
          | inl free ↦
              rw (e, free)
                (record {
                  dir = l.dir;
                  outside = l.outside;
                  from = omega arith;
                  inside = omega arith;
                  aligned = al;
                  free = λ lt. ==→eq (inum_at dp.content off) 0 free;
                })
          | inr taken ↦
              rw (e, taken)
                (further-Empties dp off m dp' m'
                  (empty_loop sb devsw now de fuel (off + desize) dp' m') d whole le l
                  (rest dp' m' (SameDir-IsDir sb d l.dir) l.dir.size))
        ]

    pub empty_loop-Empties :
        (fuel off : ℕ) (dp : FileInode) (m : Mem)
        → IsDir sb dp
        → dp.size % desize ≡ 0
        → off % desize ≡ 0
        → off ≤ dp.size
        → dp.size < off + fuel
        → Empties dp off m (empty_loop sb devsw now de fuel off dp m)
    unfolding empty_loop
    empty_loop-Empties zero off dp m d whole al le enough = absurd (omega arith)
    empty_loop-Empties (suc fuel) off dp m d whole al le enough =
        elim (Bool-cases (ltb off dp.size)) [
          | inl more ↦
              let lt = ltb→lt off dp.size more in
              rw more (
                empty_round fuel off dp m (read_entry sb devsw now de off dp m) d whole al
                  (omega arith)
                  (read_entry-Loads sb pos small devsw now de off dp m d (omega arith))
                  (λ dp' m' d' e.
                    empty_loop-Empties fuel (off + desize) dp' m' d' (rw e whole) (omega arith)
                      (omega (arith, e)) (omega (arith, e))))
          | inr done ↦ rw done (record {
            dir = SameDir-refl sb dp d;
            outside = λ a h. refl;
            from = omega arith;
            inside = le;
            aligned = al;
            free = λ lt. absurd (ground arith);
          })
        ]
