-- ===== src/FreeMap/Scan.antt =====
-- The loops of `balloc`: they stop at the first free block.
use xv7_mirror.Base.{
  ℕ, zero, suc, ◌+◌, ◌-◌, ◌/◌, ◌%◌, ◌≤◌, ◌<◌, ◌≡◌, inl, inr, Bool, true, false, not, Option, none,
  some, arith, ltb, Bool-cases, ltb→lt, ltb_false→le,
}
use xv7_mirror.Str.{Mem}
use xv7_mirror.FreeMap.{
  Blocks, Superblock, bblock, bpb, set_block, is_free, mark, bzero, scan_bits, scan_blocks,
  take_bit, balloc,
}

-- The first bit from `bi` on, of `n` bits of blocks below `size`, that is clear.
abbrev FindsBit : ℕ → ℕ → Mem → ℕ → ℕ → Option ℕ → Type 0
FindsBit size n m b bi none = (j : ℕ) → bi ≤ j → j < bi + n → b + j < size → is_free m j ≡ false
FindsBit size n m b bi (some i) =
    (bi ≤ i)
    × (i < bi + n)
    × (b + i < size)
    × (is_free m i ≡ true)
    × ((j : ℕ) → bi ≤ j → j < i → is_free m j ≡ false)

FindsBit-suc :
    (size n : ℕ) (m : Mem) (b bi : ℕ) (r : Option ℕ)
    → is_free m bi ≡ false
    → FindsBit size n m b (bi + 1) r
    → FindsBit size (suc n) m b bi r
FindsBit-suc size n m b bi none h f = λ j lo hi lt. elim (Bool-cases (ltb bi j)) [
  | inl later ↦ f j (ground arith) (omega arith) lt
  | inr first ↦ let e : j ≡ bi = ground arith in rw e h
]
FindsBit-suc size n m b bi (some i) h (lo, hi, lt, free, before) = (
  omega arith,
  omega arith,
  lt,
  free,
  λ j l u. elim (Bool-cases (ltb bi j)) [
    | inl later ↦ before j (ground arith) u
    | inr first ↦ let e : j ≡ bi = ground arith in rw e h
  ],
)

module _ (sb : Superblock) where
  abbrev pub used : Blocks → ℕ → Bool
  used d c = not (is_free (d (bblock sb c)) (c % bpb))

  scan_bits-Finds : (n : ℕ) (m : Mem) (b bi : ℕ) → FindsBit sb.size n m b bi (scan_bits sb n m b bi)
  unfolding scan_bits
  scan_bits-Finds zero m b bi = λ j lo hi lt. absurd (omega arith)
  scan_bits-Finds (suc n) m b bi = elim (Bool-cases (ltb (b + bi) sb.size)) [
    | inl inside ↦ rw inside (elim (Bool-cases (is_free m bi)) [
      | inl free ↦ rw free (
        omega arith,
        omega arith,
        ltb→lt (b + bi) sb.size inside,
        free,
        λ j lo hi. absurd (omega arith),
      )
      | inr full ↦ rw full (
          FindsBit-suc sb.size n m b bi (scan_bits sb n m b (bi + 1)) full
            (scan_bits-Finds n m b (bi + 1)))
    ])
    | inr outside ↦
        rw outside (λ j lo hi lt. absurd (omega (arith, ltb_false→le (b + bi) sb.size outside)))
  ]

  -- The device with block `c` marked and zeroed.
  abbrev pub claimed : ℕ → Blocks → Blocks
  claimed c d = bzero c (set_block (bblock sb c) (mark (c % bpb) (d (bblock sb c))) d)

  -- The first free block from `b` on, below the size of the device.
  abbrev pub Finds : ℕ → Blocks → Option (ℕ × Blocks) → Type 0
  Finds b d none = (c : ℕ) → b ≤ c → c < sb.size → used d c ≡ true
  Finds b d (some (c, d')) =
      (b ≤ c)
      × (c < sb.size)
      × (used d c ≡ false)
      × ((e : ℕ) → b ≤ e → e < c → used d e ≡ true)
      × (d' ≡ claimed c d)

  used-bit :
      (d : Blocks) (b i : ℕ)
      → b % bpb ≡ 0
      → i < bpb
      → used d (b + i) ≡ not (is_free (d (bblock sb b)) i)
  used-bit d b i al h =
      let q : (b + i) / bpb ≡ b / bpb = omega arith in
      let r : (b + i) % bpb ≡ i = omega arith in rw (q, r)

  Finds-next :
      (d : Blocks) (b : ℕ) (r : Option (ℕ × Blocks))
      → ((c : ℕ) → b ≤ c → c < b + bpb → c < sb.size → used d c ≡ true)
      → Finds (b + bpb) d r
      → Finds b d r
  Finds-next d b none h f = λ c lo lt. elim (Bool-cases (ltb c (b + bpb))) [
    | inl here ↦ h c lo (ltb→lt c (b + bpb) here) lt
    | inr later ↦ f c (ltb_false→le c (b + bpb) later) lt
  ]
  Finds-next d b (some (c, d')) h (lo, lt, free, before, e) = (
    omega arith,
    lt,
    free,
    λ x l u. elim (Bool-cases (ltb x (b + bpb))) [
      | inl here ↦ h x l (ltb→lt x (b + bpb) here) (omega arith)
      | inr later ↦ before x (ltb_false→le x (b + bpb) later) u
    ],
    e,
  )

  Finds-found :
      (d : Blocks) (b : ℕ) (found : Option ℕ) (next : Option (ℕ × Blocks))
      → b % bpb ≡ 0
      → FindsBit sb.size bpb (d (bblock sb b)) b 0 found
      → Finds (b + bpb) d next
      → Finds b d (elim found [ none ↦ next | some i ↦ some (take_bit sb b i d) ])
  unfolding take_bit
  Finds-found d b none next al bits rest =
      Finds-next d b next
        (λ c lo hi lt.
          let i = c - b in
          let e : b + i ≡ c = omega arith in
          let f : used d (b + i) ≡ true =
            rw
              (used-bit d b i al (omega arith), bits i (omega arith) (omega arith) (omega arith)) in
          rw e at f)
        rest
  Finds-found d b (some i) next al (lo, hi, lt, free, before) rest =
      let q : (b + i) / bpb ≡ b / bpb = omega arith in
      let r : (b + i) % bpb ≡ i = omega arith in
      (
        omega arith,
        lt,
        rw (used-bit d b i al hi, free),
        (λ e l u.
            let k = e - b in
            let same : b + k ≡ e = omega arith in
            let f : used d (b + k) ≡ true =
              rw (used-bit d b k al (omega arith), before k (omega arith) (omega arith)) in
            rw same at f),
        rw (q, r),
      )

  scan_blocks-Finds :
      (fuel b : ℕ) (d : Blocks)
      → b % bpb ≡ 0
      → sb.size < b + fuel
      → Finds b d (scan_blocks sb fuel b d)
  unfolding scan_blocks
  scan_blocks-Finds zero b d al enough = λ c lo lt. absurd (omega arith)
  scan_blocks-Finds (suc fuel) b d al enough = elim (Bool-cases (ltb b sb.size)) [
    | inr outside ↦ rw outside (λ c lo lt. absurd (omega (arith, ltb_false→le b sb.size outside)))
    | inl inside ↦ rw inside (
        Finds-found d b (scan_bits sb bpb (d (bblock sb b)) b 0) (scan_blocks sb fuel (b + bpb) d)
          al (scan_bits-Finds bpb (d (bblock sb b)) b 0)
          (scan_blocks-Finds fuel (b + bpb) d (omega arith) (omega arith)))
  ]

  pub balloc-Finds : (d : Blocks) → Finds 0 d (balloc sb d)
  unfolding balloc
  balloc-Finds d = scan_blocks-Finds (sb.size + 1) 0 d (omega arith) (omega arith)
