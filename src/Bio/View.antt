-- ===== src/Bio/View.antt =====
-- What the cache shows of the disk, and what keeps it the same.
use xv7_mirror.Base.Modify.{modify}
use xv7_mirror.Base.{
  ℕ, zero, suc, ◌≡◌, ◌≢◌, refl, ap, sym, ◌∙◌, Bool, true, false, ◌&&◌, some, List, [], ◌∷◌, arith,
  ◌==◌, if◌then◌else◌, get_elem?, Bool-cases, inl, inr, subst,
}
use xv7_mirror.Bio.{Disk, Buf, Cache, matches, reusable, claim}

-- What the cache shows of a block: its buffer's contents if it has any, else the disk's.
abbrev pub view : Disk → Cache → ℕ → ℕ → List ℕ
view d [] dev n = d dev n
view d (b ∷ bs) dev n =
    if matches dev n b then if b.valid then b.bytes else d dev n else view d bs dev n

abbrev pub cached : ℕ → ℕ → Cache → Bool
cached dev n [] = false
cached dev n (b ∷ bs) = if matches dev n b then true else cached dev n bs

-- No block of a device stands in two buffers; device 0 is that of the buffers not used yet.
abbrev pub Once : Cache → Type 0
Once [] = Unit
Once (b ∷ bs) = (b.dev ≢ 0 → cached b.dev b.blockno bs ≡ false) × Once bs

-- A buffer that may be given to another block holds nothing that the disk does not; one without
-- contents is not dirty.
pub record Sound (d : Disk) (b : Buf) : Type 0 where
  pub coherent : b.valid ≡ true → reusable b ≡ true → b.bytes ≡ d b.dev b.blockno
  pub fresh : b.valid ≡ false → b.dirty ≡ false

pub view-absent :
    (d : Disk) (c : Cache) (dev n : ℕ) → cached dev n c ≡ false → view d c dev n ≡ d dev n
view-absent d [] dev n h = refl
view-absent d (b ∷ bs) dev n h = elim (Bool-cases (matches dev n b)) [
  | inl m ↦ absurd (ground arith)
  | inr m ↦ rw m (view-absent d bs dev n (ground arith))
]

cached-at :
    (c : Cache) (i dev n : ℕ) (b : Buf)
    → get_elem? c i ≡ some b
    → matches dev n b ≡ true
    → cached dev n c ≡ true
cached-at [] i dev n b e m = absurd (ground arith)
cached-at (x ∷ xs) zero dev n b e m = let same : x ≡ b = ground arith in rw (same, m)
cached-at (x ∷ xs) (suc i) dev n b e m = ground (arith, cached-at xs i dev n b e m)

pub matches-dev : (dev n : ℕ) (b : Buf) → matches dev n b ≡ true → (b.dev ≡ dev) × (b.blockno ≡ n)
matches-dev dev n b m = ground arith

-- Two buffers of a list that match a block of a device other than 0 are one.
pub no_second :
    (x : Buf) (xs : Cache) (i dev n : ℕ) (b : Buf)
    → Once (x ∷ xs)
    → dev ≢ 0
    → get_elem? xs i ≡ some b
    → matches dev n b ≡ true
    → matches dev n x ≡ false
no_second x xs i dev n b (o, os) nz e m = elim (Bool-cases (matches dev n x)) [
  | inl k ↦
      let (sd, sn) = matches-dev dev n x k in
      let none_left : cached dev n xs ≡ false =
        subst (λ y. cached y n xs ≡ false) sd
          (subst (λ y. cached x.dev y xs ≡ false) sn (o (λ z. nz (sym sd ∙ z)))) in
      absurd (cc (cached-at xs i dev n b e m, none_left))
  | inr k ↦ k
]

-- A buffer that matches is the one that is shown.
pub view-at :
    (d : Disk) (c : Cache) (i dev n : ℕ) (b : Buf)
    → Once c
    → dev ≢ 0
    → get_elem? c i ≡ some b
    → matches dev n b ≡ true
    → view d c dev n ≡ (if b.valid then b.bytes else d dev n)
view-at d [] i dev n b o nz e m = absurd (ground arith)
view-at d (x ∷ xs) zero dev n b o nz e m = let same : x ≡ b = ground arith in rw (same, m)
view-at d (x ∷ xs) (suc i) dev n b o nz e m =
    rw (no_second x xs i dev n b o nz e m) (view-at d xs i dev n b o.1 nz e m)

-- Another disk that has the same block.
pub view-disk :
    (d d' : Disk) (c : Cache) (dev n : ℕ) → d' dev n ≡ d dev n → view d' c dev n ≡ view d c dev n
view-disk d d' [] dev n h = h
view-disk d d' (b ∷ bs) dev n h = rw (h, view-disk d d' bs dev n h)

module _ (f : Buf → Buf) (b : Buf) (same_dev : (f b).dev ≡ b.dev)
    (same_no : (f b).blockno ≡ b.blockno) where
  pub cached-modify :
      (c : Cache) (i dev n : ℕ)
      → get_elem? c i ≡ some b
      → cached dev n (modify c i f) ≡ cached dev n c
  cached-modify [] i dev n e = refl
  cached-modify (x ∷ xs) zero dev n e =
      let same : x ≡ b = ground arith in rw (same, same_dev, same_no)
  cached-modify (x ∷ xs) (suc i) dev n e = rw (cached-modify xs i dev n e)

  pub Once-modify : (c : Cache) (i : ℕ) → get_elem? c i ≡ some b → Once c → Once (modify c i f)
  Once-modify [] i e o = tt
  Once-modify (x ∷ xs) zero e (o, os) =
      let same : x ≡ b = ground arith in
      (
        rw (same, same_dev, same_no)
            (subst (λ (y : Buf). y.dev ≢ 0 → cached y.dev y.blockno xs ≡ false) same o),
        os,
      )
  Once-modify (x ∷ xs) (suc i) e (o, os) =
      ((λ nz. cached-modify xs i x.dev x.blockno e ∙ o nz), Once-modify xs i e os)

  -- A change of one buffer that shows the same.
  pub view-modify :
      (d : Disk) (c : Cache) (i dev n : ℕ)
      → get_elem? c i ≡ some b
      → (matches dev n b ≡ true
          → (if (f b).valid then (f b).bytes else d dev n) ≡ (if b.valid then b.bytes else d dev n))
      → view d (modify c i f) dev n ≡ view d c dev n
  view-modify d [] i dev n e h = refl
  view-modify d (x ∷ xs) zero dev n e h =
      let same : x ≡ b = ground arith in
      elim (Bool-cases (matches dev n b)) [
        | inl m ↦ rw (same, same_dev, same_no, m) (h m)
        | inr m ↦ rw (same, same_dev, same_no, m)
      ]
  view-modify d (x ∷ xs) (suc i) dev n e h = rw (view-modify d xs i dev n e h)

-- A buffer is given to block `n` of device `dev`, which no buffer holds.
module _ (dev n : ℕ) (b : Buf) where
  cached-claim :
      (c : Cache) (i x y : ℕ)
      → cached x y c ≡ false
      → ((dev == x) && (n == y)) ≡ false
      → cached x y (modify c i (claim dev n)) ≡ false
  cached-claim [] i x y h ne = refl
  cached-claim (z ∷ zs) zero x y h ne = rw ne (ground arith)
  cached-claim (z ∷ zs) (suc i) x y h ne =
      let apart : matches x y z ≡ false = ground arith in
      rw apart (cached-claim zs i x y (ground arith) ne)

  pub Once-claim :
      (c : Cache) (i : ℕ) → Once c → cached dev n c ≡ false → Once (modify c i (claim dev n))
  Once-claim [] i o new = tt
  Once-claim (z ∷ zs) zero o new = ((λ nz. ground arith), o.1)
  Once-claim (z ∷ zs) (suc i) o new = (
    (λ nz. cached-claim zs i z.dev z.blockno (o.0 nz) (ground arith)),
    Once-claim zs i o.1 (ground arith),
  )

  pub view-claim :
      (d : Disk) (c : Cache) (i x y : ℕ)
      → get_elem? c i ≡ some b
      → (b.valid ≡ true → b.bytes ≡ d b.dev b.blockno)
      → Once c
      → cached dev n c ≡ false
      → x ≢ 0
      → view d (modify c i (claim dev n)) x y ≡ view d c x y
  view-claim d [] i x y e co o new nz = refl
  view-claim d (z ∷ zs) (suc i) x y e co o new nz =
      rw (view-claim d zs i x y e co o.1 (ground arith) nz)
  view-claim d (z ∷ zs) zero x y e co o new nz = elim (Bool-cases ((dev == x) && (n == y))) [
    | inl m ↦
        let sx : dev ≡ x = ground arith in
        let sy : n ≡ y = ground arith in
        rw m (
          sym (
            view-absent d (z ∷ zs) x y (
              subst (λ k. cached x k (z ∷ zs) ≡ false) sy
                (subst (λ k. cached k n (z ∷ zs) ≡ false) sx new))))
    | inr m ↦ elim (Bool-cases (matches x y z)) [
      | inl k ↦
          let same : z ≡ b = ground arith in
          let (sd, sn) = matches-dev x y z k in
          let gone : cached x y zs ≡ false =
            subst (λ w. cached w y zs ≡ false) sd
              (subst (λ w. cached z.dev w zs ≡ false) sn (o.0 (λ h. nz (sym sd ∙ h)))) in
          let old : z.valid ≡ true → z.bytes ≡ d x y = λ v.
            subst (λ (w : Buf). w.valid ≡ true → w.bytes ≡ d w.dev w.blockno) (sym same) co v
            ∙ ap (λ w. d w z.blockno) sd
            ∙ ap (d x) sn in
          rw (m, k)
            (view-absent d zs x y gone
              ∙ elim (Bool-cases z.valid) [ inl v ↦ rw v (sym (old v)) | inr v ↦ rw v ])
      | inr k ↦ rw (m, k)
    ]
  ]
