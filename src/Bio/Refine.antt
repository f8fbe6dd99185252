-- ===== src/Bio/Refine.antt =====
-- `bread` and `brelse` keep what the cache shows of the disk.
use mathlib.Core.Option
use xv7_mirror.Base.Modify.{modify, get-modify_self}
use xv7_mirror.Base.Mem.{All}
use xv7_mirror.Base.{
  ℕ, zero, suc, ◌≡◌, ◌≢◌, ◌≤◌, refl, ap, sym, ◌∙◌, true, false, Option, none, some, [], ◌∷◌, arith,
  if◌then◌else◌, get_elem?, Bool-cases, inl, inr, subst,
}
use xv7_mirror.Bio.{
  Disk, Buf, Cache, matches, reusable, find_cached, find_reusable, hold, claim, fill, bget,
  get_cached, get_reusable, read_got, bread,
}
use xv7_mirror.Bio.View.{
  matches-dev, view, cached, Once, Sound, view-at, Once-modify, view-modify, Once-claim, view-claim,
}

-- The cache keeps each block once, and loses nothing when a buffer is given away.
pub record Good (d : Disk) (c : Cache) : Type 0 where
  pub once : Once c
  pub sound : All (Sound d) c

pub All-modify {ℓ} :
    (P : Buf → Type ℓ) (f : Buf → Buf) (c : Cache) (i : ℕ)
    → ((b : Buf) → get_elem? c i ≡ some b → P b → P (f b))
    → All P c
    → All P (modify c i f)
All-modify P f [] i h a = tt
All-modify P f (x ∷ xs) zero h (a, as') = (h x refl a, as')
All-modify P f (x ∷ xs) (suc i) h (a, as') = (a, All-modify P f xs i h as')

pub All-get {ℓ} :
    (P : Buf → Type ℓ) (c : Cache) (i : ℕ) (b : Buf) → get_elem? c i ≡ some b → All P c → P b
All-get P [] i b e a = absurd (ground arith)
All-get P (x ∷ xs) zero b e (a, as') = subst P (ground arith) a
All-get P (x ∷ xs) (suc i) b e (a, as') = All-get P xs i b e as'

-- What the search of `bget` finds.
CachedSpec : ℕ → ℕ → Cache → Option ℕ → Type 0
CachedSpec dev n c none = cached dev n c ≡ false
CachedSpec dev n c (some i) = (b : Buf) × (get_elem? c i ≡ some b) × (matches dev n b ≡ true)

CachedSpec-cons :
    (dev n : ℕ) (b : Buf) (c : Cache) (o : Option ℕ)
    → matches dev n b ≡ false
    → CachedSpec dev n c o
    → CachedSpec dev n (b ∷ c) (elim o [ none ↦ none | some i ↦ some (suc i) ])
unfolding CachedSpec
CachedSpec-cons dev n b c none m s = rw m s
CachedSpec-cons dev n b c (some i) m s = s

find_cached-CachedSpec : (dev n : ℕ) (c : Cache) → CachedSpec dev n c (find_cached dev n c)
unfolding find_cached
find_cached-CachedSpec dev n [] = unfold CachedSpec in refl
find_cached-CachedSpec dev n (b ∷ bs) = elim (Bool-cases (matches dev n b)) [
  | inl m ↦ rw m (unfold CachedSpec in (b, refl, m))
  | inr m ↦
      rw m (CachedSpec-cons dev n b bs (find_cached dev n bs) m (find_cached-CachedSpec dev n bs))
]

ReusableSpec : Cache → Option ℕ → Type 0
ReusableSpec c none = All (λ b. reusable b ≡ false) c
ReusableSpec c (some i) = (b : Buf) × (get_elem? c i ≡ some b) × (reusable b ≡ true)

ReusableSpec-cons :
    (b : Buf) (c : Cache) (o : Option ℕ)
    → ReusableSpec c o
    → ReusableSpec
        (b ∷ c)
        (elim o [ none ↦ if reusable b then some 0 else none | some i ↦ some (suc i) ])
unfolding ReusableSpec
ReusableSpec-cons b c none s = elim (Bool-cases (reusable b)) [
  | inl m ↦ rw m (b, refl, m)
  | inr m ↦ rw m (m, s)
]
ReusableSpec-cons b c (some i) s = s

find_reusable-ReusableSpec : (c : Cache) → ReusableSpec c (find_reusable c)
unfolding find_reusable
find_reusable-ReusableSpec [] = unfold ReusableSpec in tt
find_reusable-ReusableSpec (b ∷ bs) =
    ReusableSpec-cons b bs (find_reusable bs) (find_reusable-ReusableSpec bs)

-- What a `bread` that gets a buffer leaves.
pub record Got (d : Disk) (dev n : ℕ) (c c' : Cache) (i : ℕ) : Type 0 where
  pub good : Good d c'
  pub held :
      (b : Buf) × (get_elem? c' i ≡ some b)
      × (matches dev n b ≡ true)
      × (b.valid ≡ true)
      × (1 ≤ b.refcnt)
      × (b.bytes ≡ view d c dev n)
  pub same : (x y : ℕ) → x ≢ 0 → view d c' x y ≡ view d c x y

fill-valid : (d : Disk) (b : Buf) → (fill d b).valid ≡ true
fill-valid d b = ground arith

fill-shows :
    (d : Disk) (b : Buf) (x y : ℕ)
    → matches x y b ≡ true
    → (fill d b).bytes ≡ (if b.valid then b.bytes else d x y)
fill-shows d b x y m = elim (Bool-cases b.valid) [
  | inl v ↦ simp v
  | inr v ↦ let (sd, sn) = matches-dev x y b m in simp v (ap (λ w. d w b.blockno) sd ∙ ap (d x) sn)
]

-- `bget` has found or claimed the buffer `b`; the rest of `bread` fills it.
fill-Got :
    (d : Disk) (dev n : ℕ) (c c1 : Cache) (i : ℕ) (b : Buf)
    → dev ≢ 0
    → Good d c1
    → get_elem? c1 i ≡ some b
    → matches dev n b ≡ true
    → 1 ≤ b.refcnt
    → ((x y : ℕ) → x ≢ 0 → view d c1 x y ≡ view d c x y)
    → Got d dev n c (modify c1 i (fill d)) i
fill-Got d dev n c c1 i b nz g e m r same = record {
  good = record {
    once = Once-modify (fill d) b dev_same no_same c1 i e g.once;
    sound = All-modify (Sound d) (fill d) c1 i (λ x ex s. fill-Sound x s) g.sound;
  };
  held = (
    fill d b,
    get-modify_self (fill d) c1 i ∙ ap (Option.map (fill d)) e,
    rw (dev_same, no_same) m,
    ground arith,
    ground arith,
    fill-shows d b dev n m ∙ sym (view-at d c1 i dev n b g.once nz e m) ∙ same dev n nz,
  );
  same = λ x y k.
      view-modify (fill d) b dev_same no_same d c1 i x y e
        (λ k'. rw (fill-valid d b) (fill-shows d b x y k'))
      ∙ same x y k;
}
  where
    dev_same : (fill d b).dev ≡ b.dev
    dev_same = ground arith

    no_same : (fill d b).blockno ≡ b.blockno
    no_same = ground arith

    fill-Sound : (x : Buf) → Sound d x → Sound d (fill d x)
    fill-Sound x s = elim (Bool-cases x.valid) [
      | inl v ↦ simp v s
      | inr v ↦ simp v (record { coherent = λ a h. refl; fresh = λ a. absurd (cc) })
    ]

-- What `bread` must do: it stops only if no buffer holds the block and every buffer is in use.
pub BreadSpec : Disk → ℕ → ℕ → Cache → Option (ℕ × Cache) → Type 0
BreadSpec d dev n c none = (cached dev n c ≡ false) × All (λ b. reusable b ≡ false) c
BreadSpec d dev n c (some (i, c')) = Got d dev n c c' i

cached-BreadSpec :
    (d : Disk) (dev n : ℕ) (c : Cache) (i : ℕ) (b : Buf)
    → dev ≢ 0
    → Good d c
    → get_elem? c i ≡ some b
    → matches dev n b ≡ true
    → Got d dev n c (modify (modify c i hold) i (fill d)) i
cached-BreadSpec d dev n c i b nz g e m =
    fill-Got d dev n c (modify c i hold) i (hold b) nz
      (record {
        once = Once-modify hold b refl refl c i e g.once;
        sound =
            All-modify (Sound d) hold c i
              (λ x ex s. record { coherent = λ v r. absurd (ground arith); fresh = s.fresh })
              g.sound;
      })
      (get-modify_self hold c i ∙ ap (Option.map hold) e) m (omega arith)
      (λ x y k. view-modify hold b refl refl d c i x y e (λ k'. refl))

claimed-BreadSpec :
    (d : Disk) (dev n : ℕ) (c : Cache) (i : ℕ) (b : Buf)
    → dev ≢ 0
    → Good d c
    → cached dev n c ≡ false
    → get_elem? c i ≡ some b
    → reusable b ≡ true
    → Got d dev n c (modify (modify c i (claim dev n)) i (fill d)) i
claimed-BreadSpec d dev n c i b nz g new e r =
    let s = All-get (Sound d) c i b e g.sound in
    fill-Got d dev n c (modify c i (claim dev n)) i (claim dev n b) nz
      (record {
        once = Once-claim dev n b c i g.once new;
        sound =
            All-modify (Sound d) (claim dev n) c i
              (λ x ex s. record { coherent = λ v k. absurd (cc); fresh = λ v. refl }) g.sound;
      })
      (get-modify_self (claim dev n) c i ∙ ap (Option.map (claim dev n)) e) (ground arith)
      (omega arith) (λ x y k. view-claim dev n b d c i x y e (λ v. s.coherent v r) g.once new k)

reusable-BreadSpec :
    (d : Disk) (dev n : ℕ) (c : Cache) (o : Option ℕ)
    → dev ≢ 0
    → Good d c
    → cached dev n c ≡ false
    → ReusableSpec c o
    → BreadSpec d dev n c (read_got d (get_reusable dev n c o))
unfolding ReusableSpec BreadSpec read_got get_reusable
reusable-BreadSpec d dev n c none nz g new s = (new, s)
reusable-BreadSpec d dev n c (some i) nz g new (b, e, r) =
    claimed-BreadSpec d dev n c i b nz g new e r

got-BreadSpec :
    (d : Disk) (dev n : ℕ) (c : Cache) (o : Option ℕ)
    → dev ≢ 0
    → Good d c
    → CachedSpec dev n c o
    → BreadSpec d dev n c (read_got d (get_cached dev n c o))
unfolding CachedSpec get_cached
got-BreadSpec d dev n c none nz g s =
    reusable-BreadSpec d dev n c (find_reusable c) nz g s (find_reusable-ReusableSpec c)
got-BreadSpec d dev n c (some i) nz g (b, e, m) =
    unfold BreadSpec read_got in cached-BreadSpec d dev n c i b nz g e m

-- `bread` of a block of the disk, on a cache that keeps each block once and loses nothing: it stops
-- only if no buffer holds the block and every buffer is in use or dirty. Otherwise the buffer that it
-- returns is of this block, holds what the cache showed of it (its buffer's contents, else the
-- disk's), and has a reference; the cache shows the same of every block, and is as sound as before.
pub bread_lem :
    (d : Disk) (dev n : ℕ) (c : Cache) → dev ≢ 0 → Good d c → BreadSpec d dev n c (bread d dev n c)
unfolding bread bget
bread_lem d dev n c nz g =
    got-BreadSpec d dev n c (find_cached dev n c) nz g (find_cached-CachedSpec dev n c)
