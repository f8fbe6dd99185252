-- ===== src/Bio/Release.antt =====
-- `brelse`: the buffer goes to the head of the list, and nothing is lost.
use xv7_mirror.Base.Modify.{modify}
use xv7_mirror.Base.Mem.{All}
use xv7_mirror.Base.{
  ℕ, zero, suc, ◌-◌, ◌≡◌, ◌≢◌, ◌≤◌, refl, sym, true, false, some, [], ◌∷◌, arith, ◌==◌, get_elem?,
  Bool-cases, inl, inr, subst,
}
use xv7_mirror.Bio.{Disk, Buf, Cache, matches, drop_ref, unlink, release_at, brelse}
use xv7_mirror.Bio.View.{view, cached, Once, Sound, no_second, view-at, view-modify, Once-modify}
use xv7_mirror.Bio.Refine.{Good, All-modify, All-get}

cached-unlink : (c : Cache) (i x y : ℕ) → cached x y c ≡ false → cached x y (unlink c i) ≡ false
cached-unlink [] i x y h = h
cached-unlink (z ∷ zs) zero x y h = ground arith
cached-unlink (z ∷ zs) (suc i) x y h = ground (arith, cached-unlink zs i x y)

Once-unlink : (c : Cache) (i : ℕ) → Once c → Once (unlink c i)
Once-unlink [] i o = tt
Once-unlink (z ∷ zs) zero o = o.1
Once-unlink (z ∷ zs) (suc i) o =
    ((λ nz. cached-unlink zs i z.dev z.blockno (o.0 nz)), Once-unlink zs i o.1)

All-unlink {ℓ} : (P : Buf → Type ℓ) (c : Cache) (i : ℕ) → All P c → All P (unlink c i)
All-unlink P [] i a = tt
All-unlink P (z ∷ zs) zero (a, as') = as'
All-unlink P (z ∷ zs) (suc i) (a, as') = (a, All-unlink P zs i as')

module _ (b : Buf) where
  -- No other buffer holds the block.
  cached-unlink_self :
      (c : Cache) (i : ℕ)
      → Once c
      → get_elem? c i ≡ some b
      → b.dev ≢ 0
      → cached b.dev b.blockno (unlink c i) ≡ false
  cached-unlink_self [] i o e nz = refl
  cached-unlink_self (z ∷ zs) zero o e nz =
      let same : z ≡ b = ground arith in
      subst (λ (x : Buf). x.dev ≢ 0 → cached x.dev x.blockno zs ≡ false) same o.0 nz
  cached-unlink_self (z ∷ zs) (suc i) o e nz =
      let self : matches b.dev b.blockno b ≡ true = ground arith in
      rw (no_second z zs i b.dev b.blockno b o nz e self) (cached-unlink_self zs i o.1 e nz)

  view-unlink :
      (d : Disk) (c : Cache) (i x y : ℕ)
      → get_elem? c i ≡ some b
      → matches x y b ≡ false
      → view d (unlink c i) x y ≡ view d c x y
  view-unlink d [] i x y e m = refl
  view-unlink d (z ∷ zs) zero x y e m = let same : z ≡ b = ground arith in rw (same, m)
  view-unlink d (z ∷ zs) (suc i) x y e m = rw (view-unlink d zs i x y e m)

  view-front :
      (d : Disk) (c : Cache) (i x y : ℕ)
      → Once c
      → get_elem? c i ≡ some b
      → x ≢ 0
      → view d (drop_ref b ∷ unlink c i) x y ≡ view d c x y
  view-front d c i x y o e nz = elim (Bool-cases (matches x y b)) [
    | inl m ↦ rw m (sym (view-at d c i x y b o nz e m))
    | inr m ↦ rw m (view-unlink d c i x y e m)
  ]

  module _ (d : Disk)
      (saved : b.refcnt - 1 ≡ 0
        → b.dirty ≡ false
        → b.valid ≡ true
        → b.bytes ≡ d b.dev b.blockno) where
    Sound-drop_ref : Sound d b → Sound d (drop_ref b)
    Sound-drop_ref s = record {
      coherent = λ v r. saved (ground arith) (ground arith) v;
      fresh = s.fresh;
    }

    front-Good :
        (c : Cache) (i : ℕ) → Good d c → get_elem? c i ≡ some b → Good d (drop_ref b ∷ unlink c i)
    front-Good c i g e = record {
      once = ((λ nz. cached-unlink_self c i g.once e nz), Once-unlink c i g.once);
      sound =
          (Sound-drop_ref (All-get (Sound d) c i b e g.sound), All-unlink (Sound d) c i g.sound);
    }

    stay-Good :
        (c : Cache) (i : ℕ) → Good d c → get_elem? c i ≡ some b → Good d (modify c i drop_ref)
    stay-Good c i g e = record {
      once = Once-modify drop_ref b refl refl c i e g.once;
      sound =
          All-modify (Sound d) drop_ref c i
            (λ x ex s.
              let same : b ≡ x = cc (e, ex) in
              subst (λ (y : Buf). Sound d (drop_ref y)) same
                (Sound-drop_ref (subst (Sound d) (sym same) s)))
            g.sound;
    }

-- `brelse` of a buffer with a reference that is either still in use behind it, or dirty, or holds
-- what the disk holds, changes nothing of what the cache shows, and leaves it as sound as before.
pub brelse_lem :
    (d : Disk) (c : Cache) (i : ℕ) (b : Buf)
    → Good d c
    → get_elem? c i ≡ some b
    → 1 ≤ b.refcnt
    → (b.refcnt - 1 ≡ 0 → b.dirty ≡ false → b.valid ≡ true → b.bytes ≡ d b.dev b.blockno)
    → Good d (brelse i c) × ((x y : ℕ) → x ≢ 0 → view d (brelse i c) x y ≡ view d c x y)
unfolding brelse release_at
brelse_lem d c i b g e held saved = elim (Bool-cases (b.refcnt - 1 == 0)) [
  | inl z ↦
      rw (e, release_at, z)
        (front-Good b d saved c i g e, λ x y nz. view-front b d c i x y g.once e nz)
  | inr z ↦
      rw (e, release_at, z)
        (
          stay-Good b d saved c i g e,
          λ x y nz. view-modify drop_ref b refl refl d c i x y e (λ k. refl),
        )
]
