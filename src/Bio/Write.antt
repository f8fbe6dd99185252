-- ===== src/Bio/Write.antt =====
-- `bwrite`: the disk gets what the cache shows.
use xv7_mirror.Base.Modify.{modify}
use xv7_mirror.Base.Mem.{All}
use xv7_mirror.Base.{
  ℕ, zero, suc, ◌≡◌, ◌≢◌, refl, sym, ◌∙◌, true, false, some, [], ◌∷◌, arith, if◌then◌else◌,
  get_elem?, Bool-cases, inl, inr, subst,
}
use xv7_mirror.Bio.{Disk, Buf, Cache, matches, clean, ide_write, write_at, bwrite}
use xv7_mirror.Bio.View.{
  view, cached, Once, Sound, no_second, view-at, view-disk, view-modify, Once-modify,
}
use xv7_mirror.Bio.Refine.{Good}

matches_self : (b : Buf) → matches b.dev b.blockno b ≡ true
matches_self b = ground arith

module _ (d : Disk) (b : Buf) where
  Sound-other : (w : Buf) → matches b.dev b.blockno w ≡ false → Sound d w → Sound (ide_write d b) w
  Sound-other w m s =
      let apart : matches w.dev w.blockno b ≡ false = ground arith in
      record { coherent = λ v r. rw apart (s.coherent v r); fresh = s.fresh }

  Sound-absent :
      (c : Cache)
      → cached b.dev b.blockno c ≡ false
      → All (Sound d) c
      → All (Sound (ide_write d b)) c
  Sound-absent [] h a = tt
  Sound-absent (w ∷ ws) h (s, ss) =
      (Sound-other w (ground arith) s, Sound-absent ws (ground arith) ss)

  Sound-write :
      (c : Cache) (i : ℕ)
      → b.dev ≢ 0
      → Once c
      → get_elem? c i ≡ some b
      → All (Sound d) c
      → All (Sound (ide_write d b)) (modify c i clean)
  Sound-write [] i nz o e a = tt
  Sound-write (w ∷ ws) zero nz o e (s, ss) =
      let same : w ≡ b = ground arith in
      (
        subst (λ (x : Buf). Sound (ide_write d b) (clean x)) (sym same)
            (record { coherent = λ v r. sym (rw (matches_self b)); fresh = λ v. absurd (cc) }),
        Sound-absent ws
            (subst (λ (x : Buf). x.dev ≢ 0 → cached x.dev x.blockno ws ≡ false) same o.0 nz) ss,
      )
  Sound-write (w ∷ ws) (suc i) nz o e (s, ss) = (
    Sound-other w (no_second w ws i b.dev b.blockno b o nz e (matches_self b)) s,
    Sound-write ws i nz o.1 e ss,
  )

  view-write :
      (c : Cache) (i x y : ℕ)
      → Once c
      → get_elem? c i ≡ some b
      → b.valid ≡ true
      → x ≢ 0
      → view (ide_write d b) (modify c i clean) x y ≡ view d c x y
  view-write c i x y o e v nz =
      view-modify clean b refl refl (ide_write d b) c i x y e (λ m. rw v)
      ∙ elim (Bool-cases (matches x y b)) [
        | inl m ↦
            view-at (ide_write d b) c i x y b o nz e m ∙ shows ∙ sym (view-at d c i x y b o nz e m)
        | inr m ↦ view-disk d (ide_write d b) c x y (rw m)
      ]
    where
      shows :
          (if b.valid then b.bytes else ide_write d b x y) ≡ (if b.valid then b.bytes else d x y)
      shows = simp v

-- `bwrite` of a buffer that holds a block of the disk puts its contents on the disk, leaves the other
-- blocks of the disk alone, and changes nothing of what the cache shows; the cache is as sound as
-- before.
pub bwrite_lem :
    (d : Disk) (c : Cache) (i : ℕ) (b : Buf)
    → Good d c
    → get_elem? c i ≡ some b
    → b.valid ≡ true
    → b.dev ≢ 0
    → let (d', c') = bwrite i d c in
      Good d' c'
      × (d' b.dev b.blockno ≡ b.bytes)
      × ((x y : ℕ) → matches x y b ≡ false → d' x y ≡ d x y)
      × ((x y : ℕ) → x ≢ 0 → view d' c' x y ≡ view d c x y)
unfolding bwrite write_at
bwrite_lem d c i b g e v nz = rw e (
  record {
    once = Once-modify clean b refl refl c i e g.once;
    sound = Sound-write d b c i nz g.once e g.sound;
  },
  rw (matches_self b),
  (λ x y m. rw m),
  λ x y k. view-write d b c i x y g.once e v k,
)
