-- ===== src/Dinode/Stored.antt =====
-- The fields of an inode as they stand in a block, and the other bytes of the block.
use xv7_mirror.Base.{ℕ, ◌+◌, ◌^◌, ◌≤◌, ◌<◌, ◌≡◌, ◌∙◌, refl, sym, ◌⊎◌, inl, inr, arith, ltb, true}
use xv7_mirror.Str.{Mem, store32}
use xv7_mirror.Dinode.{
  Fields, load16, load32, store16, put_addrs, get_addrs, put_fields, get_fields, naddrs,
  dinode_size,
}
use xv7_mirror.Dinode.Bytes.{
  load16-store16, load32-store32, store16-other, store32-other, put_addrs-other, load16_ext,
  load32_ext, load32-put_addrs,
}

-- The fields fit into their types.
pub record Fits (f : Fields) : Type 0 where
  pub type : f.type < 2 ^ 16
  pub major : f.major < 2 ^ 16
  pub minor : f.minor < 2 ^ 16
  pub nlink : f.nlink < 2 ^ 16
  pub size : f.size < 2 ^ 32
  pub addrs : (i : ℕ) → i < naddrs → f.addrs i < 2 ^ 32
  pub atime : f.atime < 2 ^ 32
  pub mtime : f.mtime < 2 ^ 32

pub record Same (f g : Fields) : Type 0 where
  pub type : f.type ≡ g.type
  pub major : f.major ≡ g.major
  pub minor : f.minor ≡ g.minor
  pub nlink : f.nlink ≡ g.nlink
  pub size : f.size ≡ g.size
  pub addrs : (i : ℕ) → i < naddrs → f.addrs i ≡ g.addrs i
  pub atime : f.atime ≡ g.atime
  pub mtime : f.mtime ≡ g.mtime

abbrev Apart : ℕ → ℕ → ℕ → ℕ → Type 0
Apart q n p k = (q + n ≤ p) ⊎ (p + k ≤ q)

apart : (q n p k j : ℕ) → Apart q n p k → j < n → (q + j < p) ⊎ (p + k ≤ q + j)
apart q n p k j (inl h) lt = inl (omega arith)
apart q n p k j (inr h) lt = inr (omega arith)

-- A byte outside of an inode is outside of each of its fields.
inside :
    (p o n a : ℕ)
    → (a < p) ⊎ (p + dinode_size ≤ a)
    → o + n ≤ dinode_size
    → (a < p + o) ⊎ (p + o + n ≤ a)
inside p o n a (inl h) le = inl (omega arith)
inside p o n a (inr h) le = inr (omega arith)

-- A load that is apart from the last store.
module _ (m : Mem) (p v q : ℕ) where
  load16-past16 : Apart q 2 p 2 → load16 (store16 p v m) q ≡ load16 m q
  load16-past16 h =
      load16_ext (store16 p v m) m q (λ k lt. store16-other m p v (q + k) (apart q 2 p 2 k h lt))

  load16-past32 : Apart q 2 p 4 → load16 (store32 p v m) q ≡ load16 m q
  load16-past32 h =
      load16_ext (store32 p v m) m q (λ k lt. store32-other m p v (q + k) (apart q 2 p 4 k h lt))

  load32-past32 : Apart q 4 p 4 → load32 (store32 p v m) q ≡ load32 m q
  load32-past32 h =
      load32_ext (store32 p v m) m q (λ k lt. store32-other m p v (q + k) (apart q 4 p 4 k h lt))

module _ (p : ℕ) (f : Fields) (m : Mem) where
  -- The memory after each group of assignments.
  abbrev m0 : Mem
  m0 = store16 p f.type m

  abbrev m1 : Mem
  m1 = store16 (p + 2) f.major m0

  abbrev m2 : Mem
  m2 = store16 (p + 4) f.minor m1

  abbrev m3 : Mem
  m3 = store16 (p + 6) f.nlink m2

  abbrev m4 : Mem
  m4 = store32 (p + 8) f.size m3

  abbrev m5 : Mem
  m5 = store32 (p + 64) f.atime m4

  abbrev m6 : Mem
  m6 = store32 (p + 68) f.mtime m5

  abbrev m7 : Mem
  m7 = put_addrs naddrs (p + 12) f.addrs m6

  put_fields-steps : put_fields p f m ≡ m7
  unfolding put_fields
  put_fields-steps = refl

  -- Loads of the four shorts skip all that follows the shorts.
  low16 : (q : ℕ) → q + 2 ≤ p + 8 → load16 m7 q ≡ load16 m3 q
  low16 q h =
      load16_ext m7 m6 q
        (λ k lt. put_addrs-other naddrs (p + 12) f.addrs m6 (q + k) (inl (omega arith)))
      ∙ load16-past32 m5 (p + 68) f.mtime q (inl (omega arith))
      ∙ load16-past32 m4 (p + 64) f.atime q (inl (omega arith))
      ∙ load16-past32 m3 (p + 8) f.size q (inl (omega arith))

  past_addrs : (q : ℕ) → Apart q 4 (p + 12) 44 → load32 m7 q ≡ load32 m6 q
  past_addrs q h =
      load32_ext m7 m6 q
        (λ k lt. put_addrs-other naddrs (p + 12) f.addrs m6 (q + k) (apart q 4 (p + 12) 44 k h lt))

  module _ (fits : Fits f) (old : Fields) where
    steps-Same : Same f (get_fields m7 p old)
    unfolding get_fields get_addrs
    steps-Same = record {
      type = sym (
          low16 p (omega arith)
          ∙ load16-past16 m2 (p + 6) f.nlink p (inl (omega arith))
          ∙ load16-past16 m1 (p + 4) f.minor p (inl (omega arith))
          ∙ load16-past16 m0 (p + 2) f.major p (inl (omega arith))
          ∙ load16-store16 m p f.type fits.type);
      major = sym (
          low16 (p + 2) (omega arith)
          ∙ load16-past16 m2 (p + 6) f.nlink (p + 2) (inl (omega arith))
          ∙ load16-past16 m1 (p + 4) f.minor (p + 2) (inl (omega arith))
          ∙ load16-store16 m0 (p + 2) f.major fits.major);
      minor = sym (
          low16 (p + 4) (omega arith)
          ∙ load16-past16 m2 (p + 6) f.nlink (p + 4) (inl (omega arith))
          ∙ load16-store16 m1 (p + 4) f.minor fits.minor);
      nlink = sym (low16 (p + 6) (omega arith) ∙ load16-store16 m2 (p + 6) f.nlink fits.nlink);
      size = sym (
          past_addrs (p + 8) (inl (omega arith))
          ∙ load32-past32 m5 (p + 68) f.mtime (p + 8) (inl (omega arith))
          ∙ load32-past32 m4 (p + 64) f.atime (p + 8) (inl (omega arith))
          ∙ load32-store32 m3 (p + 8) f.size fits.size);
      addrs = λ i lt.
          let within : ltb i naddrs ≡ true = ground arith in
          rw within (sym (load32-put_addrs naddrs (p + 12) i f.addrs m6 lt (fits.addrs i lt)));
      atime = sym (
          past_addrs (p + 64) (inr (omega arith))
          ∙ load32-past32 m5 (p + 68) f.mtime (p + 64) (inl (omega arith))
          ∙ load32-store32 m4 (p + 64) f.atime fits.atime);
      mtime =
          sym (
            past_addrs (p + 68) (inr (omega arith))
            ∙ load32-store32 m5 (p + 68) f.mtime fits.mtime);
    }

    pub get_fields-put_fields : Same f (get_fields (put_fields p f m) p old)
    get_fields-put_fields = rw put_fields-steps steps-Same

  -- The bytes that are not the inode's.
  pub put_fields-other : (a : ℕ) → (a < p) ⊎ (p + dinode_size ≤ a) → put_fields p f m a ≡ m a
  unfolding put_fields
  put_fields-other a h =
      put_addrs-other naddrs (p + 12) f.addrs m6 a (inside p 12 44 a h (omega arith))
      ∙ store32-other m5 (p + 68) f.mtime a (inside p 68 4 a h (omega arith))
      ∙ store32-other m4 (p + 64) f.atime a (inside p 64 4 a h (omega arith))
      ∙ store32-other m3 (p + 8) f.size a (inside p 8 4 a h (omega arith))
      ∙ store16-other m2 (p + 6) f.nlink a (inside p 6 2 a h (omega arith))
      ∙ store16-other m1 (p + 4) f.minor a (inside p 4 2 a h (omega arith))
      ∙ store16-other m0 (p + 2) f.major a (inside p 2 2 a h (omega arith))
      ∙ store16-other m p f.type a (elim h [ inl x ↦ inl x | inr x ↦ inr (omega arith) ])
