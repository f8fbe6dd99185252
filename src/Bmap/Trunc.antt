-- ===== src/Bmap/Trunc.antt =====
-- `itrunc`: which blocks it frees.
use xv7_mirror.Base.{
  ℕ, zero, suc, ◌+◌, ◌<◌, ◌≡◌, refl, sym, ap, ◌∙◌, subst, true, false, List, [], ◌∷◌, ◌++◌, arith,
  ◌==◌, if◌then◌else◌, Bool-cases, inl, inr, some, none, Option,
}
use xv7_mirror.Base.Mem.{
  has, All, Distinct, All-has, All-of-has, All-append, has-append, Distinct-append,
}
use xv7_mirror.Str.{Mem}
use xv7_mirror.FreeMap.{Superblock, Blocks, bfree}
use xv7_mirror.FreeMap.Scan.{used}
use xv7_mirror.FreeMap.Free.{IsFormatted, is_map, bfree_lem, Frees}
use xv7_mirror.FreeMap.Owner.{Owned}
use xv7_mirror.Bmap.{word, nindirect, free_entries, free_tree}

-- The blocks that the entries of a block of addresses lead to, in the order of the loop.
unfoldable pub entry_blocks : ℕ → ℕ → Mem → (ℕ → List ℕ) → List ℕ
entry_blocks zero j a g = []
entry_blocks (suc n) j a g =
    (if word a j == 0 then [] else g (word a j)) ++ entry_blocks n (j + 1) a g

-- The blocks below `p`, and `p`.
unfoldable pub tree_blocks : (Blocks → ℕ → List ℕ) → Blocks → ℕ → List ℕ
tree_blocks g d p = entry_blocks nindirect 0 (d p) (g d) ++ (p ∷ [])

unfoldable pub data_block : Blocks → ℕ → List ℕ
data_block d b = b ∷ []

module _ (sb : Superblock) where
  abbrev pub SameFiles : Blocks → Blocks → Type 0
  SameFiles d e = (x : ℕ) → is_map sb x ≡ false → e x ≡ d x

  -- `e` is `d` without the blocks of the list.
  pub record Freed (d e : Blocks) (l : List ℕ) : Type 0 where
    pub set : (c : ℕ) → c < sb.size → used sb e c ≡ (if has c l then false else used sb d c)
    pub same : SameFiles d e
    pub formatted : IsFormatted sb e

  pub Freed-nil : (d : Blocks) → IsFormatted sb d → Freed d d []
  Freed-nil d f = record { set = λ c lt. refl; same = λ x o. refl; formatted = f }

  pub Freed-append :
      {d e g : Blocks} (l m : List ℕ) → Freed d e l → Freed e g m → Freed d g (l ++ m)
  Freed-append {d} {e} {g} l m f h = record {
    set = λ c lt. h.set c lt ∙ ground (arith, f.set c lt, has-append c l m);
    same = λ x o. h.same x o ∙ f.same x o;
    formatted = h.formatted;
  }

  -- What is left of the blocks of a file is still its own.
  pub Freed-Owned :
      {d e : Blocks} (l m : List ℕ)
      → Freed d e l
      → All (Owned sb d) m
      → ((v : ℕ) → has v l ≡ true → has v m ≡ false)
      → All (Owned sb e) m
  Freed-Owned {d} {e} l m f own apart = All-of-has (Owned sb e) m (λ v hv.
      let o = All-has (Owned sb d) v m own hv in
      let out : has v l ≡ false = elim (Bool-cases (has v l)) [
        | inl y ↦ absurd (let n = apart v y in cc (n, hv))
        | inr n ↦ n
      ] in
      record {
        inside = o.inside;
        taken = f.set v o.inside ∙ rw out o.taken;
        apart = o.apart;
        nonzero = o.nonzero;
      })

  -- The routine `f` frees the blocks that `g` lists, if they are distinct and in the file's hands; the
  -- list does not depend on the free map.
  pub record Releases (f : ℕ → Blocks → Option Blocks) (g : Blocks → ℕ → List ℕ) : Type 0 where
    pub frees :
        (d : Blocks) (b : ℕ)
        → IsFormatted sb d
        → All (Owned sb d) (g d b)
        → Distinct (g d b)
        → (e : Blocks) × (f b d ≡ some e) × Freed d e (g d b)
    pub stable : (d e : Blocks) (b : ℕ) → SameFiles d e → All (Owned sb d) (g d b) → g e b ≡ g d b

  Frees-block :
      (d : Blocks) (b : ℕ) (r : Option Blocks)
      → Owned sb d b
      → Frees sb d b r
      → (e : Blocks) × (r ≡ some e) × Freed d e (b ∷ [])
  Frees-block d b none o h = absurd (let t = o.taken in cc (t, h))
  Frees-block d b (some e) o (u, ch, same) = (
    e,
    refl,
    record { set = λ c lt. ch.set c lt ∙ ground arith; same = same; formatted = ch.formatted },
  )

  pub bfree-Releases : Releases (bfree sb) data_block
  unfolding data_block
  bfree-Releases = record {
    frees = λ d b f (o, _) _.
        Frees-block d b (bfree sb b d) o (bfree_lem sb d b f o.inside o.apart o.nonzero);
    stable = λ d e b _ _. refl;
  }

  module _ (f : ℕ → Blocks → Option Blocks) (g : Blocks → ℕ → List ℕ) (r : Releases f g) where
    entries_stable :
        (n j : ℕ) (a : Mem) (d e : Blocks)
        → SameFiles d e
        → All (Owned sb d) (entry_blocks n j a (g d))
        → entry_blocks n j a (g e) ≡ entry_blocks n j a (g d)
    unfolding entry_blocks
    entries_stable zero j a d e same own = refl
    entries_stable (suc n) j a d e same own = elim (Bool-cases (word a j == 0)) [
      | inl z ↦ rw z (entries_stable n (j + 1) a d e same (rw z at own))
      | inr nz ↦
          let (o1, o2) =
            All-append (Owned sb d) (g d (word a j)) (entry_blocks n (j + 1) a (g d))
              (rw nz at own) in
          let e1 = r.stable d e (word a j) same o1 in
          let e2 = entries_stable n (j + 1) a d e same o2 in rw (nz, e1, e2)
    ]

    entries_freed :
        (n j : ℕ) (a : Mem) (d : Blocks)
        → IsFormatted sb d
        → All (Owned sb d) (entry_blocks n j a (g d))
        → Distinct (entry_blocks n j a (g d))
        → (e : Blocks) × (free_entries sb n j a f d ≡ some e) × Freed d e (entry_blocks n j a (g d))
    unfolding entry_blocks free_entries
    entries_freed zero j a d fm own dis = (d, refl, Freed-nil d fm)
    entries_freed (suc n) j a d fm own dis = elim (Bool-cases (word a j == 0)) [
      | inl z ↦ rw (z, free_entries) (entries_freed n (j + 1) a d fm (rw z at own) (rw z at dis))
      | inr nz ↦
          let rest = entry_blocks n (j + 1) a (g d) in
          let (o1, o2) = All-append (Owned sb d) (g d (word a j)) rest (rw nz at own) in
          let (d1, d2, apart) = Distinct-append (g d (word a j)) rest (rw nz at dis) in
          let (e, q, h) = r.frees d (word a j) fm o1 d1 in
          let s = entries_stable n (j + 1) a d e h.same o2 in
          let (e', q', h') =
            entries_freed n (j + 1) a e h.formatted
              (subst (All (Owned sb e)) (sym s) (Freed-Owned (g d (word a j)) rest h o2 apart))
              (subst Distinct (sym s) d2) in
          rw (nz, free_entries)
            (rw (q, free_entries)
              (e', q', Freed-append (g d (word a j)) rest h (subst (Freed e e') s h')))
    ]

    pub free_tree-Releases : Releases (free_tree sb f) (tree_blocks g)
    unfolding free_tree tree_blocks
    free_tree-Releases = record {
      frees = λ d p fm own dis.
          let below = entry_blocks nindirect 0 (d p) (g d) in
          let (o1, o2) = All-append (Owned sb d) below (p ∷ []) own in
          let (d1, d2, apart) = Distinct-append below (p ∷ []) dis in
          let (e, q, h) = entries_freed nindirect 0 (d p) d fm o1 d1 in
          let (o3, _) = Freed-Owned below (p ∷ []) h o2 apart in
          let (e', q', h') =
            Frees-block e p (bfree sb p e) o3
              (bfree_lem sb e p h.formatted o3.inside o3.apart o3.nonzero) in
          rw (q, free_tree) (e', q', Freed-append below (p ∷ []) h h');
      stable = λ d e p same own.
          let below = entry_blocks nindirect 0 (d p) (g d) in
          let (o1, o2) = All-append (Owned sb d) below (p ∷ []) own in
          let q : e p ≡ d p = same p o2.0.apart in
          let s = entries_stable nindirect 0 (d p) d e same o1 in
          ap (λ m. entry_blocks nindirect 0 m (g e) ++ (p ∷ [])) q ∙ ap (λ l. l ++ (p ∷ [])) s;
    }
