-- ===== src/Bmap/Emptied.antt =====
-- `itrunc`: the file is empty afterwards, and exactly its blocks are free.
use xv7_mirror.Base.{
  ℕ, zero, suc, ◌+◌, ◌≤◌, ◌≡◌, refl, sym, ◌∙◌, subst, false, ◌&&◌, List, [], ◌++◌, arith, ltb, leb,
  ◌==◌, if◌then◌else◌, Bool-cases, inl, inr, ==→eq, some, none, Option,
}
use xv7_mirror.Base.Mem.{All, Distinct, All-append, Distinct-append}
use xv7_mirror.FreeMap.{Superblock, Blocks, bfree}
use xv7_mirror.FreeMap.Free.{IsFormatted}
use xv7_mirror.FreeMap.Owner.{Owned}
use xv7_mirror.Bmap.{Content, free_tree, free_root, free_direct, itrunc, set_addr, ndirect}
use xv7_mirror.Bmap.Trunc.{
  tree_blocks, data_block, SameFiles, Freed, Freed-nil, Freed-append, Freed-Owned, Releases,
  bfree-Releases, free_tree-Releases,
}

-- The blocks below an entry of the inode.
unfoldable pub root_blocks : ℕ → (Blocks → ℕ → List ℕ) → Content → List ℕ
root_blocks i g s = if s.addrs i == 0 then [] else g s.blocks (s.addrs i)

unfoldable pub direct_blocks : ℕ → ℕ → Content → List ℕ
direct_blocks zero i s = []
direct_blocks (suc n) i s = root_blocks i data_block s ++ direct_blocks n (i + 1) s

abbrev indirect : Blocks → ℕ → List ℕ
indirect = tree_blocks data_block

-- All blocks of a file, of addresses and of data, in the order in which `itrunc` frees them.
unfoldable pub file_blocks : Content → List ℕ
file_blocks s =
    direct_blocks ndirect 0 s
    ++ (root_blocks ndirect indirect s
        ++ (root_blocks (ndirect + 1) (tree_blocks indirect) s
            ++ root_blocks (ndirect + 2) (tree_blocks (tree_blocks indirect)) s))

module _ (sb : Superblock) where
  -- `t` is `s` without the blocks of the list; the entries from `i` on, below `k`, are empty.
  pub record Emptied (s t : Content) (l : List ℕ) (i k : ℕ) : Type 0 where
    pub freed : Freed sb s.blocks t.blocks l
    pub addrs : (j : ℕ) → t.addrs j ≡ (if leb i j && ltb j k then 0 else s.addrs j)

  -- What is left to free from entry `k` on, in `t`, is what it was in `s`.
  abbrev Runs : (Content → Option Content) → (Content → List ℕ) → ℕ → ℕ → Type 0
  Runs f l i k =
      (s : Content)
      → IsFormatted sb s.blocks
      → All (Owned sb s.blocks) (l s)
      → Distinct (l s)
      → (t : Content) × (f s ≡ some t) × Emptied s t (l s) i k

  abbrev Stable : (Content → List ℕ) → ℕ → Type 0
  Stable l k =
      (s t : Content)
      → SameFiles sb s.blocks t.blocks
      → ((j : ℕ) → k ≤ j → t.addrs j ≡ s.addrs j)
      → All (Owned sb s.blocks) (l s)
      → l t ≡ l s

  Emptied-append :
      (s t u : Content) (l m : List ℕ) (i j k : ℕ)
      → i ≤ j
      → j ≤ k
      → Emptied s t l i j
      → Emptied t u m j k
      → Emptied s u (l ++ m) i k
  Emptied-append s t u l m i j k lo hi e f = record {
    freed = Freed-append sb l m e.freed f.freed;
    addrs = λ x. f.addrs x ∙ ground (arith, e.addrs x);
  }

  -- One loop after another.
  then-Runs :
      (f g : Content → Option Content) (l m : Content → List ℕ) (i j k : ℕ)
      → i ≤ j
      → j ≤ k
      → Runs f l i j
      → Runs g m j k
      → Stable m j
      → Runs (λ s. elim (f s) [ none ↦ none | some t ↦ g t ]) (λ s. l s ++ m s) i k
  then-Runs f g l m i j k lo hi rf rg st s fm own dis =
      let (o1, o2) = All-append (Owned sb s.blocks) (l s) (m s) own in
      let (d1, d2, apart) = Distinct-append (l s) (m s) dis in
      let (t, q, e) = rf s fm o1 d1 in
      let same : m t ≡ m s =
        st s t e.freed.same
          (λ x h. e.addrs x ∙ (let out : (leb i x && ltb x j) ≡ false = ground arith in rw out))
          o2 in
      let (u, q', e') =
        rg t e.freed.formatted
          (subst (All (Owned sb t.blocks)) (sym same) (Freed-Owned sb (l s) (m s) e.freed o2 apart))
          (subst Distinct (sym same) d2) in
      rw q (
        u,
        q',
        Emptied-append s t u (l s) (m s) i j k lo hi e (subst (λ x. Emptied t u x j k) same e'),
      )

  module _ (f : ℕ → Blocks → Option Blocks) (g : Blocks → ℕ → List ℕ) (r : Releases sb f g)
      (i : ℕ) where
    root-Stable : Stable (root_blocks i g) i
    unfolding root_blocks
    root-Stable s t same addrs own = elim (Bool-cases (s.addrs i == 0)) [
      | inl z ↦ rw (addrs i (omega arith), z)
      | inr nz ↦
          rw (addrs i (omega arith), nz)
            (r.stable s.blocks t.blocks (s.addrs i) same (rw nz at own))
    ]

    root-Runs : Runs (free_root sb i f) (root_blocks i g) i (i + 1)
    unfolding root_blocks free_root
    root-Runs s fm own dis = elim (Bool-cases (s.addrs i == 0)) [
      | inl z ↦ rw z (
        s,
        refl,
        record {
          freed = Freed-nil sb s.blocks fm;
          addrs = λ j. elim (Bool-cases (leb i j && ltb j (i + 1))) [
            | inl here ↦ let same : j ≡ i = ground arith in rw (here, same) (==→eq (s.addrs i) 0 z)
            | inr away ↦ rw away
          ];
        },
      )
      | inr nz ↦
          let (e, q, h) = r.frees s.blocks (s.addrs i) fm (rw nz at own) (rw nz at dis) in
          rw (nz, q)
            (
              set_addr i 0 (record s { blocks = e }),
              refl,
              record { freed = h; addrs = λ j. ground arith },
            )
    ]

  direct-Stable : (n i : ℕ) → Stable (direct_blocks n i) i
  unfolding direct_blocks
  direct-Stable zero i s t same addrs own = refl
  direct-Stable (suc n) i s t same addrs own =
      let (o1, o2) =
        All-append (Owned sb s.blocks) (root_blocks i data_block s) (direct_blocks n (i + 1) s)
          own in
      let e1 = root-Stable (bfree sb) data_block (bfree-Releases sb) i s t same addrs o1 in
      let e2 = direct-Stable n (i + 1) s t same (λ j h. addrs j (omega arith)) o2 in rw (e1, e2)

  direct-Runs : (n i : ℕ) → Runs (free_direct sb n i) (direct_blocks n i) i (i + n)
  unfolding direct_blocks free_direct
  direct-Runs zero i = λ s fm own dis.
      (s, refl, record { freed = Freed-nil sb s.blocks fm; addrs = λ j. ground arith })
  direct-Runs (suc n) i =
      let e : i + 1 + n ≡ i + suc n = omega arith in
      let rest : Runs (free_direct sb n (i + 1)) (direct_blocks n (i + 1)) (i + 1) (i + suc n) =
        rw e at (direct-Runs n (i + 1)) in
      then-Runs (free_root sb i (bfree sb)) (free_direct sb n (i + 1)) (root_blocks i data_block)
        (direct_blocks n (i + 1)) i (i + 1) (i + suc n) (omega arith) (omega arith)
        (root-Runs (bfree sb) data_block (bfree-Releases sb) i) rest (direct-Stable n (i + 1))

  append-Stable :
      (l m : Content → List ℕ) (j k : ℕ)
      → j ≤ k
      → Stable l j
      → Stable m k
      → Stable (λ s. l s ++ m s) j
  append-Stable l m j k le sl sm s t same addrs own =
      let (o1, o2) = All-append (Owned sb s.blocks) (l s) (m s) own in
      let e1 = sl s t same addrs o1 in
      let e2 = sm s t same (λ x h. addrs x (omega arith)) o2 in rw (e1, e2)

  -- What the routine does to blocks that are distinct and in the hands of the file.
  pub itrunc-Runs : Runs (itrunc sb) file_blocks 0 (ndirect + 3)
  unfolding itrunc file_blocks
  itrunc-Runs =
      let g1 = free_tree sb (bfree sb) in
      let g2 = free_tree sb g1 in
      let g3 = free_tree sb g2 in
      let r1 = free_tree-Releases sb (bfree sb) data_block (bfree-Releases sb) in
      let r2 = free_tree-Releases sb g1 indirect r1 in
      let r3 = free_tree-Releases sb g2 (tree_blocks indirect) r2 in
      let b1 = root_blocks 10 indirect in
      let b2 = root_blocks 11 (tree_blocks indirect) in
      let b3 = root_blocks 12 (tree_blocks (tree_blocks indirect)) in
      let step2 =
        then-Runs (free_root sb 11 g2) (free_root sb 12 g3) b2 b3 11 12 13 (omega arith)
          (omega arith) (root-Runs g2 (tree_blocks indirect) r2 11)
          (root-Runs g3 (tree_blocks (tree_blocks indirect)) r3 12)
          (root-Stable g3 (tree_blocks (tree_blocks indirect)) r3 12) in
      let stable2 =
        append-Stable b2 b3 11 12 (omega arith) (root-Stable g2 (tree_blocks indirect) r2 11)
          (root-Stable g3 (tree_blocks (tree_blocks indirect)) r3 12) in
      let step1 =
        then-Runs (free_root sb 10 g1)
          (λ s. elim (free_root sb 11 g2 s) [ none ↦ none | some t ↦ free_root sb 12 g3 t ]) b1
          (λ s. b2 s ++ b3 s) 10 11 13 (omega arith) (omega arith) (root-Runs g1 indirect r1 10)
          step2 stable2 in
      then-Runs (free_direct sb 10 0)
        (λ s. elim (free_root sb 10 g1 s) [
          | none ↦ none
          | some t ↦ elim (free_root sb 11 g2 t) [ none ↦ none | some u ↦ free_root sb 12 g3 u ]
        ])
        (direct_blocks 10 0) (λ s. b1 s ++ (b2 s ++ b3 s)) 0 10 13 (omega arith) (omega arith)
        (direct-Runs 10 0) step1
        (append-Stable b1 (λ s. b2 s ++ b3 s) 10 11 (omega arith) (root-Stable g1 indirect r1 10)
          stable2)
