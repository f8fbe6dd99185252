-- ===== src/Bmap/Listed.antt =====
-- The blocks of a well-formed tree, as `itrunc` lists them, are distinct and in the file's hands.
use mathlib.Core.List.{append_assoc}
use xv7_mirror.Base.{
  ℕ, zero, suc, ◌+◌, ◌≤◌, ◌<◌, ◌≡◌, ◌≢◌, refl, sym, ap, subst, true, List, [], ◌∷◌, ◌++◌, arith,
  ◌==◌, Bool-cases, inl, inr, ◌⊎◌, ==_false→ne, length, length-append,
}
use xv7_mirror.Base.Mem.{has, All, Distinct, All-of-has, has-append}
use xv7_mirror.FreeMap.{Superblock, Blocks}
use xv7_mirror.FreeMap.Owner.{Owned}
use xv7_mirror.Bmap.{Content, word, ndirect, nindirect}
use xv7_mirror.Bmap.Nodes.{node, depth, IsPlace, IsTree}
use xv7_mirror.Bmap.Steps.{node_of_block}
use xv7_mirror.Bmap.Trunc.{tree_blocks, data_block, entry_blocks}
use xv7_mirror.Bmap.Emptied.{root_blocks, direct_blocks, file_blocks, Emptied}

append_head : (q r p : List ℕ) (j k : ℕ) → q ++ (j ∷ p) ≡ r ++ (k ∷ p) → length q ≡ length r → j ≡ k
append_head [] [] p j k e h = ground arith
append_head [] (y ∷ r) p j k e h = absurd (omega arith)
append_head (x ∷ q) [] p j k e h = absurd (omega arith)
append_head (x ∷ q) (y ∷ r) p j k e h = append_head q r p j k (cc) (omega arith)

append_length :
    (q r : List ℕ) (p p' : List ℕ) → q ++ p ≡ r ++ p' → length q + length p ≡ length r + length p'
append_length q r p p' e = omega (arith, ap length e, length-append q p, length-append r p')

-- No member stands in both.
abbrev Apart : List ℕ → List ℕ → Type 0
Apart l m = (v : ℕ) → has v l ≡ true → has v m ≡ true → ⊥

Distinct-of_Apart : (l m : List ℕ) → Distinct l → Distinct m → Apart l m → Distinct (l ++ m)
Distinct-of_Apart [] m dl dm ap = dm
Distinct-of_Apart (x ∷ l) m (out, dl) dm ap = (
  elim (Bool-cases (has x m)) [
    | inl y ↦ absurd (ap x (ground arith) y)
    | inr n ↦ ground (arith, has-append x l m)
  ],
  Distinct-of_Apart l m dl dm (λ v h k. ap v (ground arith) k),
)

has-split : (v : ℕ) (l m : List ℕ) → has v (l ++ m) ≡ true → (has v l ≡ true) ⊎ (has v m ≡ true)
has-split v l m h = elim (Bool-cases (has v l)) [
  | inl y ↦ inl y
  | inr n ↦ inr (ground (arith, has-append v l m))
]

-- Block `v` stands somewhere at or below place `(i, p)`.
abbrev StandsBelow : Content → ℕ → List ℕ → ℕ → Type 0
StandsBelow s i p v = (q : List ℕ) × IsPlace i (q ++ p) × (node s i (q ++ p) ≡ v) × (v ≢ 0)

abbrev Lists : Content → ℕ → List ℕ → List ℕ → Type 0
Lists s i p l = ((v : ℕ) → has v l ≡ true → StandsBelow s i p v) × Distinct l

module _ (sb : Superblock) (s : Content) (tree : IsTree sb s) where
  -- The members found below two places are the same only if one place is.
  stands_once :
      (i j : ℕ) (p r : List ℕ) (v : ℕ)
      → StandsBelow s i p v
      → StandsBelow s j r v
      → (i ≡ j) × (q : List ℕ) × (q' : List ℕ) × (q ++ p ≡ q' ++ r)
  stands_once i j p r v (q, pl, e, nz) (q', pl', e', nz') =
      let (a, b) = tree.once i (q ++ p) j (q' ++ r) pl pl' (λ z. nz (cc (e, z))) (cc (e, e')) in
      (a, q, q', b)

  module _ (i : ℕ) (p : List ℕ) (a : ℕ) (at_p : node s i p ≡ a) (nz : a ≢ 0) (g : ℕ → List ℕ)
      (below : (k w : ℕ)
        → k < nindirect
        → node s i (k ∷ p) ≡ w
        → w ≢ 0
        → Lists s i (k ∷ p) (g w)) where
    abbrev StandsFrom : ℕ → ℕ → Type 0
    StandsFrom j v = (k : ℕ) × (j ≤ k) × (k < nindirect) × StandsBelow s i (k ∷ p) v

    entries-Lists :
        (n j : ℕ)
        → j + n ≤ nindirect
        → ((v : ℕ) → has v (entry_blocks n j (s.blocks a) g) ≡ true → StandsFrom j v)
          × Distinct (entry_blocks n j (s.blocks a) g)
    unfolding entry_blocks
    entries-Lists zero j le = ((λ v h. absurd (cc)), tt)
    entries-Lists (suc n) j le =
        let (mem, dis) = entries-Lists n (j + 1) (omega arith) in
        elim (Bool-cases (word (s.blocks a) j == 0)) [
          | inl z ↦ rw z ((λ v h. let (k, lo, hi, st) = mem v h in (k, omega arith, hi, st)), dis)
          | inr nz' ↦
              let w = word (s.blocks a) j in
              let (mem', dis') =
                below j w (omega arith) (node_of_block s i j p a at_p nz) (==_false→ne w 0 nz') in
              rw nz' (
                (λ v h. elim (has-split v (g w) (entry_blocks n (j + 1) (s.blocks a) g) h) [
                  | inl y ↦ (j, omega arith, omega arith, mem' v y)
                  | inr y ↦ let (k, lo, hi, st) = mem v y in (k, omega arith, hi, st)
                ]),
                Distinct-of_Apart (g w) (entry_blocks n (j + 1) (s.blocks a) g) dis' dis (λ v h h'.
                    let (k, lo, hi, st) = mem v h' in
                    let (_, q, q', e) = stands_once i i (j ∷ p) (k ∷ p) v (mem' v h) st in
                    let same : j ≡ k =
                      append_head q q' p j k e
                        (omega (arith, append_length q q' (j ∷ p) (k ∷ p) e)) in
                    omega arith),
              )
        ]

  lower : (i k : ℕ) (p : List ℕ) (v : ℕ) → StandsBelow s i (k ∷ p) v → StandsBelow s i p v
  lower i k p v (q, pl, e, nz) =
      let same : (q ++ (k ∷ [])) ++ p ≡ q ++ (k ∷ p) = append_assoc q (k ∷ []) p in
      (q ++ (k ∷ []), subst (IsPlace i) (sym same) pl, subst (λ r. node s i r ≡ v) (sym same) e, nz)

  -- `n` blocks of addresses above the data.
  abbrev level : ℕ → Blocks → ℕ → List ℕ
  level zero = data_block
  level (suc n) = tree_blocks (level n)

  level-Lists :
      (n i : ℕ) (p : List ℕ) (a : ℕ)
      → IsPlace i p
      → length p + n ≡ depth i
      → node s i p ≡ a
      → a ≢ 0
      → Lists s i p (level n s.blocks a)
  unfolding data_block tree_blocks
  level-Lists zero i p a pl len e nz = (
    (λ v h. (
      [],
      pl,
      (let same : a ≡ v = ground arith in cc (e, same)),
      (let same : a ≡ v = ground arith in λ z. nz (cc (same, z))),
    )),
    (refl, tt),
  )
  level-Lists (suc n) i p a pl len e nz =
      let (mem, dis) =
        entries-Lists i p a e nz (level n s.blocks)
          (λ k w lt e' nz'.
            level-Lists n i (k ∷ p) w (pl.0, omega arith, (lt, pl.2)) (omega arith) e' nz')
          nindirect 0 (omega arith) in
      let here : StandsBelow s i p a = ([], pl, e, nz) in
      (
        (λ v h.
            elim (has-split v (entry_blocks nindirect 0 (s.blocks a) (level n s.blocks)) (a ∷ [])
              h) [
                | inl y ↦ let (k, lo, hi, st) = mem v y in lower i k p v st
                | inr y ↦ let same : a ≡ v = ground arith in subst (StandsBelow s i p) same here
              ]),
        Distinct-of_Apart (entry_blocks nindirect 0 (s.blocks a) (level n s.blocks)) (a ∷ []) dis
            (ground arith, tt)
            (λ v h h'.
              let (k, lo, hi, st) = mem v h in
              let (q, pl', e', nz') = st in
              let same : a ≡ v = ground arith in
              let (_, long) =
                tree.once i (q ++ (k ∷ p)) i p pl' pl (λ z. nz' (cc (e', z))) (cc (e, e', same)) in
              omega (arith, append_length q [] (k ∷ p) p long)),
      )

  -- The blocks of the list stand below the entries from `i` on, below `j`, and are distinct.
  abbrev ListsFrom : ℕ → ℕ → List ℕ → Type 0
  ListsFrom i j l =
      ((v : ℕ) → has v l ≡ true → (k : ℕ) × (i ≤ k) × (k < j) × StandsBelow s k [] v) × Distinct l

  append-ListsFrom :
      (i j k : ℕ) (l m : List ℕ)
      → i ≤ j
      → j ≤ k
      → ListsFrom i j l
      → ListsFrom j k m
      → ListsFrom i k (l ++ m)
  append-ListsFrom i j k l m lo hi (ml, dl) (mm, dm) = (
    (λ v h. elim (has-split v l m h) [
      | inl y ↦ let (x, a, b, st) = ml v y in (x, a, omega arith, st)
      | inr y ↦ let (x, a, b, st) = mm v y in (x, omega arith, b, st)
    ]),
    Distinct-of_Apart l m dl dm (λ v h h'.
        let (x, a, b, st) = ml v h in
        let (y, c, d, st') = mm v h' in
        let (same, _, _, _) = stands_once x y [] [] v st st' in omega arith),
  )

  root-ListsFrom :
      (n i : ℕ) → i < ndirect + 3 → n ≡ depth i → ListsFrom i (i + 1) (root_blocks i (level n) s)
  unfolding root_blocks node
  root-ListsFrom n i lt len = elim (Bool-cases (s.addrs i == 0)) [
    | inl z ↦ rw z ((λ v h. absurd (cc)), tt)
    | inr nz ↦
        let (mem, dis) =
          level-Lists n i [] (s.addrs i) (lt, omega arith, tt) (omega arith) refl
            (==_false→ne (s.addrs i) 0 nz) in
        rw nz ((λ v h. (i, omega arith, omega arith, mem v h)), dis)
  ]

  direct-ListsFrom : (n i : ℕ) → i + n ≤ ndirect → ListsFrom i (i + n) (direct_blocks n i s)
  unfolding direct_blocks
  direct-ListsFrom zero i le = ((λ v h. absurd (cc)), tt)
  direct-ListsFrom (suc n) i le =
      append-ListsFrom i (i + 1) (i + suc n) (root_blocks i data_block s)
        (direct_blocks n (i + 1) s) (omega arith) (omega arith)
        (root-ListsFrom 0 i (omega arith) (omega arith))
        (let e : i + 1 + n ≡ i + suc n = omega arith in
          subst (λ x. ListsFrom (i + 1) x (direct_blocks n (i + 1) s)) e
            (direct-ListsFrom n (i + 1) (omega arith)))

  file-ListsFrom : ListsFrom 0 (ndirect + 3) (file_blocks s)
  unfolding file_blocks
  file-ListsFrom =
      append-ListsFrom 0 10 13 _ _ (omega arith) (omega arith) (direct-ListsFrom 10 0 (omega arith))
        (append-ListsFrom 10 11 13 _ _ (omega arith) (omega arith)
          (root-ListsFrom 1 10 (omega arith) refl)
          (append-ListsFrom 11 12 13 _ _ (omega arith) (omega arith)
            (root-ListsFrom 2 11 (omega arith) refl) (root-ListsFrom 3 12 (omega arith) refl)))

  pub file-Distinct : Distinct (file_blocks s)
  file-Distinct = file-ListsFrom.1

  pub file-Owned : All (Owned sb s.blocks) (file_blocks s)
  file-Owned = All-of-has (Owned sb s.blocks) (file_blocks s) (λ v h.
      let (k, lo, hi, st) = file-ListsFrom.0 v h in
      let (q, pl, e, nz) = st in
      subst (Owned sb s.blocks) e (tree.owned k (q ++ []) pl (λ z. nz (cc (e, z)))))
