-- ===== src/Bmap/Slots.antt =====
-- `bmap`: the place of each block of a file, and the theorem on the routine.
use xv7_mirror.Base.{
  ℕ, ◌+◌, ◌-◌, ◌/◌, ◌%◌, ◌^◌, ◌≤◌, ◌<◌, ◌≡◌, sym, subst, true, false, List, [], ◌∷◌, arith, ltb,
  if◌then◌else◌, Bool-cases, inl, inr, length, some, none, Option,
}
use xv7_mirror.FreeMap.{Superblock}
use xv7_mirror.Bmap.{
  Content, M, root, child, ◌>>=◌, single, double, triple, bmap, ndirect, nindirect, ndindirect,
  ntindirect,
}
use xv7_mirror.Bmap.Nodes.{node, depth, IsPlace, IsPlace-tail, IsTree}
use xv7_mirror.Bmap.Steps.{node_of_zero}
use xv7_mirror.Bmap.Reached.{Reached, Reaches, TakesAtMost, root-Reaches, child-Reaches}

-- MAXFILE
abbrev pub maxfile : ℕ
maxfile = ndirect + nindirect + ndindirect + ntindirect

-- The entry of the inode below which block `bn` of a file stands, and the way from there.
pub slot_root : ℕ → ℕ
slot_root bn = if ltb bn 10 then bn else if ltb bn 138 then 10 else if ltb bn 16522 then 11 else 12

pub slot_path : ℕ → List ℕ
slot_path bn =
    if ltb bn 10
    then []
    else if ltb bn 138
    then (bn - 10) ∷ []
    else if ltb bn 16522
    then ((bn - 138) % 128) ∷ ((bn - 138) / 128) ∷ []
    else ((bn - 16522) % 16384 % 128) ∷ ((bn - 16522) % 16384 / 128) ∷ ((bn - 16522) / 16384) ∷ []

-- The address of block `bn` of a file; 0 if it has none.
unfoldable pub data_addr : Content → ℕ → ℕ
data_addr s bn = node s (slot_root bn) (slot_path bn)

abbrev pub IsLeaf : ℕ → List ℕ → Type 0
IsLeaf i p = IsPlace i p × (length p ≡ depth i)

pub slot-IsLeaf : (bn : ℕ) → bn < maxfile → IsLeaf (slot_root bn) (slot_path bn)
unfolding slot_root slot_path
slot-IsLeaf bn h = ground arith

pub slot_injective :
    (bn bm : ℕ)
    → slot_root bn ≡ slot_root bm
    → slot_path bn ≡ slot_path bm
    → bn < maxfile
    → bm < maxfile
    → bn ≡ bm
unfolding slot_root slot_path
slot_injective bn bm e1 e2 h k = ground arith

module _ (sb : Superblock) (pos : 0 < sb.size) (small : sb.size ≤ 2 ^ 32) where
  weaken :
      (s : Content) (i : ℕ) (p : List ℕ) (n n' : ℕ) (r : Option (ℕ × Content))
      → n ≤ n'
      → Reaches sb n s i p r
      → Reaches sb n' s i p r
  weaken s i p n n' none le (z, (l, m, full)) = (z, (l, omega arith, full))
  weaken s i p n n' (some (a, t)) le (r, (l, m, same)) = (r, (l, omega arith, same))

  -- The rest of a walk, behind the step to `(i, p)`.
  bind-Reaches :
      (s : Content) (i : ℕ) (p q : List ℕ) (n n' : ℕ) (r : Option (ℕ × Content)) (f : ℕ → M ℕ)
      → n ≤ n'
      → (node s i p ≡ 0 → node s i q ≡ 0)
      → Reaches sb n s i p r
      → ((a : ℕ) (t : Content)
          → Reached sb s i p a t
          → TakesAtMost sb (n + 1) s t
          → Reaches sb n' s i q (f a t))
      → Reaches sb n' s i q (elim r [ none ↦ none | some (a, t) ↦ f a t ])
  bind-Reaches s i p q n n' none f le down (z, (l, m, full)) rest = (down z, (l, omega arith, full))
  bind-Reaches s i p q n n' (some (a, t)) f le down (r, takes) rest = rest a t r takes

  module _ (s : Content) (tree : IsTree sb s) where
    single-Reaches : (k : ℕ) → IsPlace 10 (k ∷ []) → Reaches sb 3 s 10 (k ∷ []) (single sb k s)
    unfolding single
    single-Reaches k pl =
        bind-Reaches s 10 [] (k ∷ []) 0 3 (root sb ndirect s) (λ p. child sb p k) (omega arith)
          (node_of_zero s 10 k []) (root-Reaches sb pos small s 10 tree (omega arith))
          (λ a t r takes.
            weaken s 10 (k ∷ []) 1 3 (child sb a k t) (omega arith)
              (child-Reaches sb pos small 0 r takes pl))

    double-Reaches :
        (bn : ℕ)
        → IsPlace 11 ((bn % 128) ∷ (bn / 128) ∷ [])
        → Reaches sb 3 s 11 ((bn % 128) ∷ (bn / 128) ∷ []) (double sb bn s)
    unfolding double
    double-Reaches bn pl =
        let k = bn / 128 in
        let l = bn % 128 in
        let pl1 = IsPlace-tail 11 l (k ∷ []) pl in
        bind-Reaches s 11 [] (l ∷ k ∷ []) 0 3 (root sb (ndirect + 1) s)
          (λ p. child sb p k >>= λ q. child sb q l) (omega arith)
          (λ z. node_of_zero s 11 l (k ∷ []) (node_of_zero s 11 k [] z))
          (root-Reaches sb pos small s 11 tree (omega arith))
          (λ a t r takes.
            bind-Reaches s 11 (k ∷ []) (l ∷ k ∷ []) 1 3 (child sb a k t) (λ q. child sb q l)
              (omega arith) (node_of_zero s 11 l (k ∷ []))
              (child-Reaches sb pos small 0 r takes pl1)
              (λ b u r' takes'.
                weaken s 11 (l ∷ k ∷ []) 2 3 (child sb b l u) (omega arith)
                  (child-Reaches sb pos small 1 r' takes' pl)))

    triple-Reaches :
        (bn : ℕ)
        → IsPlace 12 ((bn % ndindirect % 128) ∷ (bn % ndindirect / 128) ∷ (bn / ndindirect) ∷ [])
        → Reaches sb 3 s 12
            ((bn % ndindirect % 128) ∷ (bn % ndindirect / 128) ∷ (bn / ndindirect) ∷ [])
            (triple sb bn s)
    unfolding triple
    triple-Reaches bn pl =
        let k = bn / ndindirect in
        let l = bn % ndindirect / 128 in
        let m = bn % ndindirect % 128 in
        let pl2 = IsPlace-tail 12 m (l ∷ k ∷ []) pl in
        let pl1 = IsPlace-tail 12 l (k ∷ []) pl2 in
        bind-Reaches s 12 [] (m ∷ l ∷ k ∷ []) 0 3 (root sb (ndirect + 2) s)
          (λ p. child sb p k >>= λ q. child sb q l >>= λ r. child sb r m) (omega arith)
          (λ z.
            node_of_zero s 12 m (l ∷ k ∷ [])
              (node_of_zero s 12 l (k ∷ []) (node_of_zero s 12 k [] z)))
          (root-Reaches sb pos small s 12 tree (omega arith))
          (λ a t r takes.
            bind-Reaches s 12 (k ∷ []) (m ∷ l ∷ k ∷ []) 1 3 (child sb a k t)
              (λ q. child sb q l >>= λ r. child sb r m) (omega arith)
              (λ z. node_of_zero s 12 m (l ∷ k ∷ []) (node_of_zero s 12 l (k ∷ []) z))
              (child-Reaches sb pos small 0 r takes pl1)
              (λ b u r' takes'.
                bind-Reaches s 12 (l ∷ k ∷ []) (m ∷ l ∷ k ∷ []) 2 3 (child sb b l u)
                  (λ r. child sb r m) (omega arith) (node_of_zero s 12 m (l ∷ k ∷ []))
                  (child-Reaches sb pos small 1 r' takes' pl2)
                  (λ c v r'' takes''. child-Reaches sb pos small 2 r'' takes'' pl)))

    pub bmap-Reaches :
        (bn : ℕ) → bn < maxfile → Reaches sb 3 s (slot_root bn) (slot_path bn) (bmap sb bn s)
    unfolding bmap slot_root slot_path
    bmap-Reaches bn h = elim (Bool-cases (ltb bn 10)) [
      | inl direct ↦ rw direct (
          weaken s bn [] 0 3 (root sb bn s) (omega arith)
            (root-Reaches sb pos small s bn tree (ground arith)))
      | inr far1 ↦ elim (Bool-cases (ltb bn 138)) [
        | inl near ↦
            let e : ltb (bn - 10) 128 ≡ true = ground arith in
            rw (far1, near, e) (single-Reaches (bn - 10) (ground arith))
        | inr far2 ↦ elim (Bool-cases (ltb bn 16522)) [
          | inl near ↦
              let e : ltb (bn - 10) 128 ≡ false = ground arith in
              let e' : ltb (bn - 10 - 128) 16384 ≡ true = ground arith in
              let same : bn - 10 - 128 ≡ bn - 138 = omega arith in
              rw (far1, far2, near, e, e')
                (subst
                  (λ x.
                    Reaches sb 3 s 11 ((bn - 138) % 128 ∷ (bn - 138) / 128 ∷ []) (double sb x s))
                  (sym same) (double-Reaches (bn - 138) (ground arith)))
          | inr far3 ↦
              let e : ltb (bn - 10) 128 ≡ false = ground arith in
              let e' : ltb (bn - 10 - 128) 16384 ≡ false = ground arith in
              let e'' : ltb (bn - 10 - 128 - 16384) 2097152 ≡ true = ground arith in
              let same : bn - 10 - 128 - 16384 ≡ bn - 16522 = omega arith in
              rw (far1, far2, far3, e, e', e'')
                (subst
                  (λ x.
                    Reaches sb 3 s 12
                      ((bn - 16522) % 16384 % 128
                        ∷ (bn - 16522) % 16384 / 128
                        ∷ (bn - 16522) / 16384
                        ∷ [])
                      (triple sb x s))
                  (sym same) (triple-Reaches (bn - 16522) (ground arith)))
        ]
      ]
    ]
