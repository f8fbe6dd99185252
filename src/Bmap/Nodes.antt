-- ===== src/Bmap/Nodes.antt =====
-- The tree of blocks below an inode, place by place.
use xv7_mirror.Base.{
  ℕ, ◌+◌, ◌-◌, ◌≤◌, ◌<◌, ◌≡◌, ◌≢◌, refl, ap, Bool, true, false, not, ◌&&◌, ◌||◌, List, [], ◌∷◌,
  arith, leb, ◌==◌, if◌then◌else◌, Bool-cases, inl, inr, length,
}
use xv7_mirror.Base.Mem.{All}
use xv7_mirror.FreeMap.{Superblock}
use xv7_mirror.FreeMap.Free.{IsFormatted}
use xv7_mirror.FreeMap.Owner.{Owned}
use xv7_mirror.Bmap.{Content, word, ndirect, nindirect}

-- The address at a place: an entry `i` of the inode, and from there the indices into the blocks,
-- the last one first. It is 0 if there is no block.
unfoldable pub node : Content → ℕ → List ℕ → ℕ
node s i [] = s.addrs i
node s i (k ∷ p) = let a = node s i p in if a == 0 then 0 else word (s.blocks a) k

-- How many blocks of addresses stand above the data below entry `i`.
abbrev pub depth : ℕ → ℕ
depth i = i + 1 - ndirect

abbrev pub IsPlace : ℕ → List ℕ → Type 0
IsPlace i p = (i < ndirect + 3) × (length p ≤ depth i) × All (λ k. k < nindirect) p

pub IsPlace-tail : (i k : ℕ) (p : List ℕ) → IsPlace i (k ∷ p) → IsPlace i p
IsPlace-tail i k p (a, b, c) = (a, omega arith, c.1)

abbrev pub same_path : List ℕ → List ℕ → Bool
same_path [] [] = true
same_path [] (k ∷ q) = false
same_path (k ∷ p) [] = false
same_path (k ∷ p) (l ∷ q) = (k == l) && same_path p q

abbrev pub same_place : ℕ → List ℕ → ℕ → List ℕ → Bool
same_place i p j q = (i == j) && same_path p q

same_path→eq : (p q : List ℕ) → same_path p q ≡ true → p ≡ q
same_path→eq [] [] h = refl
same_path→eq [] (k ∷ q) h = absurd (cc)
same_path→eq (k ∷ p) [] h = absurd (cc)
same_path→eq (k ∷ p) (l ∷ q) h = ground (arith, same_path→eq p q)

same_path_refl : (p : List ℕ) → same_path p p ≡ true
same_path_refl [] = refl
same_path_refl (k ∷ p) = ground (arith, same_path_refl p)

pub same_place→eq :
    (i : ℕ) (p : List ℕ) (j : ℕ) (q : List ℕ) → same_place i p j q ≡ true → (i ≡ j) × (p ≡ q)
same_place→eq i p j q h = (ground arith, same_path→eq p q (ground arith))

pub same_place_refl : (i : ℕ) (p : List ℕ) → same_place i p i p ≡ true
same_place_refl i p = ground (arith, same_path_refl p)

-- Places that the walk to place `(i, p)` does not pass on its way.
abbrev pub beside : ℕ → List ℕ → ℕ → List ℕ → Bool
beside i p j q = leb (length p) (length q) || not (i == j)

pub beside-tail :
    (i k : ℕ) (p : List ℕ) (j : ℕ) (q : List ℕ)
    → beside i (k ∷ p) j q ≡ true
    → (beside i p j q ≡ true) × (same_place i p j q ≡ false)
beside-tail i k p j q h = (
  ground arith,
  elim (Bool-cases (same_place i p j q)) [
    | inr n ↦ n
    | inl e ↦
        let (e1, e2) = same_place→eq i p j q e in
        let len : length p ≡ length q = ap length e2 in absurd (ground arith)
  ],
)

-- Every block of the tree is in use for it, and stands at one place only.
pub record IsTree (sb : Superblock) (s : Content) : Type 0 where
  pub formatted : IsFormatted sb s.blocks
  pub owned : (i : ℕ) (p : List ℕ) → IsPlace i p → node s i p ≢ 0 → Owned sb s.blocks (node s i p)
  pub once :
      (i : ℕ) (p : List ℕ) (j : ℕ) (q : List ℕ)
      → IsPlace i p
      → IsPlace j q
      → node s i p ≢ 0
      → node s i p ≡ node s j q
      → (i ≡ j) × (p ≡ q)
