-- ===== src/Bmap/Grow.antt =====
-- A new block in the tree: at an entry of the inode, or at an entry of a block of addresses.
use xv7_mirror.Base.{
  ℕ, ◌<◌, ◌≡◌, ◌≢◌, sym, subst, true, false, List, ◌==◌, if◌then◌else◌, Bool-cases, inl, inr,
}
use xv7_mirror.FreeMap.{Superblock, Blocks, bsize}
use xv7_mirror.FreeMap.Scan.{used}
use xv7_mirror.FreeMap.Free.{IsFormatted}
use xv7_mirror.FreeMap.Owner.{Owned}
use xv7_mirror.Bmap.{Content}
use xv7_mirror.Bmap.Nodes.{node, IsPlace, same_place, same_place→eq, IsTree}

module _ (sb : Superblock) where
  -- `t` is `s` with the new block `b` at place `(i, p)`.
  pub record Adds (s t : Content) (i : ℕ) (p : List ℕ) (b : ℕ) : Type 0 where
    pub place : IsPlace i p
    pub nodes :
        (j : ℕ) (q : List ℕ)
        → IsPlace j q
        → node t j q ≡ (if same_place i p j q then b else node s j q)
    pub fresh : used sb s.blocks b ≡ false
    pub new : Owned sb t.blocks b
    pub kept : (c : ℕ) → Owned sb s.blocks c → Owned sb t.blocks c
    pub set :
        (c : ℕ) → c < sb.size → used sb t.blocks c ≡ (if c == b then true else used sb s.blocks c)
    pub formatted : IsFormatted sb t.blocks
    pub blank : (a : ℕ) → a < bsize → t.blocks b a ≡ 0

  -- A block in use is not the one that was free.
  pub owned-ne_fresh : (d : Blocks) (b c : ℕ) → used sb d b ≡ false → Owned sb d c → c ≢ b
  owned-ne_fresh d b c free o e = let u = subst (λ x. used sb d x ≡ true) e o.taken in cc (u, free)

  Adds-once :
      {s t : Content} {i : ℕ} {p : List ℕ} {b : ℕ}
      → IsTree sb s
      → Adds s t i p b
      → (j : ℕ) (q : List ℕ) → IsPlace j q
      → same_place i p j q ≡ false
      → node t j q ≢ b
  Adds-once {s} {t} {i} {p} {b} tree ad j q pl other e =
      let same : node t j q ≡ node s j q = rw other at (ad.nodes j q pl) in
      let eq : node s j q ≡ b = cc (same, e) in
      owned-ne_fresh s.blocks b (node s j q) ad.fresh
        (tree.owned j q pl (λ z. ad.new.nonzero (cc (eq, z)))) eq

  pub Adds-IsTree :
      {s t : Content} {i : ℕ} {p : List ℕ} {b : ℕ} → IsTree sb s → Adds s t i p b → IsTree sb t
  Adds-IsTree {s} {t} {i} {p} {b} tree ad = record {
    formatted = ad.formatted;
    owned = λ j q pl nz. elim (Bool-cases (same_place i p j q)) [
      | inl here ↦
          let e : node t j q ≡ b = rw here at (ad.nodes j q pl) in
          subst (Owned sb t.blocks) (sym e) ad.new
      | inr other ↦
          let e : node t j q ≡ node s j q = rw other at (ad.nodes j q pl) in
          subst (Owned sb t.blocks) (sym e)
            (ad.kept (node s j q) (tree.owned j q pl (λ z. nz (cc (e, z)))))
    ];
    once = λ j q k r pj pk nz e. elim (Bool-cases (same_place i p j q)) [
      | inl here ↦ elim (Bool-cases (same_place i p k r)) [
        | inl here' ↦
            let (a1, a2) = same_place→eq i p j q here in
            let (b1, b2) = same_place→eq i p k r here' in (cc (a1, b1), cc (a2, b2))
        | inr other' ↦
            let e' : node t j q ≡ b = rw here at (ad.nodes j q pj) in
            absurd (Adds-once tree ad k r pk other' (cc (e, e')))
      ]
      | inr other ↦ elim (Bool-cases (same_place i p k r)) [
        | inl here' ↦
            let e' : node t k r ≡ b = rw here' at (ad.nodes k r pk) in
            absurd (Adds-once tree ad j q pj other (cc (e, e')))
        | inr other' ↦
            let ej : node t j q ≡ node s j q = rw other at (ad.nodes j q pj) in
            let ek : node t k r ≡ node s k r = rw other' at (ad.nodes k r pk) in
            tree.once j q k r pj pk (λ z. nz (cc (ej, z))) (cc (e, ej, ek))
      ]
    ];
  }
