-- ===== src/Bmap/Steps.antt =====
-- The two places where `bmap` gets a block: an entry of the inode, and an entry of a block.
use xv7_mirror.Base.{
  ℕ, suc, ◌+◌, ◌^◌, ◌≤◌, ◌<◌, ◌≡◌, ◌≢◌, refl, sym, ap, ◌∙◌, subst, true, false, List, [], ◌∷◌,
  arith, ◌==◌, if◌then◌else◌, Bool-cases, inl, inr, ==→eq, ==_false→ne, eq→==, ne→==_false, length,
}
use xv7_mirror.FreeMap.{Superblock, Blocks, set_block, bsize}
use xv7_mirror.FreeMap.Owner.{Owned, Grows, write-Owned, write-used, write-IsFormatted}
use xv7_mirror.Bmap.{Content, word, set_word, set_addr, ndirect, nindirect}
use xv7_mirror.Bmap.Words.{word-set_self, word-set_other, set_word-IsBytes, word_blank}
use xv7_mirror.Bmap.Nodes.{
  node, IsPlace, IsPlace-tail, same_place, same_place→eq, same_place_refl, beside-tail, IsTree,
}
use xv7_mirror.Bmap.Grow.{Adds, owned-ne_fresh}

-- Below an address that is 0 there is nothing.
pub node_of_zero : (s : Content) (i k : ℕ) (p : List ℕ) → node s i p ≡ 0 → node s i (k ∷ p) ≡ 0
unfolding node
node_of_zero s i k p z = rw z

pub node_of_block :
    (s : Content) (i k : ℕ) (p : List ℕ) (a : ℕ)
    → node s i p ≡ a
    → a ≢ 0
    → node s i (k ∷ p) ≡ word (s.blocks a) k
unfolding node
node_of_block s i k p a e nz = rw (e, ne→==_false a 0 nz)

-- A block with no bytes but 0 gives no address.
node_of_blank :
    (t : Content) (i k : ℕ) (p : List ℕ) (b : ℕ)
    → node t i p ≡ b
    → b ≢ 0
    → ((a : ℕ) → a < bsize → t.blocks b a ≡ 0)
    → k < nindirect
    → node t i (k ∷ p) ≡ 0
node_of_blank t i k p b e nz blank lt =
    node_of_block t i k p b e nz ∙ word_blank (t.blocks b) k blank lt

module _ (sb : Superblock) (pos : 0 < sb.size) where
  -- The nodes one step further, where the block at a place is the same in both contents.
  pub node_step :
      (s t : Content) (j l : ℕ) (q : List ℕ)
      → node t j q ≡ node s j q
      → (node s j q ≢ 0 → word (t.blocks (node s j q)) l ≡ word (s.blocks (node s j q)) l)
      → node t j (l ∷ q) ≡ node s j (l ∷ q)
  node_step s t j l q e same = elim (Bool-cases (node s j q == 0)) [
    | inl z ↦
        let z' = ==→eq (node s j q) 0 z in
        node_of_zero t j l q (cc (e, z')) ∙ sym (node_of_zero s j l q z')
    | inr nz ↦
        let nz' = ==_false→ne (node s j q) 0 nz in
        node_of_block t j l q (node s j q) e nz'
        ∙ same nz'
        ∙ sym (node_of_block s j l q (node s j q) refl nz')
  ]

  module _ (s : Content) (tree : IsTree sb s) (b : ℕ) (d : Blocks) (g : Grows sb s.blocks d b) where
    pub grown_same : (c : ℕ) → Owned sb s.blocks c → d c ≡ s.blocks c
    grown_same c o = g.same c o.apart (owned-ne_fresh sb s.blocks b c g.fresh o)

    module _ (i : ℕ) (lt : i < ndirect + 3) (empty : s.addrs i ≡ 0) where
      abbrev pub with_root : Content
      with_root = set_addr i b (record s { blocks = d })

      root_nodes :
          (j : ℕ) (q : List ℕ)
          → IsPlace j q
          → node with_root j q ≡ (if same_place i [] j q then b else node s j q)
      unfolding node
      root_nodes j [] pl = ground arith
      root_nodes j (l ∷ q) pl =
          let ih = root_nodes j q (IsPlace-tail j l q pl) in
          elim (Bool-cases (same_place i [] j q)) [
            | inl here ↦
                let (e1, e2) = same_place→eq i [] j q here in
                let was : node s j (l ∷ q) ≡ 0 =
                  node_of_zero s j l q
                    (subst (λ p. node s j p ≡ 0) e2 (subst (λ x. s.addrs x ≡ 0) e1 empty)) in
                let is : node with_root j (l ∷ q) ≡ 0 =
                  node_of_blank with_root j l q b (rw here at ih) g.new.nonzero g.blank pl.2.0 in
                let no : same_place i [] j (l ∷ q) ≡ false = ground arith in rw no (is ∙ sym was)
            | inr other ↦
                let no : same_place i [] j (l ∷ q) ≡ false = ground arith in
                rw no (
                  node_step s with_root j l q (rw other at ih) (λ nz.
                    ap (λ m. word m l)
                      (grown_same (node s j q) (tree.owned j q (IsPlace-tail j l q pl) nz))))
          ]

      pub root-Adds : Adds sb s with_root i [] b
      root-Adds = record {
        place = (lt, omega arith, tt);
        nodes = root_nodes;
        fresh = g.fresh;
        new = g.new;
        kept = g.kept;
        set = g.set;
        formatted = g.formatted;
        blank = g.blank;
      }

    module _ (i k : ℕ) (p : List ℕ) (a : ℕ) (place : IsPlace i (k ∷ p)) (at_p : node s i p ≡ a)
        (nz : a ≢ 0) (empty : word (s.blocks a) k ≡ 0) (small : sb.size ≤ 2 ^ 32) where
      abbrev pub with_child : Content
      with_child = record s { blocks = set_block a (set_word k b (d a)) d }

      parent : Owned sb s.blocks a
      parent =
          subst (Owned sb s.blocks) at_p
            (tree.owned i p (IsPlace-tail i k p place) (λ z. nz (cc (at_p, z))))

      pub child_other : (c : ℕ) → c ≢ a → with_child.blocks c ≡ d c
      child_other c ne = rw (ne→==_false c a ne)

      child_parent : with_child.blocks a ≡ set_word k b (s.blocks a)
      child_parent = rw (eq→== a a refl, grown_same a parent)

      b-ne-a : b ≢ a
      b-ne-a e = owned-ne_fresh sb s.blocks b a g.fresh parent (sym e)

      child_word :
          (j l : ℕ) (q : List ℕ)
          → IsPlace j (l ∷ q)
          → same_place i (k ∷ p) j (l ∷ q) ≡ false
          → node s j q ≢ 0
          → word (with_child.blocks (node s j q)) l ≡ word (s.blocks (node s j q)) l
      child_word j l q pl other nz' = elim (Bool-cases (node s j q == a)) [
        | inl here ↦
            let e : node s j q ≡ a = ==→eq (node s j q) a here in
            let (e1, e2) =
              tree.once j q i p (IsPlace-tail j l q pl) (IsPlace-tail i k p place) nz'
                (cc (e, at_p)) in
            let ne : k ≢ l = λ kl.
              let y = same_place_refl i (k ∷ p) in
              let y' : same_place i (k ∷ p) j (l ∷ q) ≡ true =
                subst (λ x. same_place i (k ∷ p) j (x ∷ q) ≡ true) kl
                  (subst (λ r. same_place i (k ∷ p) j (k ∷ r) ≡ true) (sym e2)
                    (subst (λ x. same_place i (k ∷ p) x (k ∷ p) ≡ true) (sym e1) y)) in
              cc (y', other) in
            subst (λ c. word (with_child.blocks c) l ≡ word (s.blocks c) l) (sym e)
              (ap (λ m. word m l) child_parent ∙ word-set_other (s.blocks a) k l b ne)
        | inr away ↦
            let ne = ==_false→ne (node s j q) a away in
            ap (λ m. word m l)
              (child_other (node s j q) ne
                ∙ grown_same (node s j q) (tree.owned j q (IsPlace-tail j l q pl) nz'))
      ]

      child_self : word (set_word k b (s.blocks a)) k ≡ b
      child_self = word-set_self (s.blocks a) k b (omega (arith, g.new.inside))

      child_nodes :
          (j : ℕ) (q : List ℕ)
          → IsPlace j q
          → node with_child j q ≡ (if same_place i (k ∷ p) j q then b else node s j q)
      unfolding node
      child_nodes j [] pl = ground arith
      child_nodes j (l ∷ q) pl =
          let ih = child_nodes j q (IsPlace-tail j l q pl) in
          elim (Bool-cases (same_place i (k ∷ p) j q)) [
            | inl here ↦
                let (e1, e2) = same_place→eq i (k ∷ p) j q here in
                let none_there : node s i (k ∷ p) ≡ 0 = node_of_block s i k p a at_p nz ∙ empty in
                let was : node s j (l ∷ q) ≡ 0 = node_of_zero s j l q (
                  subst (λ r. node s j r ≡ 0) e2
                    (subst (λ x. node s x (k ∷ p) ≡ 0) e1 none_there)) in
                let is : node with_child j (l ∷ q) ≡ 0 =
                  node_of_blank with_child j l q b (rw here at ih) g.new.nonzero
                    (λ x hx. ap (λ (m : ℕ → ℕ). m x) (child_other b b-ne-a) ∙ g.blank x hx)
                    pl.2.0 in
                let longer : same_place i (k ∷ p) j (l ∷ q) ≡ false =
                  (beside-tail i l (k ∷ p) j (l ∷ q)
                    (let len : suc (length p) ≡ length q = ap length e2 in ground arith)).1 in
                rw longer (is ∙ sym was)
            | inr other ↦ elim (Bool-cases (same_place i (k ∷ p) j (l ∷ q))) [
              | inl target ↦
                  let (e1, e2) = same_place→eq i (k ∷ p) j (l ∷ q) target in
                  let kl : k ≡ l = cc e2 in
                  let pq : p ≡ q = cc e2 in
                  let was : node s j q ≡ a =
                    subst (λ r. node s j r ≡ a) pq (subst (λ x. node s x p ≡ a) e1 at_p) in
                  let now : node with_child j q ≡ a = (rw other at ih) ∙ was in
                  rw target (
                    node_of_block with_child j l q a now nz
                    ∙ ap (λ m. word m l) child_parent
                    ∙ subst (λ x. word (set_word k b (s.blocks a)) x ≡ b) kl child_self)
              | inr apart ↦
                  rw apart
                    (node_step s with_child j l q (rw other at ih) (child_word j l q pl apart))
            ]
          ]

      child_bytes : (x : ℕ) → set_word k b (d a) x < 256
      child_bytes = set_word-IsBytes (d a) k b (g.formatted.bytes a)

      pub child-Adds : Adds sb s with_child i (k ∷ p) b
      child-Adds = record {
        place = place;
        nodes = child_nodes;
        fresh = g.fresh;
        new =
            write-Owned sb d a (set_word k b (d a)) g.formatted (g.kept a parent) child_bytes b
              g.new;
        kept = λ c o.
            write-Owned sb d a (set_word k b (d a)) g.formatted (g.kept a parent) child_bytes c
              (g.kept c o);
        set = λ c lt.
            write-used sb d a (set_word k b (d a)) g.formatted (g.kept a parent) child_bytes c lt
            ∙ g.set c lt;
        formatted =
            write-IsFormatted sb d a (set_word k b (d a)) g.formatted (g.kept a parent) child_bytes
              pos;
        blank = λ x hx. ap (λ (m : ℕ → ℕ). m x) (child_other b b-ne-a) ∙ g.blank x hx;
      }
