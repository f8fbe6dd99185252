-- ===== src/Bmap/Reached.antt =====
-- The state after the walk to a place: what `root` and `child` of `bmap` do in sequence.
use xv7_mirror.Base.{
  ℕ, ◌+◌, ◌^◌, ◌≤◌, ◌<◌, ◌≡◌, ◌≢◌, refl, sym, ap, ◌∙◌, subst, true, false, List, [], ◌∷◌, ◌++◌,
  arith, ◌==◌, Bool-cases, inl, inr, ==→eq, ==_false→ne, length, some, none, Option, length-append,
}
use xv7_mirror.Base.Mem.{has}
use xv7_mirror.FreeMap.{Superblock, Blocks, bsize, balloc}
use xv7_mirror.FreeMap.Scan.{used}
use xv7_mirror.FreeMap.Free.{balloc_lem}
use xv7_mirror.FreeMap.Owner.{balloc-Grows}
use xv7_mirror.Bmap.{Content, word, ndirect, root, child, new_root, new_child}
use xv7_mirror.Bmap.Nodes.{
  node, IsPlace, IsPlace-tail, same_place, same_place_refl, beside, beside-tail, IsTree,
}
use xv7_mirror.Bmap.Grow.{Adds, Adds-IsTree}
use xv7_mirror.Bmap.Steps.{
  node_of_zero, node_of_block, root-Adds, child-Adds, grown_same, child_other,
}

abbrev pub IsBlank : Content → ℕ → Type 0
IsBlank s b = (a : ℕ) → a < bsize → s.blocks b a ≡ 0

pub beside_refl : (i : ℕ) (p : List ℕ) → beside i p i p ≡ true
beside_refl i p = ground arith

pub beside-cons : (i k : ℕ) (p : List ℕ) → beside i p i (k ∷ p) ≡ true
beside-cons i k p = ground arith

has-append :
    (c : ℕ) (xs ys : List ℕ) → has c (xs ++ ys) ≡ false → (has c xs ≡ false) × (has c ys ≡ false)
has-append c [] ys h = (refl, h)
has-append c (x ∷ xs) ys h = ground (arith, has-append c xs ys)

module _ (sb : Superblock) where
  -- At most `n` blocks are in use in `t` and not in `s`.
  abbrev pub TakesAtMost : ℕ → Content → Content → Type 0
  TakesAtMost n s t =
      (l : List ℕ) × (length l ≤ n)
      × ((c : ℕ) → c < sb.size → has c l ≡ false → used sb t.blocks c ≡ used sb s.blocks c)

  -- At most `n` blocks of the device are free.
  abbrev pub NearlyFull : ℕ → Content → Type 0
  NearlyFull n s =
      (l : List ℕ) × (length l ≤ n)
      × ((c : ℕ) → c < sb.size → has c l ≡ false → used sb s.blocks c ≡ true)

  -- From `s`, block `a` is found or made at place `(i, p)`, and the content is then `t`.
  pub record Reached (s : Content) (i : ℕ) (p : List ℕ) (a : ℕ) (t : Content) : Type 0 where
    pub place : IsPlace i p
    pub result : node t i p ≡ a
    pub nonzero : a ≢ 0
    pub tree : IsTree sb t
    pub others :
        (j : ℕ) (q : List ℕ)
        → IsPlace j q
        → beside i p j q ≡ true
        → same_place i p j q ≡ false
        → node t j q ≡ node s j q
    pub content :
        (j : ℕ) (q : List ℕ)
        → IsPlace j q
        → beside i p j q ≡ true
        → node s j q ≢ 0
        → t.blocks (node s j q) ≡ s.blocks (node s j q)
    pub idle : node s i p ≢ 0 → t ≡ s
    pub blank : node s i p ≡ 0 → IsBlank t a

  -- With `n` blocks, at most, taken before the last one.
  abbrev pub Reaches : ℕ → Content → ℕ → List ℕ → Option (ℕ × Content) → Type 0
  Reaches n s i p none = (node s i p ≡ 0) × NearlyFull n s
  Reaches n s i p (some (a, t)) = Reached s i p a t × TakesAtMost (n + 1) s t

  pub stays-Reached :
      (s : Content) (i : ℕ) (p : List ℕ) (a : ℕ)
      → IsTree sb s
      → IsPlace i p
      → node s i p ≡ a
      → a ≢ 0
      → Reached s i p a s
  stays-Reached s i p a tree pl e nz = record {
    place = pl;
    result = e;
    nonzero = nz;
    tree = tree;
    others = λ j q _ _ _. refl;
    content = λ j q _ _ _. refl;
    idle = λ _. refl;
    blank = λ z. absurd (nz (cc (e, z)));
  }

  pub Adds-Reached :
      {s t : Content} {i : ℕ} {p : List ℕ} {b : ℕ}
      → IsTree sb s
      → node s i p ≡ 0
      → Adds sb s t i p b
      → ((j : ℕ) (q : List ℕ)
          → IsPlace j q
          → beside i p j q ≡ true
          → node s j q ≢ 0
          → t.blocks (node s j q) ≡ s.blocks (node s j q))
      → Reached s i p b t
  Adds-Reached {s} {t} {i} {p} {b} tree z ad content = record {
    place = ad.place;
    result = rw (same_place_refl i p) at (ad.nodes i p ad.place);
    nonzero = ad.new.nonzero;
    tree = Adds-IsTree sb tree ad;
    others = λ j q pl _ other. rw other at (ad.nodes j q pl);
    content = content;
    idle = λ nz. absurd (nz z);
    blank = λ _. ad.blank;
  }

  stays-Takes : (n : ℕ) (s : Content) → TakesAtMost n s s
  stays-Takes n s = ([], omega arith, λ c _ _. refl)

  Adds-Takes : {s t : Content} {i : ℕ} {p : List ℕ} {b : ℕ} → Adds sb s t i p b → TakesAtMost 1 s t
  Adds-Takes {b} ad = (b ∷ [], omega arith, λ c lt out. ad.set c lt ∙ ground arith)

  further-Takes :
      (s t u : Content) (n : ℕ) → TakesAtMost n s t → TakesAtMost 1 t u → TakesAtMost (n + 1) s u
  further-Takes s t u n (l, k, f) (l', k', f') = (
    l' ++ l,
    omega (arith, length-append l' l),
    (λ c lt out. let (o', o) = has-append c l' l out in f' c lt o' ∙ f c lt o),
  )

  -- One place further.
  pub further-Reached :
      {s t u : Content} {i k : ℕ} {p : List ℕ} {a b : ℕ}
      → Reached s i p a t
      → Reached t i (k ∷ p) b u
      → Reached s i (k ∷ p) b u
  further-Reached {s} {t} {u} {i} {k} {p} {a} {b} r r' =
      let (on, off) = beside-tail i k p i (k ∷ p) (beside_refl i (k ∷ p)) in
      let same : node t i (k ∷ p) ≡ node s i (k ∷ p) = r.others i (k ∷ p) r'.place on off in
      record {
        place = r'.place;
        result = r'.result;
        nonzero = r'.nonzero;
        tree = r'.tree;
        others = λ j q pl bes other.
            let (on, off) = beside-tail i k p j q bes in
            r'.others j q pl bes other ∙ r.others j q pl on off;
        content = λ j q pl bes nz.
            let (on, off) = beside-tail i k p j q bes in
            let e : node t j q ≡ node s j q = r.others j q pl on off in
            subst (λ c. u.blocks c ≡ t.blocks c) e (r'.content j q pl bes (λ z. nz (cc (e, z))))
            ∙ r.content j q pl on nz;
        idle = λ nz.
            let first : t ≡ s = r.idle (λ z. nz (node_of_zero s i k p z)) in
            r'.idle (λ z. nz (cc (same, z))) ∙ first;
        blank = λ z. r'.blank (cc (same, z));
      }

  module _ (pos : 0 < sb.size) (small : sb.size ≤ 2 ^ 32) where
    new_root-Reaches :
        (s : Content) (i : ℕ) (r : Option (ℕ × Blocks))
        → IsTree sb s
        → i < ndirect + 3
        → s.addrs i ≡ 0
        → r ≡ balloc sb s.blocks
        → Reaches 0 s i [] (new_root sb i r s)
    unfolding new_root node
    new_root-Reaches s i none tree lt z e = (
      z,
      ([], omega arith, λ c lt _. (rw (sym e) at (balloc_lem sb s.blocks pos tree.formatted)) c lt),
    )
    new_root-Reaches s i (some (b, d)) tree lt z e =
        let g = balloc-Grows sb s.blocks d b tree.formatted pos (sym e) in
        let ad = root-Adds sb pos s tree b d g i lt z in
        (
          Adds-Reached tree z ad
              (λ j q pl _ nz. grown_same sb pos s tree b d g (node s j q) (tree.owned j q pl nz)),
          Adds-Takes ad,
        )

    pub root-Reaches :
        (s : Content) (i : ℕ) → IsTree sb s → i < ndirect + 3 → Reaches 0 s i [] (root sb i s)
    unfolding root node
    root-Reaches s i tree lt = elim (Bool-cases (s.addrs i == 0)) [
      | inl z ↦
          rw z (new_root-Reaches s i (balloc sb s.blocks) tree lt (==→eq (s.addrs i) 0 z) refl)
      | inr nz ↦ rw nz (
        stays-Reached s i [] (s.addrs i) tree (lt, omega arith, tt) refl
            (==_false→ne (s.addrs i) 0 nz),
        stays-Takes 1 s,
      )
    ]

    module _ (s : Content) (i k : ℕ) (p : List ℕ) (a : ℕ) (tree : IsTree sb s)
        (place : IsPlace i (k ∷ p)) (at_p : node s i p ≡ a) (nz : a ≢ 0) where
      new_child-Reaches :
          (r : Option (ℕ × Blocks))
          → word (s.blocks a) k ≡ 0
          → r ≡ balloc sb s.blocks
          → Reaches 0 s i (k ∷ p) (new_child sb a k r s)
      unfolding new_child
      new_child-Reaches none z e = (
        node_of_block s i k p a at_p nz ∙ z,
        (
          [],
          omega arith,
          λ c lt _. (rw (sym e) at (balloc_lem sb s.blocks pos tree.formatted)) c lt,
        ),
      )
      new_child-Reaches (some (b, d)) z e =
          let g = balloc-Grows sb s.blocks d b tree.formatted pos (sym e) in
          let ad = child-Adds sb pos s tree b d g i k p a place at_p nz z small in
          (
            Adds-Reached tree (node_of_block s i k p a at_p nz ∙ z) ad (λ j q pl bes nz'.
                let ne : node s j q ≢ a = λ e'.
                  let (e1, e2) =
                    tree.once j q i p pl (IsPlace-tail i k p place) nz' (cc (e', at_p)) in
                  let len : length q ≡ length p = ap length e2 in absurd (ground arith) in
                child_other sb pos s tree b d g i k p a place at_p nz z small (node s j q) ne
                ∙ grown_same sb pos s tree b d g (node s j q) (tree.owned j q pl nz')),
            Adds-Takes ad,
          )

      child_step : Reaches 0 s i (k ∷ p) (child sb a k s)
      unfolding child
      child_step = elim (Bool-cases (word (s.blocks a) k == 0)) [
        | inl z ↦
            rw z (new_child-Reaches (balloc sb s.blocks) (==→eq (word (s.blocks a) k) 0 z) refl)
        | inr nz' ↦ rw nz' (
          stays-Reached s i (k ∷ p) (word (s.blocks a) k) tree place
              (node_of_block s i k p a at_p nz) (==_false→ne (word (s.blocks a) k) 0 nz'),
          stays-Takes 1 s,
        )
      ]

    further-Reaches :
        {s t : Content} {i k : ℕ} {p : List ℕ} {a : ℕ} (n : ℕ) (r : Option (ℕ × Content))
        → Reached s i p a t
        → TakesAtMost (n + 1) s t
        → IsPlace i (k ∷ p)
        → Reaches 0 t i (k ∷ p) r
        → Reaches (n + 1) s i (k ∷ p) r
    further-Reaches {s} {t} {i} {k} {p} n none r (l, m, f) pl (z, (l', m', f')) =
        let (on, off) = beside-tail i k p i (k ∷ p) (beside_refl i (k ∷ p)) in
        let same : node t i (k ∷ p) ≡ node s i (k ∷ p) = r.others i (k ∷ p) pl on off in
        (
          cc (same, z),
          (
            l' ++ l,
            omega (arith, length-append l' l),
            (λ c lt out. let (o', o) = has-append c l' l out in sym (f c lt o) ∙ f' c lt o'),
          ),
        )
    further-Reaches {s} {t} n (some (b, u)) r takes pl (h, takes') =
        (further-Reached r h, further-Takes s t u (n + 1) takes takes')

    pub child-Reaches :
        {s t : Content} {i k : ℕ} {p : List ℕ} {a : ℕ} (n : ℕ)
        → Reached s i p a t
        → TakesAtMost (n + 1) s t
        → IsPlace i (k ∷ p)
        → Reaches (n + 1) s i (k ∷ p) (child sb a k t)
    child-Reaches {s} {t} {i} {k} {p} {a} n r takes pl =
        further-Reaches n (child sb a k t) r takes pl
          (child_step t i k p a r.tree pl r.result r.nonzero)
