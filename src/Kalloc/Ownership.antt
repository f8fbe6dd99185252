-- ===== src/Kalloc/Ownership.antt =====
-- Pages in the hands of the kernel's other parts: none is handed out twice.
use xv7_mirror.Base.{
  ℕ, ◌≡◌, ◌≢◌, ◌<◌, ap, true, false, List, [], ◌∷◌, arith, ◌==◌, if◌then◌else◌, none, some,
  Bool-cases, subst, inl, inr,
}
use xv7_mirror.Base.Mem.{erase, has, Distinct, All, All-has}
use xv7_mirror.Kalloc.{Kmem, kalloc, kfree, bad_page}
use xv7_mirror.Kalloc.Chain.{IsFree, kalloc-nil, kalloc-cons, kfree-cons}

-- The allocator, and the pages that were allocated and not freed since.
pub record Machine : Type 0 where
  pub kmem : Kmem
  pub owned : List ℕ

module _ (end : ℕ) where
  -- A successful `kalloc`, or the `kfree` of a page by its owner.
  pub data Step (m : Machine) : Machine → Type 0 where
    alloc :
        (kalloc m.kmem).0 ≢ 0
        → Step m (record { kmem = (kalloc m.kmem).1; owned = (kalloc m.kmem).0 ∷ m.owned })
    give_back :
        (v : ℕ) {k : Kmem}
        → has v m.owned ≡ true
        → kfree end v m.kmem ≡ some k
        → Step m (record { kmem = k; owned = erase v m.owned })

  pub data Reach (m : Machine) : Machine → Type 0 where
    here : Reach m m
    next : {n o : Machine} → Reach m n → Step n o → Reach m o

  pub record Holds (m : Machine) (left : List ℕ) : Type 0 where
    pub list : IsFree end m.kmem left
    pub once : Distinct m.owned
    pub apart : (v : ℕ) → has v m.owned ≡ true → has v left ≡ false
    pub pages : All (λ v. bad_page end v ≡ false) m.owned

has-erase :
    (v a : ℕ) (xs : List ℕ)
    → Distinct xs
    → has a (erase v xs) ≡ (if v == a then false else has a xs)
has-erase v a [] d = ground arith
has-erase v a (x ∷ xs) (out, d) = ground (arith, has-erase v a xs d)

Distinct-erase : (v : ℕ) (xs : List ℕ) → Distinct xs → Distinct (erase v xs)
Distinct-erase v [] d = tt
Distinct-erase v (x ∷ xs) (out, d) = elim (Bool-cases (x == v)) [
  | inl e ↦ rw e d
  | inr e ↦ rw e (ground (arith, has-erase v x xs d), Distinct-erase v xs d)
]

All-erase {ℓ} : (P : ℕ → Type ℓ) (v : ℕ) (xs : List ℕ) → All P xs → All P (erase v xs)
All-erase P v [] h = tt
All-erase P v (x ∷ xs) (h, hs) = elim (Bool-cases (x == v)) [
  | inl e ↦ rw e hs
  | inr e ↦ rw e (h, All-erase P v xs hs)
]

module _ (end : ℕ) (pos : 0 < end) where
  Step-alloc :
      (m : Machine) (left : List ℕ)
      → Holds end m left
      → (kalloc m.kmem).0 ≢ 0
      → (rest : List ℕ) × Holds end
          (record { kmem = (kalloc m.kmem).1; owned = (kalloc m.kmem).0 ∷ m.owned })
          rest
  Step-alloc m [] h got = absurd (got (ap (λ (r : ℕ × Kmem). r.0) (kalloc-nil h.list)))
  Step-alloc m (p ∷ ps) h got =
      let (same, nz, list) = kalloc-cons h.list in
      (
        ps,
        rw same (record {
          list = list;
          once = (ground (arith, h.apart p), h.once);
          apart = λ v e. ground (arith, h.list.distinct.0, h.apart v);
          pages = (h.list.pages.0, h.pages);
        }),
      )

  Step-Holds :
      {m n : Machine} (left : List ℕ)
      → Step end m n
      → Holds end m left
      → (rest : List ℕ) × Holds end n rest
  Step-Holds {m} left (alloc got) h = Step-alloc m left h got
  Step-Holds {m} ps (give_back v {k} own e) h =
      let (k', e', list) =
        kfree-cons v pos h.list (h.apart v own)
          (All-has (λ v. bad_page end v ≡ false) v m.owned h.pages own) in
      let same : k' ≡ k = cc (e, e') in
      (
        v ∷ ps,
        record {
          list = subst (λ q. IsFree end q (v ∷ ps)) same list;
          once = Distinct-erase v m.owned h.once;
          apart = λ a own'. ground (arith, has-erase v a m.owned h.once, h.apart a);
          pages = All-erase (λ v. bad_page end v ≡ false) v m.owned h.pages;
        },
      )

  Reach-Holds :
      {m n : Machine} (left : List ℕ)
      → Reach end m n
      → Holds end m left
      → (rest : List ℕ) × Holds end n rest
  Reach-Holds left here h = (left, h)
  Reach-Holds left (next r st) h = let (mid, h') = Reach-Holds left r h in Step-Holds mid st h'

-- From a free list of distinct good pages, whatever pages are allocated and given back by their
-- owners in whatever order: no page is owned twice, a page that is allocated next is owned by nobody,
-- and `kfree` does not panic on a page that is owned.
pub ownership :
    (end : ℕ) (k : Kmem) (left : List ℕ) {m : Machine}
    → 0 < end
    → IsFree end k left
    → Reach end (record { kmem = k; owned = [] }) m
    → Distinct m.owned
      × ((kalloc m.kmem).0 ≢ 0 → has (kalloc m.kmem).0 m.owned ≡ false)
      × ((v : ℕ) → has v m.owned ≡ true → kfree end v m.kmem ≢ none)
ownership end k left {m} pos f r =
    let (rest, h) =
      Reach-Holds end pos left r (record { list = f; once = tt; apart = λ v e. cc; pages = tt }) in
    (
      h.once,
      (λ got. (Step-alloc end pos m rest h got).1.once.0),
      λ v own e.
          let (k', e', list) =
            kfree-cons v pos h.list (h.apart v own)
              (All-has (λ v. bad_page end v ≡ false) v m.owned h.pages own) in
          cc (e, e'),
    )
