-- ===== src/Kalloc/Chain.antt =====
-- The free list as the list of its pages.
use xv7_mirror.Base.{
  ℕ, ◌≡◌, ◌≢◌, ◌<◌, refl, sym, true, false, List, [], ◌∷◌, arith, ◌==◌, subst, lt→ltb, some,
}
use xv7_mirror.Base.Mem.{has, Distinct, All}
use xv7_mirror.Kalloc.{Kmem, kalloc, kfree, bad_page, store, junk}

-- From `p` the pointers lead through the pages `ps` to the end of the list.
abbrev pub Chain : (ℕ → ℕ) → ℕ → List ℕ → Type 0
Chain next p [] = p ≡ 0
Chain next p (q ∷ qs) = (p ≡ q) × (q ≢ 0) × Chain next (next q) qs

pub Chain-store :
    (next : ℕ → ℕ) (v w p : ℕ) (ps : List ℕ)
    → has v ps ≡ false
    → Chain next p ps
    → Chain (store v w next) p ps
unfolding store
Chain-store next v w p [] out c = c
Chain-store next v w p (q ∷ qs) out (e, nz, c) =
    let apart : (q == v) ≡ false = ground arith in
    let rest : has v qs ≡ false = ground arith in
    (e, nz, rw apart (Chain-store next v w (next q) qs rest c))

-- The allocator's state: the list holds the pages `free`, none twice, and each could be freed.
pub record IsFree (end : ℕ) (k : Kmem) (free : List ℕ) : Type 0 where
  pub chain : Chain k.next k.freelist free
  pub distinct : Distinct free
  pub pages : All (λ v. bad_page end v ≡ false) free

pub kalloc-nil : {end : ℕ} {k : Kmem} → IsFree end k [] → kalloc k ≡ (0, k)
unfolding kalloc
kalloc-nil {k} f = let e : (k.freelist == 0) ≡ true = ground (arith, f.chain) in rw e

pub kalloc-cons :
    {end : ℕ} {k : Kmem} {p : ℕ} {ps : List ℕ}
    → IsFree end k (p ∷ ps)
    → ((kalloc k).0 ≡ p) × (p ≢ 0) × IsFree end (kalloc k).1 ps
unfolding kalloc
kalloc-cons {k} {p} {ps} f =
    let (same, nz, c) = f.chain in
    let e : (k.freelist == 0) ≡ false = ground arith in
    rw e (
      same,
      nz,
      record {
        chain = subst (λ q. Chain k.next (k.next q) ps) (sym same) c;
        distinct = f.distinct.1;
        pages = f.pages.1;
      },
    )

bad_page-zero : (end : ℕ) → 0 < end → bad_page end 0 ≡ true
unfolding bad_page
bad_page-zero end pos = rw (lt→ltb 0 end pos)

pub kfree-cons :
    {end : ℕ} (v : ℕ) {k : Kmem} {free : List ℕ}
    → 0 < end
    → IsFree end k free
    → has v free ≡ false
    → bad_page end v ≡ false
    → (m : Kmem) × (kfree end v k ≡ some m) × IsFree end m (v ∷ free)
unfolding kfree
kfree-cons {end} v {k} {free} pos f out good = (
  m,
  rw good,
  record {
    chain = (
      refl,
      nonzero,
      subst (λ w. Chain m.next w free) (sym stored)
          (Chain-store (store v junk k.next) v k.freelist k.freelist free out
            (Chain-store k.next v junk k.freelist free out f.chain)),
    );
    distinct = (out, f.distinct);
    pages = (good, f.pages);
  },
)
  where
    m : Kmem
    m = record { freelist = v; next = store v k.freelist (store v junk k.next) }

    stored : m.next v ≡ k.freelist
    stored = unfold store in ground arith

    nonzero : v ≢ 0
    nonzero e = cc (bad_page-zero end pos, good, e)
