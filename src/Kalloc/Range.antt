-- ===== src/Kalloc/Range.antt =====
-- `freerange`: which pages the allocator starts with.
use xv7_mirror.Base.{
  ℕ, zero, suc, ◌+◌, ◌-◌, ◌*◌, ◌/◌, ◌%◌, ◌^◌, ◌≡◌, ◌≤◌, ◌<◌, refl, true, false, List, [], ◌∷◌,
  arith, ltb, leb, ◌==◌, some,
}
use xv7_mirror.Base.Mem.{has, All}
use xv7_mirror.Kalloc.{Kmem, bad_page, v2p, pgsize, kernbase, phystop, free_loop, freerange}
use xv7_mirror.Kalloc.Chain.{IsFree, kfree-cons}

-- The list on which the `n` pages from `p` on were pushed, lowest first.
pub pushed : ℕ → ℕ → List ℕ → List ℕ
pushed zero p ps = ps
pushed (suc n) p ps = pushed n (p + pgsize) (p ∷ ps)

-- Every page of a list stands below `p`.
abbrev Below : ℕ → List ℕ → Type 0
Below p ps = All (λ q. q < p) ps

has-Below : (p : ℕ) (ps : List ℕ) → Below p ps → has p ps ≡ false
has-Below p [] h = refl
has-Below p (q ∷ qs) (h, hs) = ground (arith, has-Below p qs hs)

Below-mono : (p q : ℕ) (ps : List ℕ) → p ≤ q → Below p ps → Below q ps
Below-mono p q [] le h = tt
Below-mono p q (r ∷ rs) le (h, hs) = (omega arith, Below-mono p q rs le hs)

-- The memory from the first address behind the kernel to PHYSTOP, as the kernel sees it.
pub record InRam (end p top : ℕ) : Type 0 where
  pub from : end ≤ p
  pub high : kernbase ≤ p
  pub upto : top ≤ kernbase + phystop

good_page :
    (end p top : ℕ) → InRam end p top → p % pgsize ≡ 0 → p + pgsize ≤ top → bad_page end p ≡ false
unfolding bad_page
good_page end p top r e h = rw (aligned, above, below)
  where
    aligned : (p % pgsize == 0) ≡ true
    aligned = ground arith

    above : ltb p end ≡ false
    above = ground (arith, r.from)

    below : leb phystop (v2p p) ≡ false
    below = ground (arith, r.high, r.upto)

free_loop-pushed :
    (end n fuel p top : ℕ) {k : Kmem} {ps : List ℕ}
    → 0 < end
    → n < fuel
    → InRam end p top
    → p % pgsize ≡ 0
    → p + n * pgsize ≤ top
    → top < p + n * pgsize + pgsize
    → IsFree end k ps
    → Below p ps
    → (m : Kmem) × (free_loop end fuel p top k ≡ some (some m)) × IsFree end m (pushed n p ps)
unfolding free_loop pushed
free_loop-pushed end n zero p top pos f r e lo hi free b = absurd (omega arith)
free_loop-pushed end zero (suc fuel) p top {k} pos f r e lo hi free b =
    let stop : leb (p + pgsize) top ≡ false = ground arith in (k, rw (stop, free_loop), free)
free_loop-pushed end (suc n) (suc fuel) p top {ps} pos f r e lo hi free b =
    let go : leb (p + pgsize) top ≡ true = ground arith in
    let (k', kept, free') =
      kfree-cons p pos free (has-Below p ps b) (good_page end p top r e (omega arith)) in
    let (m, runs, done) =
      free_loop-pushed end n fuel (p + pgsize) top {k = k'} {ps = p ∷ ps} pos (omega arith)
        (record { from = omega (arith, r.from); high = omega (arith, r.high); upto = r.upto })
        (omega arith) (omega arith) (omega arith) free'
        (omega arith, Below-mono p (p + pgsize) ps (omega arith) b) in
    (m, rw (go, kept, free_loop) runs, done)

-- The pages that lie whole between `vstart` and `vend`.
abbrev pub first_page : ℕ → ℕ
first_page vstart = (vstart + pgsize - 1) / pgsize * pgsize

abbrev pub whole_pages : ℕ → ℕ → ℕ
whole_pages vstart vend = (vend - first_page vstart) / pgsize

-- On an empty free list, and with addresses of the kernel's memory, `freerange` ends without a panic
-- if its fuel is more than the number of pages, and the free list then holds exactly the pages that
-- lie whole in the range, the last one first.
pub freerange_lem :
    (end fuel vstart vend : ℕ) (k : Kmem)
    → 0 < end
    → IsFree end k []
    → InRam end vstart vend
    → first_page vstart ≤ vend
    → whole_pages vstart vend < fuel
    → (m : Kmem) × (freerange end fuel vstart vend k ≡ some (some m))
      × IsFree end m (pushed (whole_pages vstart vend) (first_page vstart) [])
unfolding freerange
freerange_lem end fuel vstart vend k pos free r le f =
    let round : (vstart + pgsize - 1) % 2 ^ 32 / pgsize * pgsize ≡ first_page vstart =
      omega (arith, r.upto) in
    rw round (
      free_loop-pushed end (whole_pages vstart vend) fuel (first_page vstart) vend pos f
        (record { from = omega (arith, r.from); high = omega (arith, r.high); upto = r.upto })
        (omega arith) (omega arith) (omega arith) free tt)
