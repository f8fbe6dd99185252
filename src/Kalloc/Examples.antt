-- ===== src/Kalloc/Examples.antt =====
-- Runs of kernel/kalloc.c with the kernel ending at 0x80100000.
use xv7_mirror.Base.{
  ℕ, ◌≡◌, ◌≢◌, refl, true, false, [], ◌∷◌, arith, none, some, ◌==◌, if◌then◌else◌,
}
use xv7_mirror.Base.Mem.{has, Distinct}
use xv7_mirror.Kalloc.{Kmem, kalloc, kfree, bad_page, freerange}
use xv7_mirror.Kalloc.Chain.{IsFree}
use xv7_mirror.Kalloc.Ownership.{here, next, alloc, ownership}
use xv7_mirror.Kalloc.Range.{pushed, first_page, whole_pages, freerange_lem}

abbrev kernel_end : ℕ
kernel_end = 0x8010_0000

abbrev low_page : ℕ
low_page = 0x8020_0000

abbrev high_page : ℕ
high_page = 0x8020_1000

-- Two free pages, the higher one first.
abbrev two_pages : Kmem
two_pages = record { freelist = high_page; next = λ a. if a == high_page then low_page else 0 }

two_pages-IsFree : IsFree kernel_end two_pages (high_page ∷ low_page ∷ [])
unfolding bad_page
two_pages-IsFree = record {
  chain = (refl, omega arith, (refl, omega arith, refl));
  distinct = (refl, (refl, tt));
  pages = (refl, (refl, tt));
}

ownership_example :
    Distinct ((kalloc two_pages).0 ∷ [])
    × ((kalloc (kalloc two_pages).1).0 ≢ 0
        → has (kalloc (kalloc two_pages).1).0 ((kalloc two_pages).0 ∷ []) ≡ false)
    × ((v : ℕ)
        → has v ((kalloc two_pages).0 ∷ []) ≡ true
        → kfree kernel_end v (kalloc two_pages).1 ≢ none)
ownership_example =
    ownership kernel_end two_pages (high_page ∷ low_page ∷ []) (omega arith) two_pages-IsFree
      (next here (alloc (unfold kalloc in λ e. omega arith)))

abbrev no_pages : Kmem
no_pages = record { freelist = 0; next = λ a. 0 }

freerange_lem_example :
    (m : Kmem) × (freerange kernel_end 5 0x8020_0001 0x8020_4000 no_pages ≡ some (some m))
    × IsFree kernel_end m (pushed (whole_pages 0x8020_0001 0x8020_4000) (first_page 0x8020_0001) [])
freerange_lem_example =
    freerange_lem kernel_end 5 0x8020_0001 0x8020_4000 no_pages (omega arith)
      (record { chain = refl; distinct = tt; pages = tt })
      (record { from = omega arith; high = omega arith; upto = omega arith }) (omega arith)
      (omega arith)
