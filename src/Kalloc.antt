-- ===== src/Kalloc.antt =====
-- kernel/kalloc.c: the free list of physical pages, threaded through the pages themselves.
-- `next p` is the first word of the page at `p`, which is where `struct run` keeps its pointer; the
-- other words of a page play no part. The lock is left out: each operation is one critical section.
-- `end`, the first address behind the kernel, is placed by the linker, and is a parameter.
pub mod Chain
pub mod Ownership
pub mod Range
mod Examples
use xv7_mirror.Base.{
  ℕ, zero, suc, ◌+◌, ◌-◌, ◌*◌, ◌/◌, ◌%◌, ◌^◌, Bool, true, false, ◌&&◌, ◌||◌, not, Option, none,
  some, ltb, leb, ◌==◌, if◌then◌else◌,
}

abbrev pub pgsize : ℕ
pgsize = 4096

abbrev pub kernbase : ℕ
kernbase = 0x8000_0000

abbrev pub phystop : ℕ
phystop = 0xe00_0000

-- `V2P`, in `uint`.
abbrev pub v2p : ℕ → ℕ
v2p v = (v + 2 ^ 32 - kernbase) % 2 ^ 32

-- `kmem.freelist`, and the memory that the list runs through.
pub record Kmem : Type 0 where
  pub freelist : ℕ
  pub next : ℕ → ℕ

-- `memset(v, 1, PGSIZE)` leaves this in the first word.
abbrev pub junk : ℕ
junk = 0x0101_0101

unfoldable pub store : ℕ → ℕ → (ℕ → ℕ) → ℕ → ℕ
store p w mem a = if a == p then w else mem a

-- The first free page, or 0.
pub kalloc : Kmem → ℕ × Kmem
kalloc k =
    if k.freelist == 0 then (0, k) else (k.freelist, record k { freelist = k.next k.freelist })

module _ (end : ℕ) where
  -- The test for which `kfree` panics.
  pub bad_page : ℕ → Bool
  bad_page v = not (v % pgsize == 0) || ltb v end || leb phystop (v2p v)

  -- `none` is the panic.
  pub kfree : ℕ → Kmem → Option Kmem
  unfolding bad_page
  kfree v k =
      if bad_page v
      then none
      else some (record { freelist = v; next = store v k.freelist (store v junk k.next) })

  -- The loop of `freerange`, from page `p` on; the fuel runs out with `none`, and a panic gives the
  -- other `none`.
  pub free_loop : ℕ → ℕ → ℕ → Kmem → Option (Option Kmem)
  free_loop zero p vend k = none
  free_loop (suc fuel) p vend k = elim (leb (p + pgsize) vend) [
    | true ↦ elim (kfree p k) [ none ↦ some none | some k' ↦ free_loop fuel (p + pgsize) vend k' ]
    | false ↦ some (some k)
  ]

  -- `freerange`; `PGROUNDUP` rounds up in `uint`.
  pub freerange : ℕ → ℕ → ℕ → Kmem → Option (Option Kmem)
  unfolding free_loop
  freerange fuel vstart vend k =
      free_loop fuel ((vstart + pgsize - 1) % 2 ^ 32 / pgsize * pgsize) vend k
