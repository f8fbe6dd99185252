-- ===== src/Inode/Find.antt =====
-- The search of `iget`.
use xv7_mirror.Base.Mem.{All}
use xv7_mirror.Base.{
  ℕ, suc, ◌+◌, ◌≡◌, ◌<◌, refl, Bool, true, false, Option, none, some, [], ◌∷◌, arith, ◌==◌,
  if◌then◌else◌, get_elem?, Bool-cases, inl, inr,
}
use xv7_mirror.Inode.{Inode, Icache, active, Search, hit, miss, remember, search}

-- What was remembered before is an entry outside of the rest of the table; what is remembered behind
-- it is that, or the first free entry of the rest.
unfoldable pub FreeSpec : ℕ → Option ℕ → Icache → Option ℕ → Type 0
FreeSpec i (some e) t o = o ≡ some e
FreeSpec i none t none = All (λ ip. 0 < ip.ref) t
FreeSpec i none t (some k) =
    (j : ℕ) × (k ≡ i + j) × (ip : Inode) × (get_elem? t j ≡ some ip) × (ip.ref ≡ 0)

unfoldable pub SearchSpec : (dev inum i : ℕ) → Option ℕ → Icache → Search → Type 0
SearchSpec dev inum i empty t (hit k) =
    (j : ℕ) × (k ≡ i + j) × (ip : Inode) × (get_elem? t j ≡ some ip) × (active dev inum ip ≡ true)
SearchSpec dev inum i empty t (miss o) =
    All (λ ip. active dev inum ip ≡ false) t × FreeSpec i empty t o

FreeSpec-first :
    (i : ℕ) (ip : Inode) (t : Icache) (o : Option ℕ) (b : Bool)
    → (ip.ref == 0) ≡ b
    → FreeSpec (i + 1) (if b then some i else none) t o
    → FreeSpec i none (ip ∷ t) o
unfolding FreeSpec
FreeSpec-first i ip t none true h s = absurd (cc)
FreeSpec-first i ip t none false h s = (ground arith, s)
FreeSpec-first i ip t (some k) true h s =
    (0, (let same : k ≡ i = ground arith in omega arith), ip, refl, ground arith)
FreeSpec-first i ip t (some k) false h (j, e, x, ex, zx) = (suc j, omega arith, x, ex, zx)

FreeSpec-cons :
    (i : ℕ) (empty : Option ℕ) (ip : Inode) (t : Icache) (o : Option ℕ)
    → FreeSpec (i + 1) (remember i ip empty) t o
    → FreeSpec i empty (ip ∷ t) o
unfolding FreeSpec
FreeSpec-cons i (some e) ip t o s = s
FreeSpec-cons i none ip t o s = FreeSpec-first i ip t o (ip.ref == 0) refl s

SearchSpec-cons :
    (dev inum i : ℕ) (empty : Option ℕ) (ip : Inode) (t : Icache) (r : Search)
    → active dev inum ip ≡ false
    → SearchSpec dev inum (i + 1) (remember i ip empty) t r
    → SearchSpec dev inum i empty (ip ∷ t) r
unfolding SearchSpec
SearchSpec-cons dev inum i empty ip t (hit k) a (j, e, x, ex, ax) = (suc j, omega arith, x, ex, ax)
SearchSpec-cons dev inum i empty ip t (miss o) a (as', f) =
    ((a, as'), FreeSpec-cons i empty ip t o f)

pub search-SearchSpec :
    (dev inum i : ℕ) (empty : Option ℕ) (t : Icache)
    → SearchSpec dev inum i empty t (search dev inum i empty t)
unfolding search
search-SearchSpec dev inum i none [] = unfold SearchSpec FreeSpec in (tt, tt)
search-SearchSpec dev inum i (some e) [] = unfold SearchSpec FreeSpec in (tt, refl)
search-SearchSpec dev inum i empty (ip ∷ ips) = elim (Bool-cases (active dev inum ip)) [
  | inl a ↦ rw a (unfold SearchSpec in (0, omega arith, ip, refl, a))
  | inr a ↦ rw a (
      SearchSpec-cons dev inum i empty ip ips (search dev inum (i + 1) (remember i ip empty) ips) a
        (search-SearchSpec dev inum (i + 1) (remember i ip empty) ips))
]
