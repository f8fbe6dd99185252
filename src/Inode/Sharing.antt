-- ===== src/Inode/Sharing.antt =====
-- The inode cache under whatever its users do.
use xv7_mirror.Base.Modify.{modify}
use xv7_mirror.Base.{
  ℕ, zero, suc, ◌≡◌, ◌<◌, refl, ap, ◌∙◌, true, false, Option, none, some, arith, get_elem?,
  Bool-cases, inl, inr, subst, replicate,
}
use xv7_mirror.Inode.{Inode, Icache, active, add_ref, iget, idup, unlinked, put_ref, iput_at, iput}
use xv7_mirror.Inode.Once.{Unique, Unique-modify, All-at, IgetSpec, iget-IgetSpec, iget-Unique}

-- An entry is looked up; one who refers to an entry copies the reference, gives it up, or changes the
-- inode in it (as `ilock` does that reads it).
pub data Step (t : Icache) : Icache → Type 0 where
  gets : (dev inum i : ℕ) {u : Icache} → iget dev inum t ≡ some (i, u) → Step t u
  dups : (i : ℕ) (e : Inode) → get_elem? t i ≡ some e → 0 < e.ref → Step t (idup i t)
  puts : (i : ℕ) (e : Inode) → get_elem? t i ≡ some e → 0 < e.ref → Step t (iput i t).1
  changes :
      (i : ℕ) (g : Inode → Inode)
      → ((e : Inode) → ((g e).ref ≡ e.ref) × ((g e).dev ≡ e.dev) × ((g e).inum ≡ e.inum))
      → Step t (modify t i g)

pub data Reach (t : Icache) : Icache → Type 0 where
  here : Reach t t
  next : {u v : Icache} → Reach t u → Step u v → Reach t v

put_ref-fields :
    (e : Inode)
    → (0 < (put_ref e).ref → 0 < e.ref) × ((put_ref e).dev ≡ e.dev) × ((put_ref e).inum ≡ e.inum)
put_ref-fields e = elim (Bool-cases (unlinked e)) [
  | inl h ↦ simp h ((λ k. omega arith), refl, refl)
  | inr h ↦ simp h ((λ k. omega arith), refl, refl)
]

Step-Unique : {t u : Icache} → Step t u → Unique t → Unique u
unfolding idup iput iput_at
Step-Unique {t} (gets dev inum i {u} e) un =
    iget-Unique dev inum t i u (subst (IgetSpec dev inum t) e (iget-IgetSpec dev inum t)) un
Step-Unique {t} (dups i e at_i r) un =
    Unique-modify add_ref t i
      (λ x ex. (
        (λ h. let one : e ≡ x = cc (at_i, ex) in subst (λ (w : Inode). 0 < w.ref) one r),
        refl,
        refl,
      ))
      un
Step-Unique {t} (puts i e at_i r) un =
    rw at_i (Unique-modify put_ref t i (λ x ex. put_ref-fields x) un)
Step-Unique {t} (changes i g keeps) un =
    Unique-modify g t i (λ x ex. let (r, d, n) = keeps x in ((λ h. omega arith), d, n)) un

Reach-Unique : {t u : Icache} → Reach t u → Unique t → Unique u
Reach-Unique here un = un
Reach-Unique (next r st) un = Step-Unique st (Reach-Unique r un)

get-replicate : (n i : ℕ) (e f : Inode) → get_elem? (replicate n e) i ≡ some f → e ≡ f
get-replicate zero i e f h = absurd (ground arith)
get-replicate (suc n) zero e f h = ground arith
get-replicate (suc n) (suc i) e f h = get-replicate n i e f h

empty-Unique : (n : ℕ) (e : Inode) → e.ref ≡ 0 → Unique (replicate n e)
empty-Unique n e z i j x y ex ey rx ry d m =
    let none_held : x.ref ≡ 0 = subst (λ (w : Inode). w.ref ≡ 0) (get-replicate n i e x ex) z in
    absurd (omega arith)

-- The spec of `iget`, at an inode that has an entry.
shared :
    (dev inum : ℕ) (t : Icache) (i : ℕ) (ip : Inode) (r : Option (ℕ × Icache))
    → Unique t
    → get_elem? t i ≡ some ip
    → active dev inum ip ≡ true
    → IgetSpec dev inum t r
    → r ≡ some (i, modify t i add_ref)
unfolding IgetSpec
shared dev inum t i ip none un e a (bare, full) =
    absurd (cc (a, All-at (λ x. active dev inum x ≡ false) t i ip e bare))
shared dev inum t i ip (some (k, u)) un e a (x, ex, inr (z, bare, same)) =
    absurd (cc (a, All-at (λ x. active dev inum x ≡ false) t i ip e bare))
shared dev inum t i ip (some (k, u)) un e a (x, ex, inl (ax, same)) =
    let one : k ≡ i =
      un k i x ip ex e (ground arith) (ground arith) (ground arith) (ground arith) in
    ap (λ w. some (k, w)) same ∙ ap (λ w. some (w, modify t w add_ref)) one

-- From a table of free entries on, whatever inodes are looked up, and whatever references are copied
-- and given up by those who hold them: no inode has two entries that are referred to, and `iget` of
-- an inode with such an entry returns that entry, with one more reference, and changes nothing else.
pub inodes_shared :
    (n : ℕ) (e : Inode) {t : Icache}
    → e.ref ≡ 0
    → Reach (replicate n e) t
    → Unique t
      × ((dev inum i : ℕ) (ip : Inode)
          → get_elem? t i ≡ some ip
          → active dev inum ip ≡ true
          → iget dev inum t ≡ some (i, modify t i add_ref))
inodes_shared n e {t} z r =
    let un = Reach-Unique r (empty-Unique n e z) in
    (
      un,
      λ dev inum i ip at_i a.
          shared dev inum t i ip (iget dev inum t) un at_i a (iget-IgetSpec dev inum t),
    )
