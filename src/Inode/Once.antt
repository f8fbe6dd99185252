-- ===== src/Inode/Once.antt =====
-- The inode cache keeps one entry for each inode that is referred to.
use xv7_mirror.Base.Modify.{modify, modify-cases}
use xv7_mirror.Base.Mem.{All}
use xv7_mirror.Base.{
  ℕ, zero, suc, ◌≡◌, ◌<◌, refl, ap, sym, ◌∙◌, true, false, Option, none, some, [], ◌∷◌, arith,
  get_elem?, inl, inr, subst, ◌⊎◌,
}
use xv7_mirror.Inode.{
  Inode, Icache, active, Search, hit, miss, search, add_ref, recycle, iget_found, iget,
}
use xv7_mirror.Inode.Find.{FreeSpec, SearchSpec, search-SearchSpec}

-- No inode has two entries with a reference.
abbrev pub Unique : Icache → Type 0
Unique t =
    (i j : ℕ) (e f : Inode)
    → get_elem? t i ≡ some e
    → get_elem? t j ≡ some f
    → 0 < e.ref
    → 0 < f.ref
    → e.dev ≡ f.dev
    → e.inum ≡ f.inum
    → i ≡ j

pub All-at {ℓ} :
    (P : Inode → Type ℓ) (t : Icache) (i : ℕ) (e : Inode) → get_elem? t i ≡ some e → All P t → P e
All-at P [] i e h a = absurd (ground arith)
All-at P (x ∷ xs) zero e h (a, as') = subst P (ground arith) a
All-at P (x ∷ xs) (suc i) e h (a, as') = All-at P xs i e h as'

-- A change that makes no entry referred to.
pub Unique-modify :
    (f : Inode → Inode) (t : Icache) (i : ℕ)
    → ((e : Inode)
        → get_elem? t i ≡ some e
        → (0 < (f e).ref → 0 < e.ref) × ((f e).dev ≡ e.dev) × ((f e).inum ≡ e.inum))
    → Unique t
    → Unique (modify t i f)
Unique-modify f t i keeps u j k x y ex ey rx ry sd sn =
    let (x', ex', px', dx, nx) = old j x ex rx in
    let (y', ey', py', dy, ny) = old k y ey ry in
    u j k x' y' ex' ey' px' py' (sym dx ∙ sd ∙ dy) (sym nx ∙ sn ∙ ny)
  where
    old :
        (j : ℕ) (x : Inode)
        → get_elem? (modify t i f) j ≡ some x
        → 0 < x.ref
        → (e : Inode) × (get_elem? t j ≡ some e) × (0 < e.ref) × (x.dev ≡ e.dev) × (x.inum ≡ e.inum)
    old j x ex r = elim (modify-cases f t i j x ex) [
      | inl (same, e, ee, xe) ↦
          let (alive, dd, nn) = keeps e ee in
          let r' : 0 < (f e).ref = subst (λ (w : Inode). 0 < w.ref) xe r in
          (
            e,
            subst (λ w. get_elem? t w ≡ some e) (sym same) ee,
            alive r',
            ap (λ (w : Inode). w.dev) xe ∙ dd,
            ap (λ (w : Inode). w.inum) xe ∙ nn,
          )
      | inr (ne, ee) ↦ (x, ee, r, refl, refl)
    ]

-- An entry is given to an inode that has none.
Unique-recycle :
    (dev inum : ℕ) (t : Icache) (i : ℕ)
    → All (λ ip. active dev inum ip ≡ false) t
    → Unique t
    → Unique (modify t i (recycle dev inum))
Unique-recycle dev inum t i none_has u j k x y ex ey rx ry sd sn =
    elim (modify-cases (recycle dev inum) t i j x ex) [
      | inl (same, e, ee, xe) ↦ elim (modify-cases (recycle dev inum) t i k y ey) [
        | inl (same', e', ee', ye) ↦ same ∙ sym same'
        | inr (ne', ee') ↦
            let no = All-at (λ ip. active dev inum ip ≡ false) t k y ee' none_has in
            let d : x.dev ≡ dev = ap (λ (w : Inode). w.dev) xe in
            let n : x.inum ≡ inum = ap (λ (w : Inode). w.inum) xe in absurd (ground arith)
      ]
      | inr (ne, ee) ↦ elim (modify-cases (recycle dev inum) t i k y ey) [
        | inl (same', e', ee', ye) ↦
            let no = All-at (λ ip. active dev inum ip ≡ false) t j x ee none_has in
            let d : y.dev ≡ dev = ap (λ (w : Inode). w.dev) ye in
            let n : y.inum ≡ inum = ap (λ (w : Inode). w.inum) ye in absurd (ground arith)
        | inr (ne', ee') ↦ u j k x y ee ee' rx ry sd sn
      ]
    ]

-- What `iget` must do: it finds the entry, or takes a free one, or stops if there is neither.
unfoldable pub IgetSpec : (dev inum : ℕ) → Icache → Option (ℕ × Icache) → Type 0
IgetSpec dev inum t none = All (λ ip. active dev inum ip ≡ false) t × All (λ ip. 0 < ip.ref) t
IgetSpec dev inum t (some (i, u)) =
    (ip : Inode) × (get_elem? t i ≡ some ip)
    × (((active dev inum ip ≡ true) × (u ≡ modify t i add_ref))
        ⊎ ((ip.ref ≡ 0)
            × All (λ x. active dev inum x ≡ false) t
            × (u ≡ modify t i (recycle dev inum))))

iget_found-IgetSpec :
    (dev inum : ℕ) (t : Icache) (r : Search)
    → SearchSpec dev inum 0 none t r
    → IgetSpec dev inum t (iget_found dev inum t r)
unfolding iget_found IgetSpec SearchSpec FreeSpec
iget_found-IgetSpec dev inum t (hit i) (j, e, ip, ej, a) =
    let same : i ≡ j = omega arith in
    (ip, subst (λ k. get_elem? t k ≡ some ip) (sym same) ej, inl (a, refl))
iget_found-IgetSpec dev inum t (miss none) (a, f) = (a, f)
iget_found-IgetSpec dev inum t (miss (some i)) (a, (j, e, ip, ej, z)) =
    let same : i ≡ j = omega arith in
    (ip, subst (λ k. get_elem? t k ≡ some ip) (sym same) ej, inr (z, a, refl))

pub iget-IgetSpec : (dev inum : ℕ) (t : Icache) → IgetSpec dev inum t (iget dev inum t)
unfolding iget
iget-IgetSpec dev inum t =
    iget_found-IgetSpec dev inum t (search dev inum 0 none t) (search-SearchSpec dev inum 0 none t)

pub iget-Unique :
    (dev inum : ℕ) (t : Icache) (i : ℕ) (u : Icache)
    → IgetSpec dev inum t (some (i, u))
    → Unique t
    → Unique u
unfolding IgetSpec
iget-Unique dev inum t i u (ip, e, inl (a, same)) un = subst Unique (sym same) (
    Unique-modify add_ref t i
      (λ x ex. (
        (λ h. let one : ip ≡ x = cc (e, ex) in subst (λ (w : Inode). 0 < w.ref) one (ground arith)),
        refl,
        refl,
      ))
      un)
iget-Unique dev inum t i u (ip, e, inr (z, a, same)) un =
    subst Unique (sym same) (Unique-recycle dev inum t i a un)
