-- ===== src/File/Refs.antt =====
-- The reference counts of the file table: each is the number of references that are held.
use mathlib.Core.Option
use xv7_mirror.Base.Modify.{modify, get-modify_self, get-modify_ne}
use xv7_mirror.Base.Mem.{count, erase, count-erase}
use xv7_mirror.Base.{
  ℕ, zero, suc, ◌+◌, ◌-◌, ◌≡◌, ◌≢◌, ◌<◌, refl, ap, sym, ◌∙◌, true, false, Option, none, some, List,
  [], ◌∷◌, arith, ltb, ◌==◌, if◌then◌else◌, get_elem?, Bool-cases, inl, inr, ◌⊎◌, subst, ==→eq,
  ==_false→ne,
}
use xv7_mirror.File.{
  File, fd_none, Ftable, filealloc, filedup, dup_at, fileclose, close_at, kept, gone, last_of,
}

-- `hs` is the list of the references: a file that is held twice stands in it twice.
pub record Counted (t : Ftable) (hs : List ℕ) : Type 0 where
  pub refs : (i : ℕ) (f : File) → get_elem? t i ≡ some f → f.ref ≡ count i hs
  pub inside : (i : ℕ) → 0 < count i hs → (f : File) × (get_elem? t i ≡ some f)
  pub free : (i : ℕ) (f : File) → get_elem? t i ≡ some f → f.ref ≡ 0 → f.type ≡ fd_none

-- A change of one file, with the references that are held behind it.
pub Counted-modify :
    (t : Ftable) (hs hs' : List ℕ) (i : ℕ) (f : File) (g : File → File)
    → Counted t hs
    → get_elem? t i ≡ some f
    → ((j : ℕ) → j ≢ i → count j hs' ≡ count j hs)
    → (g f).ref ≡ count i hs'
    → ((g f).ref ≡ 0 → (g f).type ≡ fd_none)
    → Counted (modify t i g) hs'
Counted-modify t hs hs' i f g c e others here shut = record {
  refs = λ j x ex. elim (spot j x ex) [
    | inl (same, fx) ↦
        subst (λ (y : File). y.ref ≡ count j hs') fx (here ∙ ap (λ k. count k hs') (sym same))
    | inr (apart, old) ↦ c.refs j x old ∙ sym (others j apart)
  ];
  inside = λ j h. elim (Bool-cases (i == j)) [
    | inl s ↦
        let same : i ≡ j = ==→eq i j s in
        (g f, subst (λ k. get_elem? (modify t i g) k ≡ some (g f)) same now)
    | inr s ↦
        let ne : i ≢ j = ==_false→ne i j s in
        let (x, ex) = c.inside j (subst (λ k. 0 < k) (others j (λ k. ne (sym k))) h) in
        (x, get-modify_ne g t i j ne ∙ ex)
  ];
  free = λ j x ex z. elim (spot j x ex) [
    | inl (same, fx) ↦
        subst (λ (y : File). y.type ≡ fd_none) fx
          (shut (subst (λ (y : File). y.ref ≡ 0) (sym fx) z))
    | inr (apart, old) ↦ c.free j x old z
  ];
}
  where
    now : get_elem? (modify t i g) i ≡ some (g f)
    now = get-modify_self g t i ∙ ap (Option.map g) e

    spot :
        (j : ℕ) (x : File)
        → get_elem? (modify t i g) j ≡ some x
        → ((j ≡ i) × (g f ≡ x)) ⊎ ((j ≢ i) × (get_elem? t j ≡ some x))
    spot j x ex = elim (Bool-cases (i == j)) [
      | inl s ↦
          let same : i ≡ j = ==→eq i j s in
          let at_i : get_elem? (modify t i g) i ≡ some x =
            subst (λ k. get_elem? (modify t i g) k ≡ some x) (sym same) ex in
          inl (sym same, cc (now, at_i))
      | inr s ↦
          let ne : i ≢ j = ==_false→ne i j s in
          inr ((λ k. ne (sym k)), sym (get-modify_ne g t i j ne) ∙ ex)
    ]

-- `filealloc` takes a file that nobody holds, or finds that all are held.
unfoldable pub AllocSpec : Ftable → Ftable → Option ℕ → Type 0
AllocSpec t u none = (u ≡ t) × ((i : ℕ) (f : File) → get_elem? t i ≡ some f → f.ref ≢ 0)
AllocSpec t u (some i) =
    (f : File) × (get_elem? t i ≡ some f)
    × (f.ref ≡ 0)
    × (u ≡ modify t i (λ g. record g { ref = 1 }))

AllocSpec-cons :
    (f : File) (t u : Ftable) (o : Option ℕ)
    → f.ref ≢ 0
    → AllocSpec t u o
    → AllocSpec (f ∷ t) (f ∷ u) (elim o [ none ↦ none | some i ↦ some (suc i) ])
unfolding AllocSpec
AllocSpec-cons f t u none ne (e, h) = (ap (λ x. f ∷ x) e, held)
  where
    held : (i : ℕ) (x : File) → get_elem? (f ∷ t) i ≡ some x → x.ref ≢ 0
    held zero x ex z =
        let same : f ≡ x = ground arith in ne (subst (λ (y : File). y.ref ≡ 0) (sym same) z)
    held (suc i) x ex z = h i x ex z
AllocSpec-cons f t u (some i) ne (g, e, z, same) = (g, e, z, ap (λ x. f ∷ x) same)

pub filealloc-AllocSpec : (t : Ftable) → AllocSpec t (filealloc t).1 (filealloc t).0
unfolding filealloc
filealloc-AllocSpec [] = unfold AllocSpec in (refl, λ i f e. absurd (ground arith))
filealloc-AllocSpec (f ∷ fs) = elim (Bool-cases (f.ref == 0)) [
  | inl h ↦ rw h (unfold AllocSpec in (f, refl, ground arith, refl))
  | inr h ↦ rw h (
      AllocSpec-cons f fs (filealloc fs).1 (filealloc fs).0 (ground arith) (filealloc-AllocSpec fs))
]

count-cons_self : (i : ℕ) (hs : List ℕ) → count i (i ∷ hs) ≡ suc (count i hs)
count-cons_self i hs = ground arith

count-cons_ne : (i j : ℕ) (hs : List ℕ) → j ≢ i → count j (i ∷ hs) ≡ count j hs
count-cons_ne i j hs h = ground arith

count-erase_ne : (i j : ℕ) (hs : List ℕ) → j ≢ i → count j (erase i hs) ≡ count j hs
count-erase_ne i j hs h = ground (arith, count-erase i j hs)

pub opens-Counted :
    {t : Ftable} {hs : List ℕ} {i : ℕ} {u : Ftable}
    → Counted t hs
    → filealloc t ≡ (some i, u)
    → Counted u (i ∷ hs)
opens-Counted {t} {hs} {i} {u} c e =
    let spec : AllocSpec t u (some i) =
      subst (λ (r : Option ℕ × Ftable). AllocSpec t r.1 r.0) e (filealloc-AllocSpec t) in
    let (f, at_i, z, same) : (f : File) × (get_elem? t i ≡ some f)
        × (f.ref ≡ 0)
        × (u ≡ modify t i (λ g. record g { ref = 1 })) =
      (unfold AllocSpec in spec) in
    subst (λ x. Counted x (i ∷ hs)) (sym same)
      (Counted-modify t hs (i ∷ hs) i f (λ g. record g { ref = 1 }) c at_i
        (λ j ne. count-cons_ne i j hs ne) (omega (arith, c.refs i f at_i, count-cons_self i hs))
        (λ h. absurd (omega arith)))

-- The copy of a held reference.
pub filedup-held :
    {t : Ftable} {hs : List ℕ} (i : ℕ)
    → Counted t hs
    → 0 < count i hs
    → (u : Ftable) × (filedup i t ≡ some u) × Counted u (i ∷ hs)
unfolding filedup dup_at
filedup-held {t} {hs} i c h =
    let (f, e) = c.inside i h in
    let n = c.refs i f e in
    let some_ref : ltb f.ref 1 ≡ false = ground arith in
    (
      modify t i (λ g. record g { ref = g.ref + 1 }),
      rw (e, dup_at, some_ref) refl,
      Counted-modify t hs (i ∷ hs) i f (λ g. record g { ref = g.ref + 1 }) c e
          (λ j ne. count-cons_ne i j hs ne) (omega (arith, n, count-cons_self i hs))
          (λ z. absurd (omega arith)),
    )

-- The close of a held reference: what is closed behind it if it is the last.
pub fileclose-held :
    {t : Ftable} {hs : List ℕ} (i : ℕ)
    → Counted t hs
    → 0 < count i hs
    → (u : Ftable) × (f : File) × (get_elem? t i ≡ some f)
      × (fileclose i t ≡ (if count i hs == 1 then gone (last_of f) u else kept u))
      × Counted u (erase i hs)
unfolding fileclose close_at
fileclose-held {t} {hs} i c h =
    let (f, e) = c.inside i h in
    let n = c.refs i f e in
    let some_ref : ltb f.ref 1 ≡ false = ground arith in
    let less = count-erase i i hs in
    elim (Bool-cases (count i hs == 1)) [
      | inl one ↦
          let last : ltb 0 (f.ref - 1) ≡ false = ground arith in
          (
            modify t i (λ g. record g { ref = 0; type = fd_none }),
            f,
            e,
            rw (e, close_at, some_ref, last, one) refl,
            Counted-modify t hs (erase i hs) i f (λ g. record g { ref = 0; type = fd_none }) c e
                (λ j ne. count-erase_ne i j hs ne) (ground (arith, less)) (λ z. refl),
          )
      | inr more ↦
          let left : ltb 0 (f.ref - 1) ≡ true = ground arith in
          (
            modify t i (λ g. record g { ref = g.ref - 1 }),
            f,
            e,
            rw (e, close_at, some_ref, left, more) refl,
            Counted-modify t hs (erase i hs) i f (λ g. record g { ref = g.ref - 1 }) c e
                (λ j ne. count-erase_ne i j hs ne) (ground (arith, less, n))
                (λ z. absurd (ground arith)),
          )
    ]
