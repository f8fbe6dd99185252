-- ===== src/File/Holders.antt =====
-- The file table under whatever its users do.
use xv7_mirror.Base.Modify.{modify}
use xv7_mirror.Base.Mem.{count, erase}
use xv7_mirror.Base.{
  ℕ, zero, suc, ◌≡◌, ◌≢◌, ◌<◌, refl, ap, ◌∙◌, Bool, true, false, none, some, List, [], ◌∷◌, arith,
  ◌==◌, if◌then◌else◌, get_elem?, replicate, subst,
}
use xv7_mirror.File.{
  File, fd_none, Ftable, filealloc, filedup, fileclose, panics, kept, gone, Last, last_of,
  closed_table,
}
use xv7_mirror.File.Refs.{Counted, Counted-modify, opens-Counted, filedup-held, fileclose-held}

-- What happens to the table: a file is taken, a reference is copied or given up by one who holds it,
-- the holder of a file sets it up.
pub data Step (t : Ftable) (hs : List ℕ) : Ftable → List ℕ → Type 0 where
  opens : (i : ℕ) {u : Ftable} → filealloc t ≡ (some i, u) → Step t hs u (i ∷ hs)
  copies : (i : ℕ) {u : Ftable} → 0 < count i hs → filedup i t ≡ some u → Step t hs u (i ∷ hs)
  drops :
      (i : ℕ) {u : Ftable}
      → 0 < count i hs
      → closed_table (fileclose i t) ≡ some u
      → Step t hs u (erase i hs)
  sets_up :
      (i : ℕ) (g : File → File)
      → 0 < count i hs
      → ((f : File) → (g f).ref ≡ f.ref)
      → Step t hs (modify t i g) hs

pub data Reach (t : Ftable) (hs : List ℕ) : Ftable → List ℕ → Type 0 where
  here : Reach t hs t hs
  next : {u v : Ftable} {is js : List ℕ} → Reach t hs u is → Step u is v js → Reach t hs v js

closed_table-if :
    (b : Bool) (l : Last) (u : Ftable) → closed_table (if b then gone l u else kept u) ≡ some u
closed_table-if true l u = refl
closed_table-if false l u = refl

ne-panics : (b : Bool) (l : Last) (u : Ftable) → (if b then gone l u else kept u) ≢ panics
ne-panics true l u e = cc e
ne-panics false l u e = cc e

Step-Counted : {t u : Ftable} {hs is : List ℕ} → Step t hs u is → Counted t hs → Counted u is
Step-Counted (opens i e) c = opens-Counted c e
Step-Counted {hs} (copies i {u} h e) c =
    let (v, ev, cv) = filedup-held i c h in
    let same : v ≡ u = cc (e, ev) in subst (λ x. Counted x (i ∷ hs)) same cv
Step-Counted {hs} (drops i {u} h e) c =
    let (v, f, ef, ev, cv) = fileclose-held i c h in
    let left : closed_table (fileclose i _) ≡ some v =
      ap closed_table ev ∙ closed_table-if (count i hs == 1) (last_of f) v in
    let same : v ≡ u = cc (e, left) in subst (λ x. Counted x (erase i hs)) same cv
Step-Counted {t} {hs} (sets_up i g h keeps) c =
    let (f, e) = c.inside i h in
    Counted-modify t hs hs i f g c e (λ j ne. refl) (keeps f ∙ c.refs i f e)
      (λ z. absurd (omega (arith, keeps f, c.refs i f e)))

Reach-Counted :
    {t : Ftable} {hs : List ℕ} {u : Ftable} {is : List ℕ}
    → Reach t hs u is
    → Counted t hs
    → Counted u is
Reach-Counted here c = c
Reach-Counted (next r st) c = Step-Counted st (Reach-Counted r c)

get-replicate : (n i : ℕ) (f g : File) → get_elem? (replicate n f) i ≡ some g → f ≡ g
get-replicate zero i f g e = absurd (ground arith)
get-replicate (suc n) zero f g e = ground arith
get-replicate (suc n) (suc i) f g e = get-replicate n i f g e

empty-Counted : (n : ℕ) (f : File) → f.ref ≡ 0 → f.type ≡ fd_none → Counted (replicate n f) []
empty-Counted n f z shut = record {
  refs = λ i g e. subst (λ (x : File). x.ref ≡ 0) (get-replicate n i f g e) z;
  inside = λ i h. absurd (omega arith);
  free = λ i g e h. subst (λ (x : File). x.type ≡ fd_none) (get-replicate n i f g e) shut;
}

-- From a table of free files on, whatever files are taken, set up, copied and given up by those who
-- hold them: the count of each file is the number of references held, and a file of count 0 has type
-- FD_NONE; a held file is never refused by `filedup`, and `fileclose` of it ends in the close of what
-- is behind it exactly if this reference is the last.
pub refs_held :
    (n : ℕ) (f : File) {t : Ftable} {hs : List ℕ}
    → f.ref ≡ 0
    → f.type ≡ fd_none
    → Reach (replicate n f) [] t hs
    → ((i : ℕ) (g : File)
        → get_elem? t i ≡ some g
        → (g.ref ≡ count i hs) × (g.ref ≡ 0 → g.type ≡ fd_none))
      × ((i : ℕ) → 0 < count i hs → filedup i t ≢ none)
      × ((i : ℕ)
          → 0 < count i hs
          → (u : Ftable) × (g : File) × (get_elem? t i ≡ some g)
            × (fileclose i t ≡ (if count i hs == 1 then gone (last_of g) u else kept u)))
refs_held n f z shut r =
    let c = Reach-Counted r (empty-Counted n f z shut) in
    (
      (λ i g e. (c.refs i g e, c.free i g e)),
      (λ i h e. let (u, eu, cu) = filedup-held i c h in cc (e, eu)),
      λ i h. let (u, g, e, ends, cu) = fileclose-held i c h in (u, g, e, ends),
    )
