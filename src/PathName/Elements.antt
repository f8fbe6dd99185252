-- ===== src/PathName/Elements.antt =====
-- `skipelem` takes off the first of the elements that slashes separate.
use xv7_mirror.Base.Mem.{All}
use xv7_mirror.Base.{
  ℕ, zero, suc, ◌+◌, ◌≡◌, ◌≢◌, ◌≤◌, ◌<◌, refl, ap, sym, ◌∙◌, false, Option, none, some, List, [],
  ◌∷◌, ◌++◌, arith, leb, ◌==◌, if◌then◌else◌, length, take, drop, Bool-cases, inl, inr,
}
use xv7_mirror.PathName.{
  dirsiz, slash, skip_slashes, element, store_name, skip_from, skipelem, until_nul, name_of,
}

-- An element that is not empty, in front of others.
abbrev pub push : List ℕ → List (List ℕ) → List (List ℕ)
push [] es = es
push (c ∷ cs) es = (c ∷ cs) ∷ es

-- The characters up to the first slash, and the elements behind it.
abbrev pub parts : List ℕ → List ℕ × List (List ℕ)
parts [] = ([], [])
parts (c ∷ cs) = let (e, es) = parts cs in if c == slash then ([], push e es) else (c ∷ e, es)

-- The elements of a path: what stands between slashes and is not empty.
abbrev pub elements : List ℕ → List (List ℕ)
elements path = push (parts path).0 (parts path).1

pub elements-skip_slashes : (path : List ℕ) → elements (skip_slashes path) ≡ elements path
unfolding skip_slashes
elements-skip_slashes [] = refl
elements-skip_slashes (c ∷ cs) = elim (Bool-cases (c == slash)) [
  | inl h ↦ rw h (elements-skip_slashes cs)
  | inr h ↦ rw h (rw h refl)
]

parts-element :
    (path : List ℕ)
    → ((parts path).0 ≡ (element path).0) × ((parts path).1 ≡ elements (element path).1)
unfolding element
parts-element [] = (refl, refl)
parts-element (c ∷ cs) = elim (Bool-cases (c == slash)) [
  | inl h ↦ rw h (refl, rw h)
  | inr h ↦ rw h (ap (λ e. c ∷ e) (parts-element cs).0, (parts-element cs).1)
]

length-skip_slashes : (path : List ℕ) → length (skip_slashes path) ≤ length path
unfolding skip_slashes
length-skip_slashes [] = omega arith
length-skip_slashes (c ∷ cs) = ground (arith, length-skip_slashes cs)

length-element : (path : List ℕ) → length (element path).1 ≤ length path
unfolding element
length-element [] = omega arith
length-element (c ∷ cs) = ground (arith, length-element cs)

-- Nothing, or a path that does not begin with a slash.
abbrev Starts : List ℕ → Type 0
Starts [] = Unit
Starts (c ∷ cs) = (c == slash) ≡ false

skip_slashes-Starts : (path : List ℕ) → Starts (skip_slashes path)
unfolding skip_slashes
skip_slashes-Starts [] = tt
skip_slashes-Starts (c ∷ cs) = elim (Bool-cases (c == slash)) [
  | inl h ↦ rw h (skip_slashes-Starts cs)
  | inr h ↦ rw h h
]

-- What `skipelem` returns says of the path.
unfoldable pub SkipSpec : List ℕ → List ℕ → Option (List ℕ × List ℕ) → Type 0
SkipSpec path name none = elements path ≡ []
SkipSpec path name (some (rest, name')) =
    (e : List ℕ) × (elements path ≡ e ∷ elements rest)
    × (name' ≡ store_name e name)
    × (length rest < length path)

skip_from-SkipSpec : (path name : List ℕ) → Starts path → SkipSpec path name (skip_from path name)
unfolding skip_from SkipSpec element
skip_from-SkipSpec [] name s = refl
skip_from-SkipSpec (c ∷ cs) name s =
    let (front, behind) = parts-element cs in
    (
      c ∷ (element cs).0,
      rw s (
          ap (λ x. (c ∷ x) ∷ (parts cs).1) front
          ∙ ap (λ x. (c ∷ (element cs).0) ∷ x)
              (behind ∙ sym (elements-skip_slashes (element cs).1))),
      rw s,
      rw s (omega (arith, length-skip_slashes (element cs).1, length-element cs)),
    )

pub skipelem-SkipSpec : (path name : List ℕ) → SkipSpec path name (skipelem path name)
unfolding skipelem
skipelem-SkipSpec path name =
    SkipSpec-skip_slashes path name (skip_from (skip_slashes path) name)
      (skip_from-SkipSpec (skip_slashes path) name (skip_slashes-Starts path))
  where
    SkipSpec-skip_slashes :
        (path name : List ℕ) (r : Option (List ℕ × List ℕ))
        → SkipSpec (skip_slashes path) name r
        → SkipSpec path name r
    SkipSpec-skip_slashes path name none h =
        unfold SkipSpec in (sym (elements-skip_slashes path) ∙ h)
    SkipSpec-skip_slashes path name (some (rest, name')) h =
        unfold SkipSpec in
        let (e, parts', stored, less) = h in
        (
          e,
          sym (elements-skip_slashes path) ∙ parts',
          stored,
          omega (arith, less, length-skip_slashes path),
        )

-- No character is NUL.
abbrev pub NoNul : List ℕ → Type 0
NoNul cs = All (λ c. c ≢ 0) cs

until_nul-append :
    (n : ℕ) (e more : List ℕ) → NoNul e → length e < n → until_nul (take n (e ++ (0 ∷ more))) ≡ e
until_nul-append zero e more h l = absurd (omega arith)
until_nul-append (suc n) [] more h l = refl
until_nul-append (suc n) (c ∷ cs) more (nz, h) l =
    let go : (c == 0) ≡ false = ground arith in
    rw go (ap (λ x. c ∷ x) (until_nul-append n cs more h (omega arith)))

until_nul-take :
    (n : ℕ) (e more : List ℕ)
    → NoNul e
    → n ≤ length e
    → until_nul (take n (take n e ++ more)) ≡ take n e
until_nul-take zero e more h l = refl
until_nul-take (suc n) [] more h l = absurd (omega arith)
until_nul-take (suc n) (c ∷ cs) more (nz, h) l =
    let go : (c == 0) ≡ false = ground arith in
    rw go (ap (λ x. c ∷ x) (until_nul-take n cs more h (omega arith)))

take-all : (n : ℕ) (e : List ℕ) → length e ≤ n → take n e ≡ e
take-all zero [] h = refl
take-all zero (c ∷ cs) h = absurd (omega arith)
take-all (suc n) [] h = refl
take-all (suc n) (c ∷ cs) h = ap (λ x. c ∷ x) (take-all n cs (omega arith))

-- The array holds the element, cut off at DIRSIZ characters.
pub name_of-store_name : (e name : List ℕ) → NoNul e → name_of (store_name e name) ≡ take dirsiz e
unfolding store_name
name_of-store_name e name h = elim (Bool-cases (leb dirsiz (length e))) [
  | inl long ↦ rw long (until_nul-take dirsiz e (drop dirsiz name) h (ground arith))
  | inr fits ↦ rw fits (
      until_nul-append dirsiz e (drop (length e + 1) name) h (ground arith)
      ∙ sym (take-all dirsiz e (ground arith)))
]

push-NoNul : (e : List ℕ) (es : List (List ℕ)) → NoNul e → All NoNul es → All NoNul (push e es)
push-NoNul [] es h hs = hs
push-NoNul (c ∷ cs) es h hs = (h, hs)

parts-NoNul : (path : List ℕ) → NoNul path → NoNul (parts path).0 × All NoNul (parts path).1
parts-NoNul [] h = (tt, tt)
parts-NoNul (c ∷ cs) (nz, h) =
    let (one, more) = parts-NoNul cs h in
    elim (Bool-cases (c == slash)) [
      | inl s ↦ rw s (tt, push-NoNul (parts cs).0 (parts cs).1 one more)
      | inr s ↦ rw s ((nz, one), more)
    ]

pub elements-NoNul : (path : List ℕ) → NoNul path → All NoNul (elements path)
elements-NoNul path h =
    let (one, more) = parts-NoNul path h in push-NoNul (parts path).0 (parts path).1 one more
