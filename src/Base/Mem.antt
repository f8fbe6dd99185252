-- ===== src/Base/Mem.antt =====
-- Membership tests and predicates over whole lists of numbers, by recursion.
use xv7_mirror.Base.{
  ℕ, suc, ◌-◌, arith, ◌≡◌, refl, subst, Bool, true, false, ◌||◌, List, [], ◌∷◌, ◌++◌, ◌==◌,
  if◌then◌else◌, Bool-cases, ==→eq, inl, inr,
}

abbrev pub has : ℕ → List ℕ → Bool
has a [] = false
has a (x ∷ xs) = if x == a then true else has a xs

abbrev pub All {ℓ κ} : {A : Type ℓ} → (A → Type κ) → List A → Type κ
All P [] = Unit
All P (x ∷ xs) = P x × All P xs

-- No element stands twice.
abbrev pub Distinct : List ℕ → Type 0
Distinct [] = Unit
Distinct (x ∷ xs) = (has x xs ≡ false) × Distinct xs

-- How often an element stands in a list, and the list less its first occurrence.
abbrev pub count : ℕ → List ℕ → ℕ
count a [] = 0
count a (x ∷ xs) = if x == a then suc (count a xs) else count a xs

abbrev pub erase : ℕ → List ℕ → List ℕ
erase v [] = []
erase v (x ∷ xs) = if x == v then xs else x ∷ erase v xs

pub count-erase :
    (v a : ℕ) (xs : List ℕ) → count a (erase v xs) ≡ (if v == a then count a xs - 1 else count a xs)
count-erase v a [] = ground arith
count-erase v a (x ∷ xs) = ground (arith, count-erase v a xs)

pub All-has {ℓ} : (P : ℕ → Type ℓ) (v : ℕ) (xs : List ℕ) → All P xs → has v xs ≡ true → P v
All-has P v [] h e = absurd (cc)
All-has P v (x ∷ xs) (h, hs) e = elim (Bool-cases (x == v)) [
  | inl same ↦ subst P (==→eq x v same) h
  | inr other ↦ All-has P v xs hs (ground arith)
]

-- A predicate that holds of every member, whichever list it is proved over.
pub All-of-has {ℓ} : (P : ℕ → Type ℓ) (xs : List ℕ) → ((v : ℕ) → has v xs ≡ true → P v) → All P xs
All-of-has P [] h = tt
All-of-has P (x ∷ xs) h = (h x (ground arith), All-of-has P xs (λ v e. h v (ground arith)))

pub has-append : (v : ℕ) (xs ys : List ℕ) → has v (xs ++ ys) ≡ (has v xs || has v ys)
has-append v [] ys = refl
has-append v (x ∷ xs) ys = ground (arith, has-append v xs ys)

pub All-append {ℓ} : (P : ℕ → Type ℓ) (xs ys : List ℕ) → All P (xs ++ ys) → All P xs × All P ys
All-append P [] ys h = (tt, h)
All-append P (x ∷ xs) ys (h, hs) = let (a, b) = All-append P xs ys hs in ((h, a), b)

pub Distinct-append :
    (xs ys : List ℕ)
    → Distinct (xs ++ ys)
    → Distinct xs × Distinct ys × ((v : ℕ) → has v xs ≡ true → has v ys ≡ false)
Distinct-append [] ys d = (tt, d, λ v e. absurd (cc))
Distinct-append (x ∷ xs) ys (out, d) =
    let (dx, dy, apart) = Distinct-append xs ys d in
    (
      (ground (arith, has-append x xs ys), dx),
      dy,
      λ v e. elim (Bool-cases (x == v)) [
        | inl same ↦
            subst (λ w. has w ys ≡ false) (==→eq x v same) (ground (arith, has-append x xs ys))
        | inr other ↦ apart v (ground arith)
      ],
    )
