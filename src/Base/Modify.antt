-- ===== src/Base/Modify.antt =====
-- A list with a change of one element.
use mathlib.Core.Option
use xv7_mirror.Base.{
  ℕ, zero, suc, ◌≡◌, ◌≢◌, refl, ap, List, [], ◌∷◌, length, get_elem?, some, arith, subst, sym, ◌⊎◌,
  inl, inr,
}

abbrev pub modify {ℓ} : {A : Type ℓ} → List A → ℕ → (A → A) → List A
modify [] i f = []
modify (x ∷ xs) zero f = f x ∷ xs
modify (x ∷ xs) (suc i) f = x ∷ modify xs i f

module _ {ℓ} {A : Type ℓ} (f : A → A) where
  pub get-modify_self :
      (xs : List A) (i : ℕ) → get_elem? (modify xs i f) i ≡ Option.map f (get_elem? xs i)
  get-modify_self [] i = refl
  get-modify_self (x ∷ xs) zero = refl
  get-modify_self (x ∷ xs) (suc i) = get-modify_self xs i

  pub get-modify_ne : (xs : List A) (i j : ℕ) → i ≢ j → get_elem? (modify xs i f) j ≡ get_elem? xs j
  get-modify_ne [] i j h = refl
  get-modify_ne (x ∷ xs) zero zero h = absurd (h refl)
  get-modify_ne (x ∷ xs) zero (suc j) h = refl
  get-modify_ne (x ∷ xs) (suc i) zero h = refl
  get-modify_ne (x ∷ xs) (suc i) (suc j) h = get-modify_ne xs i j (λ e. h (ap suc e))

  pub length-modify : (xs : List A) (i : ℕ) → length (modify xs i f) ≡ length xs
  length-modify [] i = refl
  length-modify (x ∷ xs) zero = refl
  length-modify (x ∷ xs) (suc i) = ap suc (length-modify xs i)

module _ {ℓ} {A : Type ℓ} (f g : A → A) where
  pub modify-modify :
      (xs : List A) (i : ℕ) → modify (modify xs i f) i g ≡ modify xs i (λ x. g (f x))
  modify-modify [] i = refl
  modify-modify (x ∷ xs) zero = refl
  modify-modify (x ∷ xs) (suc i) = ap (λ ys. x ∷ ys) (modify-modify xs i)

  pub modify_comm :
      (xs : List A) (i j : ℕ) → i ≢ j → modify (modify xs i f) j g ≡ modify (modify xs j g) i f
  modify_comm [] i j h = refl
  modify_comm (x ∷ xs) zero zero h = absurd (h refl)
  modify_comm (x ∷ xs) zero (suc j) h = refl
  modify_comm (x ∷ xs) (suc i) zero h = refl
  modify_comm (x ∷ xs) (suc i) (suc j) h =
      ap (λ ys. x ∷ ys) (modify_comm xs i j (λ e. h (ap suc e)))

pub modify_of_eq {ℓ} :
    {A : Type ℓ} (f : A → A) (xs : List A) (i : ℕ) (x : A)
    → get_elem? xs i ≡ some x
    → f x ≡ x
    → modify xs i f ≡ xs
modify_of_eq f [] i x h e = refl
modify_of_eq f (y ∷ ys) zero x h e =
    let same : y ≡ x = ground arith in ap (λ z. z ∷ ys) (subst (λ z. f z ≡ z) (sym same) e)
modify_of_eq f (y ∷ ys) (suc i) x h e = ap (λ zs. y ∷ zs) (modify_of_eq f ys i x h e)

-- Where an element of a changed list comes from.
pub modify-cases {ℓ} :
    {A : Type ℓ} (f : A → A) (xs : List A) (i j : ℕ) (y : A)
    → get_elem? (modify xs i f) j ≡ some y
    → ((j ≡ i) × (x : A) × (get_elem? xs i ≡ some x) × (y ≡ f x))
      ⊎ ((j ≢ i) × (get_elem? xs j ≡ some y))
modify-cases f [] i j y h = absurd (ground arith)
modify-cases f (x ∷ xs) zero zero y h = inl (refl, x, refl, ground arith)
modify-cases f (x ∷ xs) zero (suc j) y h = inr ((λ e. omega arith), h)
modify-cases f (x ∷ xs) (suc i) zero y h = inr ((λ e. omega arith), h)
modify-cases f (x ∷ xs) (suc i) (suc j) y h = elim (modify-cases f xs i j y h) [
  | inl (e, z, ez, ey) ↦ inl (ap suc e, z, ez, ey)
  | inr (ne, ex) ↦ inr ((λ e. ne (omega arith)), ex)
]
