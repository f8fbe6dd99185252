-- ===== src/Proc/Slots.antt =====
-- Slots of the table under a change of one of them.
use xv7_mirror.Base.{ℕ, zero, suc, ◌≡◌, ◌≢◌, refl, ap, [], ◌∷◌, length, get_elem?}
use mathlib.Core.Option
use xv7_mirror.Proc.{Proc, Table, adjust}

module _ (f : Proc → Proc) where
  pub get-adjust_self :
      (t : Table) (i : ℕ) → get_elem? (adjust t i f) i ≡ Option.map f (get_elem? t i)
  get-adjust_self [] i = refl
  get-adjust_self (p ∷ ps) zero = refl
  get-adjust_self (p ∷ ps) (suc i) = get-adjust_self ps i

  pub get-adjust_ne : (t : Table) (i j : ℕ) → i ≢ j → get_elem? (adjust t i f) j ≡ get_elem? t j
  get-adjust_ne [] i j h = refl
  get-adjust_ne (p ∷ ps) zero zero h = absurd (h refl)
  get-adjust_ne (p ∷ ps) zero (suc j) h = refl
  get-adjust_ne (p ∷ ps) (suc i) zero h = refl
  get-adjust_ne (p ∷ ps) (suc i) (suc j) h = get-adjust_ne ps i j (λ e. h (ap suc e))

  pub length-adjust : (t : Table) (i : ℕ) → length (adjust t i f) ≡ length t
  length-adjust [] i = refl
  length-adjust (p ∷ ps) zero = refl
  length-adjust (p ∷ ps) (suc i) = ap suc (length-adjust ps i)
