-- ===== src/Ulib/Copy.antt =====
-- `strcpy` of the user library.
use xv7_mirror.Base.{
  ℕ, zero, suc, ◌+◌, ◌≡◌, ◌≢◌, ◌<◌, ◌∙◌, ◌⊎◌, true, false, some, List, [], ◌∷◌, arith, ◌==◌, length,
}
use xv7_mirror.Str.{Mem, store}
use xv7_mirror.Str.Cstring.{Str}
use xv7_mirror.Ulib.{strcpy}

store_ne : (p v a : ℕ) (m : Mem) → a ≢ p → store p v m a ≡ m a
unfolding store
store_ne p v a m h = ground arith

store_self : (p v : ℕ) (m : Mem) → store p v m p ≡ v
unfolding store
store_self p v m = ground arith

-- A store outside of a string.
Str-store :
    (m : Mem) (p v t : ℕ) (cs : List ℕ)
    → Str m t cs
    → (p < t) ⊎ (t + length cs < p)
    → Str (store p v m) t cs
Str-store m p v t [] h out = store_ne p v t m (omega arith) ∙ h
Str-store m p v t (c ∷ cs) (e, nz, h) out =
    (store_ne p v t m (omega arith) ∙ e, nz, Str-store m p v (t + 1) cs h (omega arith))

-- `strcpy` of a string into memory that does not touch it, given more rounds than the string has
-- bytes, ends with the same string in the target, and has changed no byte outside of it.
pub strcpy_lem :
    (fuel s t : ℕ) (m : Mem) (cs : List ℕ)
    → Str m t cs
    → length cs < fuel
    → (s + length cs < t) ⊎ (t + length cs < s)
    → (m' : Mem) × (strcpy fuel s t m ≡ some m')
      × Str m' s cs
      × ((a : ℕ) → (a < s) ⊎ (s + length cs < a) → m' a ≡ m a)
unfolding strcpy
strcpy_lem zero s t m cs h l apart = absurd (omega arith)
strcpy_lem (suc fuel) s t m [] h l apart =
    let stop : (m t == 0) ≡ true = ground arith in
    (
      store s (m t) m,
      rw (stop, strcpy),
      store_self s (m t) m ∙ h,
      λ a out. store_ne s (m t) a m (omega arith),
    )
strcpy_lem (suc fuel) s t m (c ∷ cs) (e, nz, h) l apart =
    let go : (m t == 0) ≡ false = ground arith in
    let (m', runs, copied, same) =
      strcpy_lem fuel (s + 1) (t + 1) (store s (m t) m) cs
        (Str-store m s (m t) (t + 1) cs h (omega arith)) (omega arith) (omega arith) in
    (
      m',
      rw (go, strcpy) runs,
      (same s (omega arith) ∙ store_self s (m t) m ∙ e, nz, copied),
      λ a out. same a (omega arith) ∙ store_ne s (m t) a m (omega arith),
    )
