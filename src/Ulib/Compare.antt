-- ===== src/Ulib/Compare.antt =====
-- The comparisons of the user library against those of the kernel.
use xv7_mirror.Base.{
  ℕ, zero, suc, ◌+◌, ◌≡◌, ◌<◌, refl, Bool, true, false, ◌&&◌, not, Option, none, some, List, [],
  ◌∷◌, arith, ltb, ◌==◌, if◌then◌else◌, Bool-cases, inl, inr, length,
}
use xv7_mirror.Str
use xv7_mirror.Str.{Mem}
use xv7_mirror.Str.Cstring.{Str, agrees}
use xv7_mirror.Ulib.{strcmp, strncmp, memcmp}

-- What is returned for two bytes that differ, 0 without any.
abbrev pub is_less : Option (ℕ × ℕ) → ℕ
is_less none = 0
is_less (some (x, y)) = if ltb x y then 1 else 0

-- `memcmp` of the user library returns 1 if the kernel's `memcmp` stops at two bytes of which the
-- first is less, and 0 both if it stops at two of which the first is greater and if the objects
-- agree.
pub memcmp_lem : (p q n : ℕ) (m : Mem) → memcmp p q n m ≡ is_less (Str.memcmp p q n m)
unfolding memcmp Str.memcmp
memcmp_lem p q zero m = refl
memcmp_lem p q (suc n) m = elim (Bool-cases (m p == m q)) [
  | inl h ↦ rw h (memcmp_lem (p + 1) (q + 1) n m)
  | inr h ↦ rw h
]

-- `strncmp` of the user library returns 0 exactly if the kernel's does.
pub strncmp-kernel : (p q n : ℕ) (m : Mem) → agrees (strncmp p q n m) ≡ agrees (Str.strncmp p q n m)
unfolding strncmp Str.strncmp
strncmp-kernel p q zero m = refl
strncmp-kernel p q (suc n) m = elim (Bool-cases (m p == m q)) [
  | inl h ↦ elim (Bool-cases (m p == 0)) [
    | inl z ↦ rw (h, z) (rw h refl)
    | inr z ↦ rw (h, z) (strncmp-kernel (p + 1) (q + 1) n m)
  ]
  | inr h ↦ elim (Bool-cases (m p == 0)) [ inl z ↦ rw (h, z) | inr z ↦ rw (h, z) (rw h refl) ]
]

-- The two strings are the same.
pub equal : List ℕ → List ℕ → Bool
equal [] [] = true
equal [] (y ∷ ys) = false
equal (x ∷ xs) [] = false
equal (x ∷ xs) (y ∷ ys) = (x == y) && equal xs ys

-- `strcmp` of two strings, given more rounds than the first has bytes, ends, and returns 0 exactly if
-- they are the same.
pub strcmp_lem :
    (fuel p q : ℕ) (m : Mem) (xs ys : List ℕ)
    → Str m p xs
    → Str m q ys
    → length xs < fuel
    → (x : ℕ) × (y : ℕ) × (strcmp fuel p q m ≡ some (x, y)) × ((x == y) ≡ equal xs ys)
unfolding strcmp equal
strcmp_lem zero p q m xs ys h k l = absurd (omega arith)
strcmp_lem (suc fuel) p q m [] ys h k l =
    let stop : (not (m p == 0) && (m p == m q)) ≡ false = ground arith in
    (m p, m q, rw (stop, strcmp), ended ys k)
  where
    ended : (ys : List ℕ) → Str m q ys → (m p == m q) ≡ equal [] ys
    ended [] k = ground arith
    ended (y ∷ ys) (e, nz, k) = ground arith
strcmp_lem (suc fuel) p q m (x ∷ xs) [] (e, nz, h) k l =
    let stop : (not (m p == 0) && (m p == m q)) ≡ false = ground arith in
    (m p, m q, rw (stop, strcmp), ground arith)
strcmp_lem (suc fuel) p q m (x ∷ xs) (y ∷ ys) (e, nz, h) (e', nz', k) l =
    elim (Bool-cases (x == y)) [
      | inl s ↦
          let go : (not (m p == 0) && (m p == m q)) ≡ true = ground arith in
          let (a, b, runs, agree) = strcmp_lem fuel (p + 1) (q + 1) m xs ys h k (omega arith) in
          (a, b, rw (go, strcmp) runs, rw s agree)
      | inr s ↦
          let stop : (not (m p == 0) && (m p == m q)) ≡ false = ground arith in
          (m p, m q, rw (stop, strcmp), rw s (ground arith))
    ]
