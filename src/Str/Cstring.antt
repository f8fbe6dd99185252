-- ===== src/Str/Cstring.antt =====
-- Strings that end with a NUL: `strlen`, `strncmp`, `strncpy`, `safestrcpy`.
use xv7_mirror.Base.{
  ℕ, zero, suc, ◌+◌, ◌≤◌, ◌<◌, ◌≡◌, ◌≢◌, refl, ap, ◌∙◌, inl, inr, Bool, true, false, not, ◌&&◌,
  Option, none, some, List, [], ◌∷◌, arith, ◌==◌, Bool-cases, length, take,
}
use xv7_mirror.Base.Mem.{has}
use xv7_mirror.Str.{Mem, strlen_loop, strlen, strncmp, safestrcpy, zero_first}

-- From `s` on the memory holds the bytes `cs`, none of them NUL, and a NUL.
abbrev pub Str : Mem → ℕ → List ℕ → Type 0
Str m s [] = m s ≡ 0
Str m s (c ∷ cs) = (m s ≡ c) × (c ≢ 0) × Str m (s + 1) cs

strlen_loop-Str :
    (fuel s i : ℕ) (m : Mem) (cs : List ℕ)
    → Str m (s + i) cs
    → length cs < fuel
    → strlen_loop fuel s i m ≡ some (i + length cs)
unfolding strlen_loop
strlen_loop-Str zero s i m cs h f = absurd (omega arith)
strlen_loop-Str (suc fuel) s i m [] h f =
    let stop : (m (s + i) == 0) ≡ true = ground arith in rw stop (ap some (omega arith))
strlen_loop-Str (suc fuel) s i m (c ∷ cs) (e, nz, h) f =
    let go : (m (s + i) == 0) ≡ false = ground arith in
    let at : s + i + 1 ≡ s + (i + 1) = omega arith in
    rw go (strlen_loop-Str fuel s (i + 1) m cs (rw (← at) h) (omega arith) ∙ ap some (omega arith))

-- `strlen` of a string, given more rounds than it has bytes, returns the number of its bytes.
pub strlen_lem :
    (fuel s : ℕ) (m : Mem) (cs : List ℕ)
    → Str m s cs
    → length cs < fuel
    → strlen fuel s m ≡ some (length cs)
unfolding strlen
strlen_lem fuel s m cs h f =
    let e : s + 0 ≡ s = omega arith in
    strlen_loop-Str fuel s 0 m cs (rw e h) f ∙ ap some (omega arith)

-- The two strings agree on their first `n` bytes, or are the same.
pub same_upto : ℕ → List ℕ → List ℕ → Bool
same_upto zero xs ys = true
same_upto (suc n) [] [] = true
same_upto (suc n) [] (y ∷ ys) = false
same_upto (suc n) (x ∷ xs) [] = false
same_upto (suc n) (x ∷ xs) (y ∷ ys) = (x == y) && same_upto n xs ys

-- The difference of the two bytes, 0 without any.
abbrev pub agrees : Option (ℕ × ℕ) → Bool
agrees none = true
agrees (some (x, y)) = x == y

-- `strncmp` of two strings returns 0 exactly if they agree on their first `n` bytes, the ends of the
-- strings included.
pub strncmp_lem :
    (n p q : ℕ) (m : Mem) (xs ys : List ℕ)
    → Str m p xs
    → Str m q ys
    → agrees (strncmp p q n m) ≡ same_upto n xs ys
unfolding strncmp same_upto
strncmp_lem zero p q m xs ys h k = refl
strncmp_lem (suc n) p q m [] [] h k =
    let stop : (not (m p == 0) && (m p == m q)) ≡ false = ground arith in rw stop (ground arith)
strncmp_lem (suc n) p q m [] (y ∷ ys) h (e, nz, k) =
    let stop : (not (m p == 0) && (m p == m q)) ≡ false = ground arith in rw stop (ground arith)
strncmp_lem (suc n) p q m (x ∷ xs) [] (e, nz, h) k =
    let stop : (not (m p == 0) && (m p == m q)) ≡ false = ground arith in rw stop (ground arith)
strncmp_lem (suc n) p q m (x ∷ xs) (y ∷ ys) (e, nz, h) (e', nz', k) = elim (Bool-cases (x == y)) [
  | inl s ↦
      let go : (not (m p == 0) && (m p == m q)) ≡ true = ground arith in
      rw (go, s) (strncmp_lem n (p + 1) (q + 1) m xs ys h k)
  | inr s ↦
      let stop : (not (m p == 0) && (m p == m q)) ≡ false = ground arith in
      rw (stop, s) (ground arith)
]

-- `safestrcpy` always leaves a NUL within the first `n` bytes of its target, `n` being at most its
-- size.
pub safestrcpy-has :
    (n : ℕ) (s t : List ℕ)
    → 0 < n
    → n ≤ length s
    → n ≤ length t
    → has 0 (take n (safestrcpy s t n)) ≡ true
unfolding safestrcpy zero_first
safestrcpy-has zero s t h k l = absurd (omega arith)
safestrcpy-has (suc zero) [] t h k l = absurd (omega arith)
safestrcpy-has (suc (suc n)) [] t h k l = absurd (omega arith)
safestrcpy-has (suc zero) (x ∷ s) t h k l = refl
safestrcpy-has (suc (suc n)) (x ∷ s) [] h k l = absurd (omega arith)
safestrcpy-has (suc (suc n)) (x ∷ s) (c ∷ t) h k l = elim (Bool-cases (c == 0)) [
  | inl z ↦ rw z
  | inr z ↦ rw z (safestrcpy-has (suc n) s t (omega arith) (omega arith) (omega arith))
]
