-- ===== src/Dir/Names.antt =====
-- Names in entries: what `namecmp` compares, and what `strncpy` stores.
use xv7_mirror.Base.{
  ℕ, zero, suc, ◌+◌, ◌≤◌, ◌<◌, ◌≡◌, refl, ◌∙◌, Bool, true, false, arith, ◌⊎◌, ◌==◌, if◌then◌else◌,
  Bool-cases, inl, inr, ==→eq, eq→==,
}
use xv7_mirror.Str.{Mem, store, strncmp, strncpy, pad}
use xv7_mirror.Str.Cstring.{agrees}

-- Two names of at most `n` bytes, in two memories: the same bytes up to a NUL or the end.
pub names_agree : ℕ → Mem → ℕ → Mem → ℕ → Bool
names_agree zero f i g j = true
names_agree (suc n) f i g j =
    let rest = names_agree n f (i + 1) g (j + 1) in
    if f i == g j then (if f i == 0 then true else rest) else false

pub agrees-strncmp : (n p q : ℕ) (m : Mem) → agrees (strncmp p q n m) ≡ names_agree n m p m q
unfolding strncmp names_agree
agrees-strncmp zero p q m = refl
agrees-strncmp (suc n) p q m = ground (arith, agrees-strncmp n (p + 1) (q + 1) m)

-- The comparison reads these bytes only.
pub names_agree_ext :
    (n : ℕ) (f : Mem) (i : ℕ) (g : Mem) (j : ℕ) (f' : Mem) (i' : ℕ) (g' : Mem) (j' : ℕ)
    → ((k : ℕ) → k < n → f (i + k) ≡ f' (i' + k))
    → ((k : ℕ) → k < n → g (j + k) ≡ g' (j' + k))
    → names_agree n f i g j ≡ names_agree n f' i' g' j'
unfolding names_agree
names_agree_ext zero f i g j f' i' g' j' hf hg = refl
names_agree_ext (suc n) f i g j f' i' g' j' hf hg =
    let zi : i + 0 ≡ i = omega arith in
    let zi' : i' + 0 ≡ i' = omega arith in
    let zj : j + 0 ≡ j = omega arith in
    let zj' : j' + 0 ≡ j' = omega arith in
    let ef : f i ≡ f' i' = rw (zi, zi') at (hf 0 (omega arith)) in
    let eg : g j ≡ g' j' = rw (zj, zj') at (hg 0 (omega arith)) in
    let step : (h h' : Mem) (a a' : ℕ)
        → ((k : ℕ) → k < suc n → h (a + k) ≡ h' (a' + k))
        → (k : ℕ) → k < n
        → h (a + 1 + k) ≡ h' (a' + 1 + k) =
      λ h h' a a' e k lt.
        let x : a + 1 + k ≡ a + (k + 1) = omega arith in
        let y : a' + 1 + k ≡ a' + (k + 1) = omega arith in rw (x, y) (e (k + 1) (omega arith)) in
    let rest =
      names_agree_ext n f (i + 1) g (j + 1) f' (i' + 1) g' (j' + 1) (step f f' i i' hf)
        (step g g' j j' hg) in
    rw (ef, eg, rest)

pad_outside : (n s a : ℕ) (m : Mem) → ((a < s) ⊎ (s + n ≤ a)) → pad n s m a ≡ m a
unfolding pad store
pad_outside zero s a m h = refl
pad_outside (suc n) s a m h =
    let h' : (a < s + 1) ⊎ (s + 1 + n ≤ a) = elim h [
      | inl x ↦ inl (omega arith)
      | inr x ↦ inr (omega arith)
    ] in
    pad_outside n (s + 1) a (store s 0 m) h' ∙ (let e : (a == s) ≡ false = ground arith in rw e)

-- `strncpy` changes nothing but the `n` bytes from `s` on.
pub strncpy_outside : (n s t a : ℕ) (m : Mem) → ((a < s) ⊎ (s + n ≤ a)) → strncpy s t n m a ≡ m a
unfolding strncpy store
strncpy_outside zero s t a m h = refl
strncpy_outside (suc n) s t a m h =
    let h' : (a < s + 1) ⊎ (s + 1 + n ≤ a) = elim h [
      | inl x ↦ inl (omega arith)
      | inr x ↦ inr (omega arith)
    ] in
    let away : (a == s) ≡ false = ground arith in
    elim (Bool-cases (m t == 0)) [
      | inl z ↦ rw z (pad_outside n (s + 1) a (store s (m t) m) h' ∙ unfold store in rw away)
      | inr nz ↦
          rw nz (strncpy_outside n (s + 1) (t + 1) a (store s (m t) m) h' ∙ unfold store in rw away)
    ]

-- Of names apart in memory, the copy that `strncpy` makes agrees with the name.
pub names_agree-strncpy :
    (n s t : ℕ) (m : Mem)
    → ((t + n ≤ s) ⊎ (s + n ≤ t))
    → names_agree n m t (strncpy s t n m) s ≡ true
unfolding names_agree strncpy
names_agree-strncpy zero s t m h = refl
names_agree-strncpy (suc n) s t m h = elim (Bool-cases (m t == 0)) [
  | inl z ↦
      let e : pad n (s + 1) (store s (m t) m) s ≡ m t =
        pad_outside n (s + 1) s (store s (m t) m) (inl (omega arith))
        ∙ unfold store in rw (eq→== s s refl) in
      rw (z, e, eq→== (m t) (m t) refl)
  | inr nz ↦
      let m' = store s (m t) m in
      let e : strncpy (s + 1) (t + 1) n m' s ≡ m t =
        strncpy_outside n (s + 1) (t + 1) s m' (inl (omega arith))
        ∙ unfold store in rw (eq→== s s refl) in
      let h' : (t + 1 + n ≤ s + 1) ⊎ (s + 1 + n ≤ t + 1) = elim h [
        | inl x ↦ inl (omega arith)
        | inr x ↦ inr (omega arith)
      ] in
      let same =
        names_agree_ext n m (t + 1) (strncpy (s + 1) (t + 1) n m') (s + 1) m' (t + 1)
          (strncpy (s + 1) (t + 1) n m') (s + 1)
          (λ k lt. let ne : (t + 1 + k == s) ≡ false = ground arith in unfold store in rw ne)
          (λ k lt. refl) in
      rw (nz, e, eq→== (m t) (m t) refl, same) (names_agree-strncpy n (s + 1) (t + 1) m' h')
]

pad_range : (n s a : ℕ) (m : Mem) → s ≤ a → a < s + n → pad n s m a < 256
unfolding pad
pad_range zero s a m lo hi = absurd (omega arith)
pad_range (suc n) s a m lo hi = elim (Bool-cases (a == s)) [
  | inl e ↦
      let same : a ≡ s = ==→eq a s e in
      let zero_there : pad n (s + 1) (store s 0 m) a ≡ 0 =
        pad_outside n (s + 1) a (store s 0 m) (inl (omega arith)) ∙ unfold store in rw e in
      omega (arith, zero_there)
  | inr later ↦ pad_range n (s + 1) a (store s 0 m) (ground arith) (omega arith)
]

-- The copy is made of bytes.
pub strncpy_range :
    (n s t a : ℕ) (m : Mem)
    → ((k : ℕ) → k < n → m (t + k) < 256)
    → s ≤ a
    → a < s + n
    → strncpy s t n m a < 256
unfolding strncpy
strncpy_range zero s t a m h lo hi = absurd (omega arith)
strncpy_range (suc n) s t a m h lo hi =
    let m' = store s (m t) m in
    let z : t + 0 ≡ t = omega arith in
    let ht : m t < 256 = rw z at (h 0 (omega arith)) in
    let h' : (k : ℕ) → k < n → m' (t + 1 + k) < 256 = λ k lt.
      let at : t + 1 + k ≡ t + (k + 1) = omega arith in
      let old : m (t + 1 + k) < 256 = rw at (h (k + 1) (omega arith)) in
      unfold store in ground (arith, old, ht) in
    elim (Bool-cases (a == s)) [
      | inl e ↦
          let same : a ≡ s = ==→eq a s e in
          let here : m' a ≡ m t = unfold store in rw e in
          elim (Bool-cases (m t == 0)) [
            | inl z ↦ rw z (
                let q = pad_outside n (s + 1) a m' (inl (omega arith)) in
                omega (arith, q, here, ht))
            | inr nz ↦ rw nz (
                let q = strncpy_outside n (s + 1) (t + 1) a m' (inl (omega arith)) in
                omega (arith, q, here, ht))
          ]
      | inr later ↦
          let lo' : s + 1 ≤ a = ground arith in
          elim (Bool-cases (m t == 0)) [
            | inl z ↦ rw z (pad_range n (s + 1) a m' lo' (omega arith))
            | inr nz ↦ rw nz (strncpy_range n (s + 1) (t + 1) a m' h' lo' (omega arith))
          ]
    ]
