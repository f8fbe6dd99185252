-- ===== src/Str/Move.antt =====
-- `memmove`: the objects may overlap in any way.
use xv7_mirror.Base.{
  ℕ, zero, suc, ◌+◌, ◌-◌, ◌≤◌, ◌<◌, ◌≡◌, ◌∙◌, ◌⊎◌, inl, inr, true, false, ◌&&◌, arith, ltb, leb,
  ◌==◌, if◌then◌else◌, Bool-cases,
}
use xv7_mirror.Str.{Mem, store, copy_up, copy_down, memmove}

-- The memory `m` after the `n` bytes at `s` were copied to `d` all at once.
abbrev pub moved : (d s n : ℕ) → Mem → Mem
moved d s n m a = if leb d a && ltb a (d + n) then m (s + (a - d)) else m a

moved-store_first :
    (d s n a : ℕ) (m : Mem)
    → (d ≤ s) ⊎ (s + suc n ≤ d)
    → moved (d + 1) (s + 1) n (store d (m s) m) a ≡ moved d s (suc n) m a
unfolding store
moved-store_first d s n a m apart = elim (Bool-cases (a == d)) [
  | inl h ↦
      let e : a ≡ d = ground arith in
      let z : s + (d - d) ≡ s = omega arith in
      let out : (leb (d + 1) d && ltb d (d + 1 + n)) ≡ false = ground arith in
      let in_ : (leb d d && ltb d (d + suc n)) ≡ true = ground arith in
      let self : (d == d) ≡ true = ground arith in rw (e, out, in_, self, z)
  | inr h ↦ elim (Bool-cases (leb d a && ltb a (d + suc n))) [
    | inl k ↦
        let in_ : (leb (d + 1) a && ltb a (d + 1 + n)) ≡ true = ground arith in
        let x : s + 1 + (a - (d + 1)) ≡ s + (a - d) = ground arith in
        let other : (s + (a - d) == d) ≡ false = ground arith in rw (k, in_, x, other)
    | inr k ↦
        let out : (leb (d + 1) a && ltb a (d + 1 + n)) ≡ false = ground arith in rw (k, out, h)
  ]
]

copy_up-moved :
    (n d s : ℕ) (m : Mem) (a : ℕ) → (d ≤ s) ⊎ (s + n ≤ d) → copy_up n d s m a ≡ moved d s n m a
unfolding copy_up
copy_up-moved zero d s m a apart =
    let out : (leb d a && ltb a (d + 0)) ≡ false = ground arith in rw out
copy_up-moved (suc n) d s m a apart =
    copy_up-moved n (d + 1) (s + 1) (store d (m s) m) a (omega arith)
    ∙ moved-store_first d s n a m apart

moved-store_last :
    (d s n a : ℕ) (m : Mem)
    → s < d
    → moved d s n (store (d + n) (m (s + n)) m) a ≡ moved d s (suc n) m a
unfolding store
moved-store_last d s n a m lt = elim (Bool-cases (a == d + n)) [
  | inl h ↦
      let e : a ≡ d + n = ground arith in
      let z : s + (d + n - d) ≡ s + n = omega arith in
      let out : (leb d (d + n) && ltb (d + n) (d + n)) ≡ false = ground arith in
      let in_ : (leb d (d + n) && ltb (d + n) (d + suc n)) ≡ true = ground arith in
      let self : (d + n == d + n) ≡ true = ground arith in rw (e, out, in_, self, z)
  | inr h ↦ elim (Bool-cases (leb d a && ltb a (d + suc n))) [
    | inl k ↦
        let in_ : (leb d a && ltb a (d + n)) ≡ true = ground arith in
        let other : (s + (a - d) == d + n) ≡ false = ground arith in rw (k, in_, other)
    | inr k ↦ let out : (leb d a && ltb a (d + n)) ≡ false = ground arith in rw (k, out, h)
  ]
]

copy_down-moved :
    (n d s : ℕ) (m : Mem) (a : ℕ) → s < d → copy_down n (d + n) (s + n) m a ≡ moved d s n m a
unfolding copy_down
copy_down-moved zero d s m a lt =
    let out : (leb d a && ltb a (d + 0)) ≡ false = ground arith in rw out
copy_down-moved (suc n) d s m a lt =
    let dn : d + suc n - 1 ≡ d + n = omega arith in
    let sn : s + suc n - 1 ≡ s + n = omega arith in
    rw (dn, sn)
      (copy_down-moved n d s (store (d + n) (m (s + n)) m) a lt ∙ moved-store_last d s n a m lt)

-- However the two objects overlap, `memmove` stores in each of the `n` bytes from `d` on what the
-- byte at the same place from `s` on held before, and changes no other byte.
pub memmove_lem :
    (d s n : ℕ) (m : Mem) (a : ℕ)
    → memmove d s n m a ≡ (if leb d a && ltb a (d + n) then m (s + (a - d)) else m a)
unfolding memmove
memmove_lem d s n m a = elim (Bool-cases (ltb s d && ltb d (s + n))) [
  | inl h ↦ rw h (copy_down-moved n d s m a (ground arith))
  | inr h ↦ rw h (copy_up-moved n d s m a (ground arith))
]
