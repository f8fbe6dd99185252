-- ===== src/Str/Fill.antt =====
-- `memset`: both of its branches fill the object.
use xv7_mirror.Base.{
  ℕ, zero, suc, ◌+◌, ◌*◌, ◌/◌, ◌%◌, ◌^◌, ◌<◌, ◌≡◌, refl, ap, sym, ◌∙◌, inl, inr, Bool, true, false,
  ◌&&◌, arith, ltb, leb, ◌==◌, if◌then◌else◌, Bool-cases, ==→eq,
}
use xv7_mirror.Str.{Mem, store, stosb, store32, stosl, spread, memset}

-- The memory `m` with the byte `c` in each of the `n` bytes from `d` on.
abbrev pub filled : (d c n : ℕ) → Mem → Mem
filled d c n m a = if leb d a && ltb a (d + n) then c else m a

filled-zero : (d c a : ℕ) (m : Mem) → filled d c 0 m a ≡ m a
filled-zero d c a m = let out : (leb d a && ltb a (d + 0)) ≡ false = ground arith in rw out

filled-store : (d c n a : ℕ) (m : Mem) → filled (d + 1) c n (store d c m) a ≡ filled d c (suc n) m a
unfolding store
filled-store d c n a m = ground arith

stosb-filled : (n d c : ℕ) (m : Mem) (a : ℕ) → c < 256 → stosb d c n m a ≡ filled d c n m a
unfolding stosb
stosb-filled zero d c m a h = sym (filled-zero d c a m)
stosb-filled (suc n) d c m a h =
    let byte : c % 256 ≡ c = omega arith in
    rw byte (stosb-filled n (d + 1) c (store d c m) a h ∙ filled-store d c n a m)

-- Over the bytes, the word that `stosl` gets is four times the byte.
all_below : ℕ → (ℕ → Bool) → Bool
all_below zero p = true
all_below (suc n) p = p n && all_below n p

all_below-at : (n : ℕ) (p : ℕ → Bool) (x : ℕ) → all_below n p ≡ true → x < n → p x ≡ true
unfolding all_below
all_below-at zero p x h lt = absurd (omega arith)
all_below-at (suc n) p x h lt = ground (arith, all_below-at n p x)

spread_table : all_below 256 (λ c. spread c == c * 0x0101_0101) ≡ true
unfolding all_below spread
spread_table = refl

spread_lem : (c : ℕ) → c < 256 → spread c ≡ c * 0x0101_0101
spread_lem c h =
    ==→eq (spread c) (c * 0x0101_0101)
      (all_below-at 256 (λ b. spread b == b * 0x0101_0101) c spread_table h)

store32-filled :
    (d c n a : ℕ) (m : Mem)
    → c < 256
    → filled (d + 4) c n (store32 d (c * 0x0101_0101) m) a ≡ filled d c (4 + n) m a
unfolding store32 store
store32-filled d c n a m h =
    let b0 : c * 0x0101_0101 % 256 ≡ c = omega arith in
    let b1 : c * 0x0101_0101 / 2 ^ 8 % 256 ≡ c = omega arith in
    let b2 : c * 0x0101_0101 / 2 ^ 16 % 256 ≡ c = omega arith in
    let b3 : c * 0x0101_0101 / 2 ^ 24 % 256 ≡ c = omega arith in rw (b0, b1, b2, b3) (ground arith)

stosl-filled :
    (n d c : ℕ) (m : Mem) (a : ℕ)
    → c < 256
    → stosl d (c * 0x0101_0101) n m a ≡ filled d c (4 * n) m a
unfolding stosl
stosl-filled zero d c m a h = sym (filled-zero d c a m)
stosl-filled (suc n) d c m a h =
    let e : 4 + 4 * n ≡ 4 * suc n = omega arith in
    stosl-filled n (d + 4) c (store32 d (c * 0x0101_0101) m) a h
    ∙ store32-filled d c (4 * n) a m h
    ∙ ap (λ k. filled d c k m a) e

-- For a byte `c`, `memset` stores it in each of the `n` bytes from `d` on and changes no other byte,
-- whether it goes by words or by bytes.
pub memset_lem :
    (d c n : ℕ) (m : Mem) (a : ℕ)
    → c < 256
    → memset d c n m a ≡ (if leb d a && ltb a (d + n) then c else m a)
unfolding memset
memset_lem d c n m a h = elim (Bool-cases ((d % 4 == 0) && (n % 4 == 0))) [
  | inl w ↦
      let e : 4 * (n / 4) ≡ n = ground arith in
      rw (w, spread_lem c h) (stosl-filled (n / 4) d c m a h ∙ ap (λ k. filled d c k m a) e)
  | inr w ↦ rw w (stosb-filled n d c m a h)
]
