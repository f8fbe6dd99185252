-- ===== src/Dinode/Bytes.antt =====
-- Loads and stores of 16 and 32 bits, and of the addresses of an inode.
use xv7_mirror.Base.{
  ℕ, zero, suc, ◌+◌, ◌*◌, ◌^◌, ◌≤◌, ◌<◌, ◌≡◌, ◌∙◌, refl, ◌⊎◌, inl, inr, arith, ◌==◌, Bool-cases,
  ==→eq,
}
use xv7_mirror.Str.{Mem, store, store32}
use xv7_mirror.Dinode.{load16, load32, store16, put_addrs}

pub load16-store16 : (m : Mem) (p v : ℕ) → v < 2 ^ 16 → load16 (store16 p v m) p ≡ v
unfolding load16 store16 store
load16-store16 m p v h = ground arith

pub load32-store32 : (m : Mem) (p v : ℕ) → v < 2 ^ 32 → load32 (store32 p v m) p ≡ v
unfolding load32 store32 store
load32-store32 m p v h = ground arith

-- Bytes outside of a store.
pub store16-other : (m : Mem) (p v a : ℕ) → (a < p) ⊎ (p + 2 ≤ a) → store16 p v m a ≡ m a
unfolding store16 store
store16-other m p v a (inl h) = ground arith
store16-other m p v a (inr h) = ground arith

pub store32-other : (m : Mem) (p v a : ℕ) → (a < p) ⊎ (p + 4 ≤ a) → store32 p v m a ≡ m a
unfolding store32 store
store32-other m p v a (inl h) = ground arith
store32-other m p v a (inr h) = ground arith

pub put_addrs-other :
    (n p : ℕ) (f : ℕ → ℕ) (m : Mem) (a : ℕ) → (a < p) ⊎ (p + 4 * n ≤ a) → put_addrs n p f m a ≡ m a
unfolding put_addrs
put_addrs-other zero p f m a h = refl
put_addrs-other (suc n) p f m a (inl h) =
    store32-other (put_addrs n p f m) (p + 4 * n) (f n) a (inl (omega arith))
    ∙ put_addrs-other n p f m a (inl h)
put_addrs-other (suc n) p f m a (inr h) =
    store32-other (put_addrs n p f m) (p + 4 * n) (f n) a (inr (omega arith))
    ∙ put_addrs-other n p f m a (inr (omega arith))

-- Two memories with the same bytes from `p` on give the same number.
pub load16_ext :
    (m m' : Mem) (p : ℕ) → ((k : ℕ) → k < 2 → m (p + k) ≡ m' (p + k)) → load16 m p ≡ load16 m' p
unfolding load16
load16_ext m m' p h =
    let z : p + 0 ≡ p = omega arith in rw (rw z at (h 0 (omega arith)), h 1 (omega arith)) refl

pub load32_ext :
    (m m' : Mem) (p : ℕ) → ((k : ℕ) → k < 4 → m (p + k) ≡ m' (p + k)) → load32 m p ≡ load32 m' p
unfolding load32
load32_ext m m' p h =
    let z : p + 0 ≡ p = omega arith in
    rw (rw z at (h 0 (omega arith)), h 1 (omega arith), h 2 (omega arith), h 3 (omega arith)) refl

last_or_below : (i n : ℕ) → i < n + 1 → (i ≡ n) ⊎ (i < n)
last_or_below i n h = elim (Bool-cases (i == n)) [
  | inl e ↦ inl (==→eq i n e)
  | inr e ↦ inr (ground arith)
]

pub load32-put_addrs :
    (n p i : ℕ) (f : ℕ → ℕ) (m : Mem)
    → i < n
    → f i < 2 ^ 32
    → load32 (put_addrs n p f m) (p + 4 * i) ≡ f i
unfolding put_addrs
load32-put_addrs zero p i f m lt small = absurd (omega arith)
load32-put_addrs (suc n) p i f m lt small = elim (last_or_below i n (omega arith)) [
  | inl e ↦ rw e (load32-store32 (put_addrs n p f m) (p + 4 * n) (f n) (rw e at small))
  | inr less ↦
      load32_ext (store32 (p + 4 * n) (f n) (put_addrs n p f m)) (put_addrs n p f m) (p + 4 * i)
        (λ k h.
          store32-other (put_addrs n p f m) (p + 4 * n) (f n) (p + 4 * i + k) (inl (omega arith)))
      ∙ load32-put_addrs n p i f m less small
]
