-- ===== src/FreeMap/Bits.antt =====
-- The bits of the free map: what `mark` and `unmark` change.
use Prim.Native.Nat.{bit_or, bit_and}
use xv7_mirror.Base.{
  ℕ, zero, suc, ◌-◌, ◌/◌, ◌%◌, ◌^◌, ◌<◌, ◌≡◌, refl, ◌∙◌, inl, inr, Bool, true, false, ◌&&◌, not,
  arith, ltb, ◌==◌, if◌then◌else◌, Bool-cases, ==→eq,
}
use xv7_mirror.Str.{Mem, store}
use xv7_mirror.FreeMap.{is_free, mark, unmark}

abbrev pub IsBytes : Mem → Type 0
IsBytes m = (a : ℕ) → m a < 256

all_below : ℕ → (ℕ → Bool) → Bool
all_below zero p = true
all_below (suc n) p = p n && all_below n p

all_below-at : (n : ℕ) (p : ℕ → Bool) (x : ℕ) → all_below n p ≡ true → x < n → p x ≡ true
unfolding all_below
all_below-at zero p x h lt = absurd (omega arith)
all_below-at (suc n) p x h lt = ground (arith, all_below-at n p x)

eqb : Bool → Bool → Bool
eqb true b = b
eqb false b = not b

eqb→eq : (a b : Bool) → eqb a b ≡ true → a ≡ b
unfolding eqb
eqb→eq true true h = refl
eqb→eq true false h = cc
eqb→eq false true h = cc
eqb→eq false false h = refl

-- The laws of a byte `x` and bits `i` and `j`.
or_law : ℕ → ℕ → ℕ → Bool
or_law x i j =
    eqb (bit_and (bit_or x (2 ^ i)) (2 ^ j) == 0) (if i == j then false else bit_and x (2 ^ j) == 0)

and_law : ℕ → ℕ → ℕ → Bool
and_law x i j =
    eqb (bit_and (bit_and x (255 - 2 ^ i)) (2 ^ j) == 0)
      (if i == j then true else bit_and x (2 ^ j) == 0)

range_law : ℕ → ℕ → Bool
range_law x i = ltb (bit_or x (2 ^ i)) 256 && ltb (bit_and x (255 - 2 ^ i)) 256

or_table : all_below 256 (λ x. all_below 8 (λ i. all_below 8 (λ j. or_law x i j))) ≡ true
unfolding all_below or_law eqb
or_table = refl

and_table : all_below 256 (λ x. all_below 8 (λ i. all_below 8 (λ j. and_law x i j))) ≡ true
unfolding all_below and_law eqb
and_table = refl

range_table : all_below 256 (λ x. all_below 8 (λ i. range_law x i)) ≡ true
unfolding all_below range_law
range_table = refl

table-at :
    (p : ℕ → ℕ → ℕ → Bool) (x i j : ℕ)
    → all_below 256 (λ x. all_below 8 (λ i. all_below 8 (λ j. p x i j))) ≡ true
    → x < 256
    → i < 8
    → j < 8
    → p x i j ≡ true
table-at p x i j t hx hi hj =
    all_below-at 8 (λ j. p x i j) j
      (all_below-at 8 (λ i. all_below 8 (λ j. p x i j)) i
        (all_below-at 256 (λ x. all_below 8 (λ i. all_below 8 (λ j. p x i j))) x t hx) hi)
      hj

or_bit :
    (x i j : ℕ)
    → x < 256
    → i < 8
    → j < 8
    → (bit_and (bit_or x (2 ^ i)) (2 ^ j) == 0) ≡ (if i == j then false else bit_and x (2 ^ j) == 0)
or_bit x i j hx hi hj = eqb→eq _ _ (unfold or_law in table-at or_law x i j or_table hx hi hj)

and_bit :
    (x i j : ℕ)
    → x < 256
    → i < 8
    → j < 8
    → (bit_and (bit_and x (255 - 2 ^ i)) (2 ^ j) == 0)
      ≡ (if i == j then true else bit_and x (2 ^ j) == 0)
and_bit x i j hx hi hj = eqb→eq _ _ (unfold and_law in table-at and_law x i j and_table hx hi hj)

byte_range :
    (x i : ℕ) → x < 256 → i < 8 → (bit_or x (2 ^ i) < 256) × (bit_and x (255 - 2 ^ i) < 256)
unfolding range_law
byte_range x i hx hi =
    let e : range_law x i ≡ true =
      all_below-at 8 (λ i. range_law x i) i
        (all_below-at 256 (λ x. all_below 8 (λ i. range_law x i)) x range_table hx) hi in
    ground arith

pub is_free-mark :
    (m : Mem) (i j : ℕ) → IsBytes m → is_free (mark i m) j ≡ (if i == j then false else is_free m j)
unfolding is_free mark store
is_free-mark m i j h = elim (Bool-cases (j / 8 == i / 8)) [
  | inl same ↦ rw same (
      let e : j / 8 ≡ i / 8 = ==→eq (j / 8) (i / 8) same in
      or_bit (m (i / 8)) (i % 8) (j % 8) (h (i / 8)) (omega arith) (omega arith)
      ∙ ground (arith, e))
  | inr other ↦ rw other (ground arith)
]

pub is_free-unmark :
    (m : Mem) (i j : ℕ)
    → IsBytes m
    → is_free (unmark i m) j ≡ (if i == j then true else is_free m j)
unfolding is_free unmark store
is_free-unmark m i j h = elim (Bool-cases (j / 8 == i / 8)) [
  | inl same ↦ rw same (
      let e : j / 8 ≡ i / 8 = ==→eq (j / 8) (i / 8) same in
      and_bit (m (i / 8)) (i % 8) (j % 8) (h (i / 8)) (omega arith) (omega arith)
      ∙ ground (arith, e))
  | inr other ↦ rw other (ground arith)
]

pub mark-IsBytes : (m : Mem) (i : ℕ) → IsBytes m → IsBytes (mark i m)
unfolding mark store
mark-IsBytes m i h a =
    let r = byte_range (m (i / 8)) (i % 8) (h (i / 8)) (omega arith) in ground (arith, h a)

pub unmark-IsBytes : (m : Mem) (i : ℕ) → IsBytes m → IsBytes (unmark i m)
unfolding unmark store
unmark-IsBytes m i h a =
    let r = byte_range (m (i / 8)) (i % 8) (h (i / 8)) (omega arith) in ground (arith, h a)
