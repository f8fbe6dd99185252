-- ===== src/Format/Digits.antt =====
-- The digits of a number: they fit into `numbuf`, and read back they give the number.
use native.Mathlib.Nat.{div-add-mod, mod-lt, mul_comm}
use xv7_mirror.Base.{
  ℕ, zero, suc, ◌+◌, ◌-◌, ◌*◌, ◌/◌, ◌%◌, ◌^◌, ◌≤◌, ◌<◌, ◌≡◌, ◌≢◌, refl, ap, ◌∙◌, inl, inr, false,
  List, [], ◌∷◌, arith, ltb, ◌==◌, if◌then◌else◌, Bool-cases, length, ==→eq,
}
use xv7_mirror.Base.Mem.{All}
use xv7_mirror.Format.{digit_loop, dec_digit, hex_digit, is_negative, dec_digits, dec_buf, hex_buf}

-- The number that digits stand for, behind those that gave `a`.
pub value : (base : ℕ) → (ℕ → ℕ) → ℕ → List ℕ → ℕ
value base worth a [] = a
value base worth a (c ∷ cs) = value base worth (a * base + worth c) cs

abbrev pub dec_worth : ℕ → ℕ
dec_worth c = c - b'0'

abbrev pub hex_worth : ℕ → ℕ
hex_worth c = if ltb c b'a' then c - b'0' else c - b'a' + 10

-- The power, by recursion.
abbrev pub pow : ℕ → ℕ → ℕ
pow base zero = 1
pow base (suc n) = base * pow base n

div-lt_of_mul : (base v q : ℕ) → 0 < base → v < base * q → v / base < q
div-lt_of_mul base v q pos lt = grind (arith, div-add-mod v base)

value-digit_loop :
    (fuel base v : ℕ) (digit worth : ℕ → ℕ) (buf : List ℕ)
    → 1 < base
    → ((d : ℕ) → d < base → worth (digit d) ≡ d)
    → v < pow base fuel
    → value base worth 0 (digit_loop fuel base v digit buf) ≡ value base worth v buf
unfolding digit_loop
value-digit_loop zero base v digit worth buf h inv lt = let z : v ≡ 0 = omega arith in rw z
value-digit_loop (suc fuel) base v digit worth buf h inv lt = elim (Bool-cases (ltb 0 v)) [
  | inl more ↦
      let w : worth (digit (v % base)) ≡ v % base = inv (v % base) (mod-lt v (omega arith)) in
      let back : v / base * base + v % base ≡ v =
        omega (arith, div-add-mod v base, mul_comm (v / base) base) in
      let step : value base worth (v / base) (digit (v % base) ∷ buf) ≡ value base worth v buf =
        unfold value in rw (w, back) in
      rw more (
        value-digit_loop fuel base (v / base) digit worth (digit (v % base) ∷ buf) h inv
          (div-lt_of_mul base v (pow base fuel) (omega arith) lt)
        ∙ step)
  | inr done ↦ let z : v ≡ 0 = ground arith in rw done (rw z)
]

length-digit_loop :
    (n fuel base v : ℕ) (digit : ℕ → ℕ) (buf : List ℕ)
    → 1 < base
    → v < pow base n
    → length (digit_loop fuel base v digit buf) ≤ n + length buf
unfolding digit_loop
length-digit_loop n zero base v digit buf h lt = omega arith
length-digit_loop zero (suc fuel) base v digit buf h lt =
    let none_left : ltb 0 v ≡ false = ground arith in rw none_left (omega arith)
length-digit_loop (suc n) (suc fuel) base v digit buf h lt = elim (Bool-cases (ltb 0 v)) [
  | inl more ↦ rw more (
      let ih =
        length-digit_loop n fuel base (v / base) digit (digit (v % base) ∷ buf) h
          (div-lt_of_mul base v (pow base n) (omega arith) lt) in
      omega (arith, ih))
  | inr done ↦ rw done (omega arith)
]

digit_loop-All :
    (fuel base v : ℕ) (digit : ℕ → ℕ) (buf : List ℕ)
    → 0 < base
    → ((d : ℕ) → d < base → b'0' ≤ digit d)
    → All (λ c. b'0' ≤ c) buf
    → All (λ c. b'0' ≤ c) (digit_loop fuel base v digit buf)
unfolding digit_loop
digit_loop-All zero base v digit buf pos h all = all
digit_loop-All (suc fuel) base v digit buf pos h all = elim (Bool-cases (ltb 0 v)) [
  | inl more ↦ rw more (
      digit_loop-All fuel base (v / base) digit (digit (v % base) ∷ buf) pos h
        (h (v % base) (mod-lt v pos), all))
  | inr done ↦ rw done all
]

-- What a printed `int` is read as: digits, behind a minus sign or not.
pub read_int : List ℕ → ℕ
read_int [] = 0
read_int (c ∷ cs) =
    if c == b'-' then (2 ^ 32 - value 10 dec_worth 0 cs) % 2 ^ 32 else value 10 dec_worth 0 (c ∷ cs)

read_int_digits : (cs : List ℕ) → All (λ c. b'0' ≤ c) cs → read_int cs ≡ value 10 dec_worth 0 cs
unfolding read_int value
read_int_digits [] all = refl
read_int_digits (c ∷ cs) (h, all) = let plain : (c == b'-') ≡ false = ground arith in rw plain

-- The digits of a number that is not negative, zero included.
digits_of : ℕ → List ℕ
digits_of a = if a == 0 then b'0' ∷ [] else dec_digits a

value-digits_of : (a : ℕ) → a < 2 ^ 31 → value 10 dec_worth 0 (digits_of a) ≡ a
unfolding digits_of dec_digits value
value-digits_of a h = elim (Bool-cases (a == 0)) [
  | inl z ↦ let e : a ≡ 0 = ==→eq a 0 z in rw e
  | inr nz ↦
      let pos : is_negative a ≡ false = ground arith in
      rw (nz, pos)
        (value-digit_loop 32 10 a dec_digit dec_worth [] (omega arith) (λ d lt. omega arith)
          (omega arith))
]

digits_of-All : (a : ℕ) → All (λ c. b'0' ≤ c) (digits_of a)
unfolding digits_of dec_digits
digits_of-All a = elim (Bool-cases (a == 0)) [
  | inl z ↦ rw z (omega arith, tt)
  | inr nz ↦ elim (Bool-cases (is_negative a)) [
    | inl neg ↦ rw (nz, neg) tt
    | inr pos ↦
        rw (nz, pos) (digit_loop-All 32 10 a dec_digit [] (omega arith) (λ d lt. omega arith) tt)
  ]
]

length-digits_of : (a : ℕ) → a < 2 ^ 32 → length (digits_of a) ≤ 10
unfolding digits_of dec_digits
length-digits_of a h = elim (Bool-cases (a == 0)) [
  | inl z ↦ rw z (omega arith)
  | inr nz ↦ elim (Bool-cases (is_negative a)) [
    | inl neg ↦ rw (nz, neg) (omega arith)
    | inr pos ↦
        let l = length-digit_loop 10 32 10 a dec_digit [] (omega arith) (omega arith) in
        rw (nz, pos) (omega (arith, l))
  ]
]

magnitude : ℕ → ℕ
magnitude v = if is_negative v then (2 ^ 32 - v) % 2 ^ 32 else v

dec_buf-digits :
    (v : ℕ)
    → dec_buf v
      ≡ (if is_negative v then b'-' ∷ digits_of (magnitude v) else digits_of (magnitude v))
unfolding dec_buf digits_of magnitude
dec_buf-digits v = refl

-- The text that %d gives for an `int` other than -2^31 is read as the `int`.
pub read_int-dec_buf : (v : ℕ) → v < 2 ^ 32 → v ≢ 2 ^ 31 → read_int (dec_buf v) ≡ v
read_int-dec_buf v h ne = elim (Bool-cases (is_negative v)) [
  | inl neg ↦
      let a = magnitude v in
      let e : a ≡ (2 ^ 32 - v) % 2 ^ 32 = unfold magnitude in rw neg in
      let small : a < 2 ^ 31 = ground (arith, e) in
      let back : read_int (b'-' ∷ digits_of a) ≡ (2 ^ 32 - a) % 2 ^ 32 =
        unfold read_int in ap (λ x. (2 ^ 32 - x) % 2 ^ 32) (value-digits_of a small) in
      rw (dec_buf-digits v, neg) (back ∙ ground (arith, e))
  | inr pos ↦
      let small : v < 2 ^ 31 = ground arith in
      let e : magnitude v ≡ v = unfold magnitude in rw pos in
      rw (dec_buf-digits v, pos, e)
        (read_int_digits (digits_of v) (digits_of-All v) ∙ value-digits_of v small)
]

-- `numbuf` has 16 entries; %d and %x use 11 at most.
pub numbuf_bounds : (v : ℕ) → v < 2 ^ 32 → (length (dec_buf v) ≤ 11) × (length (hex_buf v) ≤ 8)
numbuf_bounds v h =
    let a-lt : magnitude v < 2 ^ 32 = unfold magnitude in ground arith in
    (
      rw (dec_buf-digits v) (ground (arith, length-digits_of (magnitude v) a-lt)),
      unfold hex_buf in
          ground (arith, length-digit_loop 8 32 16 v hex_digit [] (omega arith) (omega arith)),
    )

-- The text that %x gives for an unsigned number, read in base 16, is the number.
pub value-hex_buf : (v : ℕ) → v < 2 ^ 32 → value 16 hex_worth 0 (hex_buf v) ≡ v
unfolding hex_buf value
value-hex_buf v h = elim (Bool-cases (v == 0)) [
  | inl z ↦ let e : v ≡ 0 = ==→eq v 0 z in rw e
  | inr nz ↦ rw nz (
      value-digit_loop 32 16 v hex_digit hex_worth [] (omega arith) (λ d lt. ground arith)
        (omega arith))
]
