-- ===== src/Console/Window.antt =====
-- The characters between two counters, which run modulo 2^32, and what a store past them does.
use xv7_mirror.Base.{
  ℕ, zero, suc, ◌+◌, ◌-◌, ◌%◌, ◌^◌, ◌≤◌, ◌<◌, ◌≡◌, ◌≢◌, refl, ap, ◌∙◌, true, false, List, [], ◌∷◌,
  ◌++◌, ◌==◌, if◌then◌else◌, arith, length,
}
use xv7_mirror.Console.{Input, input_buf, newline, ctrl_d}

-- `b - a` in `uint`.
abbrev pub span : ℕ → ℕ → ℕ
span a b = (b + 2 ^ 32 - a) % 2 ^ 32

-- The `n` characters from counter `p` on.
abbrev pub window : (ℕ → ℕ) → ℕ → ℕ → List ℕ
window b p zero = []
window b p (suc n) = b (p % input_buf) ∷ window b (p + 1) n

-- What a reader may take, and what is still being edited.
abbrev pub ready : Input → List ℕ
ready s = window s.buf s.r (span s.r s.w)

abbrev pub edit : Input → List ℕ
edit s = window s.buf s.w (span s.w s.e)

abbrev pub Editable : ℕ → Type 0
Editable c = (c ≢ newline) × (c ≢ ctrl_d)

pub record IsInput (s : Input) : Type 0 where
  pub r_small : s.r < 2 ^ 32
  pub w_small : s.w < 2 ^ 32
  pub e_small : s.e < 2 ^ 32
  pub order : span s.r s.w + span s.w s.e ≡ span s.r s.e
  pub fits : span s.r s.e ≤ input_buf
  pub room : span s.r s.e ≡ input_buf → span s.w s.e ≡ 0
  pub clean : (i : ℕ) → i < span s.w s.e → Editable (s.buf ((s.w + i) % input_buf))

pub length-window : (b : ℕ → ℕ) (p n : ℕ) → length (window b p n) ≡ n
length-window b p zero = refl
length-window b p (suc n) = ap suc (length-window b (p + 1) n)

-- Two buffers that agree, from two counters for the same place on.
pub window_ext :
    (b c : ℕ → ℕ) (p q n : ℕ)
    → p % input_buf ≡ q % input_buf
    → ((i : ℕ) → i < n → b ((p + i) % input_buf) ≡ c ((p + i) % input_buf))
    → window b p n ≡ window c q n
window_ext b c p q zero e h = refl
window_ext b c p q (suc n) e h =
    let z : p + 0 ≡ p = omega arith in
    let here : b (p % input_buf) ≡ c (p % input_buf) = rw z at (h 0 (omega arith)) in
    ap (λ x. x ∷ window b (p + 1) n) (here ∙ ap c e)
    ∙ ap (λ xs. c (q % input_buf) ∷ xs)
        (window_ext b c (p + 1) (q + 1) n (omega arith) (λ i lt.
          let next : p + 1 + i ≡ p + (i + 1) = omega arith in rw next (h (i + 1) (omega arith))))

pub window_same :
    (b : ℕ → ℕ) (p q n : ℕ) → p % input_buf ≡ q % input_buf → window b p n ≡ window b q n
window_same b p q n e = window_ext b b p q n e (λ i lt. refl)

pub window-add : (b : ℕ → ℕ) (p m n : ℕ) → window b p (m + n) ≡ window b p m ++ window b (p + m) n
window-add b p zero n =
    let none : 0 + n ≡ n = omega arith in
    let start : p + 0 ≡ p = omega arith in rw (none, start) refl
window-add b p (suc m) n =
    let more : suc m + n ≡ suc (m + n) = omega arith in
    let next : p + suc m ≡ p + 1 + m = omega arith in
    rw (more, next) (ap (λ xs. b (p % input_buf) ∷ xs) (window-add b (p + 1) m n))

-- A store in another place.
pub window-store :
    (b : ℕ → ℕ) (p n q v : ℕ)
    → ((i : ℕ) → i < n → (p + i) % input_buf ≢ q % input_buf)
    → window (λ i. if i == q % input_buf then v else b i) p n ≡ window b p n
window-store b p n q v apart =
    window_ext (λ i. if i == q % input_buf then v else b i) b p p n refl
      (λ i lt.
        let other : ((p + i) % input_buf == q % input_buf) ≡ false = ground (arith, apart i lt) in
        rw other refl)

-- A store at the end of a window extends it.
pub window-store_end :
    (b : ℕ → ℕ) (p n q v : ℕ)
    → n < input_buf
    → (p + n) % input_buf ≡ q % input_buf
    → window (λ i. if i == q % input_buf then v else b i) p (n + 1) ≡ window b p n ++ (v ∷ [])
window-store_end b p n q v small e =
    let f = λ (i : ℕ). if i == q % input_buf then v else b i in
    let here : (q % input_buf == q % input_buf) ≡ true = ground arith in
    let last : window f (p + n) 1 ≡ v ∷ [] = rw (e, here) refl in
    window-add f p n 1
    ∙ ap (λ xs. xs ++ window f (p + n) 1) (window-store b p n q v (λ i lt h. omega (arith, h, e)))
    ∙ ap (λ xs. window b p n ++ xs) last
