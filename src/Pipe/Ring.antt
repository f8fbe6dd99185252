-- ===== src/Pipe/Ring.antt =====
-- The ring of a pipe as the queue of the bytes from `nread` on, whatever the two counters, which
-- run modulo 2^32.
use xv7_mirror.Base.{
  ℕ, zero, suc, ◌+◌, ◌-◌, ◌%◌, ◌^◌, ◌≤◌, ◌<◌, ◌≡◌, refl, ap, ◌∙◌, ◌≢◌, true, false, List, [], ◌∷◌,
  ◌++◌, arith, length, get_or, set, length-set, get_or-set_self, get_or-set_ne,
}
use xv7_mirror.Pipe.{Pipe, pipesize, add32, full, empty, put, front, advance, fresh}

-- The number of bytes written and not read, `nwrite - nread` in `uint`.
abbrev pub held : Pipe → ℕ
held p = (p.nwrite + 2 ^ 32 - p.nread) % 2 ^ 32

pub record IsValid (p : Pipe) : Type 0 where
  pub ring : length p.bytes ≡ pipesize
  pub nread_small : p.nread < 2 ^ 32
  pub nwrite_small : p.nwrite < 2 ^ 32
  pub fits : held p ≤ pipesize

-- The `n` bytes from counter `r` on.
abbrev pub window : List ℕ → ℕ → ℕ → List ℕ
window bytes r zero = []
window bytes r (suc n) = get_or bytes (r % pipesize) 0 ∷ window bytes (add32 r 1) n

-- What a pipe holds, oldest byte first.
abbrev pub contents : Pipe → List ℕ
contents p = window p.bytes p.nread (held p)

pub length-window : (bytes : List ℕ) (r n : ℕ) → length (window bytes r n) ≡ n
length-window bytes r zero = refl
length-window bytes r (suc n) = ap suc (length-window bytes (add32 r 1) n)

pub window_of_ne_zero :
    (bytes : List ℕ) (r n : ℕ)
    → n ≢ 0
    → window bytes r n ≡ get_or bytes (r % pipesize) 0 ∷ window bytes (add32 r 1) (n - 1)
window_of_ne_zero bytes r zero h = absurd (h refl)
window_of_ne_zero bytes r (suc n) h = ap (λ k. window bytes r (suc k)) (omega arith)

-- A byte stored just past a window extends it.
pub window-set :
    (bytes : List ℕ) (c n r w : ℕ)
    → length bytes ≡ pipesize
    → n < pipesize
    → r < 2 ^ 32
    → w ≡ add32 r n
    → window (set bytes (w % pipesize) c) r (suc n) ≡ window bytes r n ++ (c ∷ [])
window-set bytes c zero r w len small lt e =
    let here : w % pipesize ≡ r % pipesize = omega arith in
    rw (here, get_or-set_self bytes (r % pipesize) c 0 (omega arith))
window-set bytes c (suc n) r w len small lt e =
    let apart : w % pipesize ≢ r % pipesize = omega arith in
    ap (λ d. d ∷ window (set bytes (w % pipesize) c) (add32 r 1) (suc n))
      (get_or-set_ne bytes (w % pipesize) (r % pipesize) c 0 apart)
    ∙ ap (λ cs. get_or bytes (r % pipesize) 0 ∷ cs)
        (window-set bytes c n (add32 r 1) w len (omega arith) (omega arith) (omega arith))

pub fresh-IsValid : (junk : List ℕ) → length junk ≡ pipesize → IsValid (fresh junk)
unfolding fresh
fresh-IsValid junk h = omega arith

module _ {p : Pipe} (v : IsValid p) where
  -- The test of `pipewrite` and that of `piperead` mean what they say, also when a counter wraps.
  pub full-held : full p ≡ true → held p ≡ pipesize
  full-held h = ground arith

  pub held-full : full p ≡ false → held p < pipesize
  held-full h = ground arith

  pub held-empty : empty p ≡ true → held p ≡ 0
  held-empty h = ground arith

  pub held-not_empty : empty p ≡ false → held p ≢ 0
  held-not_empty h = ground arith

  pub put-IsValid : (c : ℕ) → full p ≡ false → IsValid (put p c)
  unfolding put
  put-IsValid c h =
      let room : held p < pipesize = held-full h in
      omega (arith, length-set p.bytes (p.nwrite % pipesize) c)

  pub contents-put : (c : ℕ) → full p ≡ false → contents (put p c) ≡ contents p ++ (c ∷ [])
  unfolding put
  contents-put c h =
      let room : held p < pipesize = held-full h in
      let grown : held (put p c) ≡ suc (held p) = omega arith in
      ap (window (set p.bytes (p.nwrite % pipesize) c) p.nread) grown
      ∙ window-set p.bytes c (held p) p.nread p.nwrite v.ring room v.nread_small (omega arith)

  pub advance-IsValid : empty p ≡ false → IsValid (advance p)
  unfolding advance
  advance-IsValid h = let some_left : held p ≢ 0 = held-not_empty h in omega arith

  pub contents-advance : empty p ≡ false → contents p ≡ front p ∷ contents (advance p)
  unfolding advance
  contents-advance h =
      let some_left : held p ≢ 0 = held-not_empty h in
      let less : held p - 1 ≡ held (advance p) = omega arith in
      window_of_ne_zero p.bytes p.nread (held p) some_left
      ∙ ap (λ n. front p ∷ window p.bytes (add32 p.nread 1) n) less
