-- ===== src/Console/Read.antt =====
-- What `consoleread` takes from the ring.
use xv7_mirror.Base.Mem.{All}
use xv7_mirror.Base.{
  ℕ, ◌+◌, ◌%◌, ◌≤◌, ◌<◌, ◌≡◌, ◌≢◌, ◌⊎◌, true, false, Bool, List, [], ◌∷◌, ◌++◌, length,
}
use xv7_mirror.Console.{Input, Progress, returns, fails, sleeps, input_buf, newline, ctrl_d, inc}
use xv7_mirror.Console.Window.{ready, edit, IsInput}

-- The last byte is a newline.
abbrev pub EndsLine : List ℕ → Type 0
EndsLine [] = ⊥
EndsLine (c ∷ []) = c ≡ newline
EndsLine (c ∷ d ∷ ds) = EndsLine (d ∷ ds)

-- The next byte is a control-D.
abbrev pub StartsEof : List ℕ → Type 0
StartsEof [] = ⊥
StartsEof (c ∷ cs) = c ≡ ctrl_d

-- Why `consoleread` stops.
abbrev pub Stops : Bool → (target n : ℕ) → Progress → List ℕ → List ℕ → Type 0
Stops interrupted target n (returns k) bytes rest =
    (k + n ≡ target + length bytes) × ((length bytes ≡ n) ⊎ (EndsLine bytes ⊎ StartsEof rest))
Stops interrupted target n fails bytes rest = (interrupted ≡ true) × (rest ≡ [])
Stops interrupted target n (sleeps m) bytes rest =
    (interrupted ≡ false) × (rest ≡ []) × (m + length bytes ≡ n) × (0 < m)

-- An end of file is a control-D in front, of which nothing is stored.
abbrev pub AtEof : (target n : ℕ) → Input → Progress → List ℕ → Input → Type 0
AtEof target n s p bytes u =
    (n ≡ target) × (p ≡ returns 0) × (bytes ≡ []) × (ready s ≡ ctrl_d ∷ ready u)

pub record Reads (interrupted : Bool) (target n : ℕ) (s : Input) (p : Progress) (bytes : List ℕ)
    (u : Input) : Type 0 where
  pub valid : IsInput u
  pub line : edit u ≡ edit s
  pub no_eof : All (λ c. c ≢ ctrl_d) bytes
  pub most : length bytes ≤ n
  pub taken :
      ((ready s ≡ bytes ++ ready u) × Stops interrupted target n p bytes (ready u))
      ⊎ AtEof target n s p bytes u

-- The byte that is taken.
module _ (s : Input) (v : IsInput s) (ne : s.r ≢ s.w) where
  abbrev front : ℕ
  front = s.buf (s.r % input_buf)

  abbrev after : Input
  after = record s { r = inc s.r }
