-- ===== src/PathName/Examples.antt =====
-- A run of namex: "/usr//a" in a tree where the root is 1.
use mathlib.Core.Option
use xv7_mirror.Base.{ℕ, ◌≡◌, Bool, false, Option, some, List, [], ◌∷◌, arith, suc, ltb, replicate}
use xv7_mirror.PathName.{namex}
use xv7_mirror.PathName.Elements.{elements}
use xv7_mirror.PathName.Walk.{resolve, start, namex_lem}

abbrev usr_a : List ℕ
usr_a = 47 ∷ 117 ∷ 115 ∷ 114 ∷ 47 ∷ 47 ∷ 97 ∷ []

-- Inodes 1 and 2 are directories; each entry of `n` leads to `n + 1`.
abbrev small : ℕ → Bool
small n = ltb n 3

abbrev following : ℕ → List ℕ → Option ℕ
following n name = some (suc n)

namex_lem_example :
    Option.map
      (λ (r : Option ℕ × List ℕ). r.0)
      (namex small following 9 false 1 2 usr_a (replicate 14 0))
    ≡ some (resolve small following (start 1 2 usr_a) (elements usr_a))
namex_lem_example =
    namex_lem small following 9 1 2 usr_a (replicate 14 0)
      (
        omega arith,
        (
          omega arith,
          (omega arith, (omega arith, (omega arith, (omega arith, (omega arith, tt))))),
        ),
      )
      (omega arith)
