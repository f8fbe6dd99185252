-- ===== src/Str/Examples.antt =====
-- Runs of kernel/string.c.
use xv7_mirror.Base.{
  ℕ, ◌+◌, ◌-◌, ◌≡◌, refl, List, [], ◌∷◌, arith, ltb, leb, ◌==◌, ◌&&◌, if◌then◌else◌,
}
use xv7_mirror.Str.{Mem, memmove}
use xv7_mirror.Str.Move.{memmove_lem}
use xv7_mirror.Str.Cstring.{Str}

abbrev counting : Mem
counting a = a

memmove_lem_example :
    memmove 12 10 5 counting 13
    ≡ (if leb 12 13 && ltb 13 (12 + 5) then counting (10 + (13 - 12)) else counting 13)
memmove_lem_example = memmove_lem 12 10 5 counting 13

-- "hi" at 100, and "ho" at 200.
abbrev words : Mem
words a =
    if a == 100
    then 104
    else if a == 101
    then 105
    else if a == 200
    then 104
    else if a == 201
    then 111
    else 0

abbrev hi : List ℕ
hi = 104 ∷ 105 ∷ []

abbrev ho : List ℕ
ho = 104 ∷ 111 ∷ []

hi-Str : Str words 100 hi
hi-Str = (refl, omega arith, (refl, omega arith, refl))

ho-Str : Str words 200 ho
ho-Str = (refl, omega arith, (refl, omega arith, refl))
