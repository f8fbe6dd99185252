-- ===== src/Ulib/Examples.antt =====
-- Runs of ulib/ulib.c on "hi" at 100 and "ho" at 200.
use xv7_mirror.Base.{ℕ, ◌≡◌, refl, List, [], ◌∷◌, arith, ◌==◌, if◌then◌else◌}
use xv7_mirror.Str
use xv7_mirror.Str.{Mem}
use xv7_mirror.Str.Cstring.{Str}
use xv7_mirror.Ulib.{memmove}

abbrev words : Mem
words a =
    if a == 100
    then 104
    else if a == 101
    then 105
    else if a == 200
    then 104
    else if a == 201
    then 111
    else 0

abbrev hi : List ℕ
hi = 104 ∷ 105 ∷ []

abbrev ho : List ℕ
ho = 104 ∷ 111 ∷ []

hi-Str : Str words 100 hi
hi-Str = (refl, omega arith, (refl, omega arith, refl))

ho-Str : Str words 200 ho
ho-Str = (refl, omega arith, (refl, omega arith, refl))

memmove_test : memmove 5 100 1 words 5 ≡ 104
unfolding memmove Str.store
memmove_test = refl
