-- ===== src/Console/Examples.antt =====
-- A line is typed and read, with counters at their wrap-around.
use xv7_mirror.Base.{ℕ, ◌≡◌, refl, false, some, if◌then◌else◌, ◌==◌, List, [], ◌∷◌}
use xv7_mirror.Console.{
  Input, consoleintr, consoleread, typed, typed_all, store_char, erase_char, enter,
}

abbrev blank : Input
blank = record { buf = λ i. 0; r = 0xffff_ffff; w = 0xffff_ffff; e = 0xffff_ffff; fgproc = some 7 }

-- "ab", backspace, "c" and a carriage return.
abbrev keys : List ℕ
keys = b'a' ∷ b'b' ∷ 127 ∷ b'c' ∷ 13 ∷ []

read-test : (consoleread false 10 10 (consoleintr keys blank).0).1 ≡ b'a' ∷ b'c' ∷ 10 ∷ []
unfolding consoleread consoleintr typed_all typed enter erase_char store_char
read-test = refl

abbrev one_line : Input
one_line = record { buf = λ i. if i == 0 then b'a' else 10; r = 0; w = 2; e = 2; fgproc = some 7 }
