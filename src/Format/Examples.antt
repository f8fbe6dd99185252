-- ===== src/Format/Examples.antt =====
-- Tests of `snprintf`, and its theorems at concrete formats.
use xv7_mirror.Base.{ℕ, ◌≡◌, refl, List, [], ◌∷◌, arith}
use xv7_mirror.Str.{Mem}
use xv7_mirror.Format.{Arg, dec_buf, snprintf}
use xv7_mirror.Format.Arg.{int}
use xv7_mirror.Format.Digits.{read_int, read_int-dec_buf}
use xv7_mirror.Format.Emit.{render}
use xv7_mirror.Format.Buffer.{Prints, snprintf_lem}

-- "x=%d%%"
abbrev percent : List ℕ
percent = b'x' ∷ b'=' ∷ b'%' ∷ b'd' ∷ b'%' ∷ b'%' ∷ []

abbrev minus_twelve : List Arg
minus_twelve = int 0xffff_fff4 ∷ []

abbrev blank : Mem
blank a = 7

-- The least `int` loses its digits.
least-test : dec_buf 0x8000_0000 ≡ b'-' ∷ []
unfolding dec_buf
least-test = refl

snprintf_lem_example :
    Prints 100 5 (render percent minus_twelve) blank (snprintf 100 5 percent minus_twelve blank)
snprintf_lem_example = snprintf_lem 100 5 percent minus_twelve blank (omega arith)

read_int-dec_buf_example : read_int (dec_buf 0xffff_fff4) ≡ 0xffff_fff4
read_int-dec_buf_example = read_int-dec_buf 0xffff_fff4 (omega arith) (λ e. omega arith)
