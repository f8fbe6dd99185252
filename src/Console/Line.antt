-- ===== src/Console/Line.antt =====
-- The editor that the ring of the console implements: the characters that a reader may take, and a line
-- that is not finished.
pub mod Edit
pub mod Refine
use xv7_mirror.Base.Mem.{All}
use xv7_mirror.Base.{
  ℕ, zero, suc, ◌+◌, ◌-◌, ◌%◌, ◌^◌, ◌≤◌, ◌<◌, ◌≡◌, ◌≢◌, refl, ap, sym, subst, ◌∙◌, true, false,
  Bool, Bool-cases, List, [], ◌∷◌, ◌++◌, ◌==◌, ◌&&◌, ◌||◌, not, ltb, if◌then◌else◌, arith, length,
  length-append, Option, none, some, inl, inr, ==→eq, eq→==,
}
use xv7_mirror.Console.{
  Input, Effect, input_buf, newline, ctrl_c, ctrl_d, ctrl_h, ctrl_p, ctrl_u, delete, inc, dec,
  store_char, kill_line, erase_char, interrupt, cooked, accepts, ends_line, enter, typed, typed_all,
  consoleintr,
}
use xv7_mirror.Console.Window.{
  span, window, ready, edit, Editable, IsInput, length-window, window_same, window-add,
  window-store, window-store_end,
}

pub record Line : Type 0 where
  pub ready : List ℕ
  pub edit : List ℕ

abbrev pub line_of : Input → Line
line_of s = record { ready = ready s; edit = edit s }

pub drop_last : List ℕ → List ℕ
drop_last [] = []
drop_last (x ∷ []) = []
drop_last (x ∷ y ∷ ys) = x ∷ drop_last (y ∷ ys)

-- A character is store_char at the end of the line, unless there is no room; the line is finished by a newline,
-- by control-D, and when the room is used up.
pub add_char : ℕ → Line → Line
add_char c l =
    if not (c == 0) && ltb (length l.ready + length l.edit) input_buf
    then (if (cooked c == newline)
          || ((cooked c == ctrl_d) || (length l.ready + length l.edit + 1 == input_buf))
        then record { ready = l.ready ++ (l.edit ++ (cooked c ∷ [])); edit = [] }
        else record l { edit = l.edit ++ (cooked c ∷ []) })
    else l

-- Control-C, with a process in the foreground, leaves an empty line for the reader.
pub cut_off : Option ℕ → Line → Line
cut_off none l = l
cut_off (some p) l = record { ready = newline ∷ []; edit = [] }

pub typed_line : Option ℕ → ℕ → Line → Line
unfolding drop_last add_char cut_off
typed_line fg c l =
    if c == ctrl_p
    then l
    else if c == ctrl_u
    then record l { edit = [] }
    else if (c == ctrl_h) || (c == delete)
    then record l { edit = drop_last l.edit }
    else if c == ctrl_c
    then cut_off fg l
    else add_char c l

pub typed_lines : Option ℕ → List ℕ → Line → Line
typed_lines fg [] l = l
typed_lines fg (c ∷ cs) l = typed_lines fg cs (typed_line fg c l)
