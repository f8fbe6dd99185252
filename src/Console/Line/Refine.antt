-- ===== src/Console/Line/Refine.antt =====
-- `consoleintr` implements the editor.
use xv7_mirror.Base.{◌≡◌}
use xv7_mirror.Console.{Input}
use xv7_mirror.Console.Window.{IsInput}
use xv7_mirror.Console.Line.{Line, line_of}

-- What an operation does to the ring, seen as a line.
pub record Does (s : Input) (l : Line) (t : Input) : Type 0 where
  pub valid : IsInput t
  pub line : line_of t ≡ l
  pub fgproc : t.fgproc ≡ s.fgproc
