-- ===== src/Console.antt =====
-- kernel/dev/char/console.c: consoleintr and consoleread, the input of the console as lines that can
-- be edited. `buf` is a function of its index; a character is the `int` that `getc` gives. What goes out
-- (to the screen, to processes) is a list of effects. `cons.lock` makes a call of consoleintr, and what
-- consoleread does between two sleeps, one step; the lock of the inode is left out.
pub mod Window
pub mod Line
pub mod Read
mod Examples
use xv7_mirror.Base.{
  ℕ, zero, suc, ◌+◌, ◌-◌, ◌%◌, ◌^◌, Bool, true, false, ◌&&◌, ◌||◌, not, Option, none, some, List,
  [], ◌∷◌, ◌++◌, ltb, ◌==◌, if◌then◌else◌,
}

-- INPUT_BUF
abbrev pub input_buf : ℕ
input_buf = 128

-- `struct input_struct`, with the number of the process for `fgproc`.
pub record Input : Type 0 where
  pub buf : ℕ → ℕ
  pub r : ℕ
  pub w : ℕ
  pub e : ℕ
  pub fgproc : Option ℕ

-- `consputc`, `kill(..., SIGINT)`, `wakeup(&input.r)`, `procdump()`
pub data Effect : Type 0 where
  puts : ℕ → Effect
  interrupts : ℕ → Effect
  wakes : Effect
  dumps : Effect

-- BACKSPACE, '\n' and the control characters.
abbrev pub backspace : ℕ
backspace = 0x100

abbrev pub newline : ℕ
newline = 10

abbrev pub ctrl_c : ℕ
ctrl_c = 3

abbrev pub ctrl_d : ℕ
ctrl_d = 4

abbrev pub ctrl_h : ℕ
ctrl_h = 8

abbrev pub ctrl_p : ℕ
ctrl_p = 16

abbrev pub ctrl_u : ℕ
ctrl_u = 21

abbrev pub delete : ℕ
delete = 127

-- Sums and differences of `uint`.
abbrev pub inc : ℕ → ℕ
inc x = (x + 1) % 2 ^ 32

abbrev pub dec : ℕ → ℕ
dec x = (x + 2 ^ 32 - 1) % 2 ^ 32

-- `input.buf[input.e++ % INPUT_BUF] = c;`
pub store_char : ℕ → Input → Input
store_char c s = record s {
  buf = λ i. if i == s.e % input_buf then c % 256 else s.buf i;
  e = inc s.e;
}

-- `while (input.e != input.w && input.buf[(input.e - 1) % INPUT_BUF] != '\n') ...`
pub kill_line : ℕ → Input → Input × List Effect
kill_line zero s = (s, [])
kill_line (suc fuel) s =
    let (t, out) = kill_line fuel (record s { e = dec s.e }) in
    if not (s.e == s.w) && not (s.buf (dec s.e % input_buf) == newline)
    then (t, puts backspace ∷ out)
    else (s, [])

pub erase_char : Input → Input × List Effect
erase_char s = if s.e == s.w then (s, []) else (record s { e = dec s.e }, puts backspace ∷ [])

-- Control-C.
pub interrupt : Option ℕ → Input → Input × List Effect
unfolding store_char
interrupt none s = (s, [])
interrupt (some p) s =
    let t = store_char newline (record s { e = s.r }) in
    (record t { w = t.e }, interrupts p ∷ wakes ∷ [])

abbrev pub cooked : ℕ → ℕ
cooked c = if c == b'\r' then newline else c

-- `c != 0 && input.e - input.r < INPUT_BUF`
abbrev pub accepts : ℕ → Input → Bool
accepts c s = not (c == 0) && ltb ((s.e + 2 ^ 32 - s.r) % 2 ^ 32) input_buf

-- `c == '\n' || c == C('D') || input.e == input.r + INPUT_BUF`
abbrev pub ends_line : ℕ → Input → Bool
ends_line c s = (c == newline) || ((c == ctrl_d) || (s.e == (s.r + input_buf) % 2 ^ 32))

pub enter : ℕ → Input → Input × List Effect
enter c s =
    let t = store_char (cooked c) s in
    if accepts c s
    then (if ends_line (cooked c) t
        then (record t { w = t.e }, puts (cooked c) ∷ wakes ∷ [])
        else (t, puts (cooked c) ∷ []))
    else (s, [])

-- One round of the loop of `consoleintr`; control-P is dealt with at its end.
pub typed : ℕ → Input → Input × List Effect
unfolding kill_line erase_char interrupt enter
typed c s =
    if c == ctrl_p
    then (s, [])
    else if c == ctrl_u
    then kill_line input_buf s
    else if (c == ctrl_h) || (c == delete)
    then erase_char s
    else if c == ctrl_c
    then interrupt s.fgproc s
    else enter c s

-- The loop over what `getc` gives until it gives a negative number.
pub typed_all : List ℕ → Input → Input × List Effect
typed_all [] s = (s, [])
typed_all (c ∷ cs) s =
    let (t, out) = typed c s in let (u, more) = typed_all cs t in (u, out ++ more)

abbrev pub has_dump : List ℕ → Bool
has_dump [] = false
has_dump (c ∷ cs) = (c == ctrl_p) || has_dump cs

pub consoleintr : List ℕ → Input → Input × List Effect
consoleintr cs s =
    let (t, out) = typed_all cs s in (t, out ++ (if has_dump cs then dumps ∷ [] else []))

-- How `consoleread` goes on: it returns the number of bytes or -1, or sleeps with `n` to go.
pub data Progress : Type 0 where
  returns : ℕ → Progress
  fails : Progress
  sleeps : (n : ℕ) → Progress

-- `consoleread` with `n` bytes of `target` to go, up to its end or its next sleep, and the bytes that it
-- stores; `interrupted` says that the process was killed or has a signal.
pub consoleread : (interrupted : Bool) → (target n : ℕ) → Input → Progress × List ℕ × Input
consoleread interrupted target zero s = (returns target, [], s)
consoleread interrupted target (suc n) s =
    let c = s.buf (s.r % input_buf) in
    let t = record s { r = inc s.r } in
    let (p, bytes, u) = consoleread interrupted target n t in
    if s.r == s.w
    then ((if interrupted then fails else sleeps (suc n)), [], s)
    else if c == ctrl_d
    then (returns (target - suc n), [], if ltb (suc n) target then record t { r = dec t.r } else t)
    else if c == newline
    then (returns (target - n), c ∷ [], t)
    else (p, c ∷ bytes, u)
