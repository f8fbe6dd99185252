-- ===== src/Format.antt =====
-- ulib/ulib.c: snprintf and sprintf.
-- Format and strings are lists of bytes without their NUL; an `int` is its pattern of 32 bits. An argument
-- that is missing or of the wrong kind, which C leaves undefined, is `none`. The size is not negative.
pub mod Digits
pub mod Emit
pub mod Buffer
mod Examples
use xv7_mirror.Base.{
  ℕ, zero, suc, ◌+◌, ◌-◌, ◌*◌, ◌/◌, ◌%◌, ◌^◌, ◌≤◌, Bool, true, false, ◌&&◌, Option, none, some,
  List, [], ◌∷◌, ltb, leb, ◌==◌, if◌then◌else◌,
}
use xv7_mirror.Str.{Mem, store}

pub data Arg : Type 0 where
  int : ℕ → Arg
  string : List ℕ → Arg

-- `buf` and `i`.
pub record Out : Type 0 where
  pub mem : Mem
  pub i : ℕ

-- `while (val > 0) { numbuf[j++] = ...; val /= base; }`, the array with its last entry first.
pub digit_loop : ℕ → (base val : ℕ) → (ℕ → ℕ) → List ℕ → List ℕ
digit_loop zero base val digit buf = buf
digit_loop (suc fuel) base val digit buf =
    let rest = digit_loop fuel base (val / base) digit (digit (val % base) ∷ buf) in
    if ltb 0 val then rest else buf

abbrev pub dec_digit : ℕ → ℕ
dec_digit d = b'0' + d

abbrev pub hex_digit : ℕ → ℕ
hex_digit d = if ltb d 10 then b'0' + d else b'a' + (d - 10)

abbrev pub is_negative : ℕ → Bool
is_negative v = leb (2 ^ 31) v

-- The digits of an `int` that is not zero; `val > 0` fails for a value that is still negative.
dec_digits : ℕ → List ℕ
dec_digits v = if is_negative v then [] else digit_loop 32 10 v dec_digit []

-- `numbuf` of %d, with its last entry first.
pub dec_buf : ℕ → List ℕ
unfolding dec_digits
dec_buf v =
    let a = if is_negative v then (2 ^ 32 - v) % 2 ^ 32 else v in
    let digits = if a == 0 then b'0' ∷ [] else dec_digits a in
    if is_negative v then b'-' ∷ digits else digits

-- `numbuf` of %x.
pub hex_buf : ℕ → List ℕ
hex_buf v = if v == 0 then b'0' ∷ [] else digit_loop 32 16 v hex_digit []

module _ (put : ℕ → Out → Out) where
  -- `for (k = j - 1; k >= 0; k--) ...`, and the loop of %s.
  pub put_all : List ℕ → Out → Out
  put_all [] o = o
  put_all (c ∷ cs) o = put_all cs (put c o)

  -- One conversion, by its letter.
  convert : ℕ → List Arg → Out → Option (List Arg × Out)
  convert p [] o =
      if p == b'd'
      then none
      else if p == b'x'
      then none
      else if p == b's'
      then none
      else if p == b'c'
      then none
      else some ([], put p o)
  convert p (int v ∷ args) o =
      if p == b'd'
      then some (args, put_all (dec_buf v) o)
      else if p == b'x'
      then some (args, put_all (hex_buf v) o)
      else if p == b's'
      then none
      else if p == b'c'
      then some (args, put (v % 256) o)
      else some (int v ∷ args, put p o)
  convert p (string s ∷ args) o =
      if p == b'd'
      then none
      else if p == b'x'
      then none
      else if p == b's'
      then some (args, put_all s o)
      else if p == b'c'
      then none
      else some (string s ∷ args, put p o)

  -- The loop over the format.
  pub format : List ℕ → List Arg → Out → Option Out
  unfolding convert
  format [] args o = some o
  format (c ∷ []) args o = if c == b'%' then some o else some (put c o)
  format (c ∷ p ∷ fmt) args o =
      let plain = format (p ∷ fmt) args (put c o) in
      let rest : Option Out = elim (convert p args o) [
        | none ↦ none
        | some (args', o') ↦ format fmt args' o'
      ] in
      if c == b'%' then rest else plain

-- `if (i < size - 1) buf[i++] = c;`
pub put_within : (buf size : ℕ) → ℕ → Out → Out
put_within buf size c o =
    if ltb (o.i + 1) size then record { mem = store (buf + o.i) c o.mem; i = o.i + 1 } else o

-- `buf[i++] = c;`
pub put_always : (buf : ℕ) → ℕ → Out → Out
put_always buf c o = record { mem = store (buf + o.i) c o.mem; i = o.i + 1 }

-- `buf[i] = '\0'; return i;`
pub terminate : ℕ → Option Out → Option (ℕ × Mem)
terminate buf none = none
terminate buf (some o) = some (o.i, store (buf + o.i) 0 o.mem)

pub snprintf : (buf size : ℕ) → List ℕ → List Arg → Mem → Option (ℕ × Mem)
snprintf buf size fmt args m =
    terminate buf (format (put_within buf size) fmt args (record { mem = m; i = 0 }))

pub sprintf : (buf : ℕ) → List ℕ → List Arg → Mem → Option (ℕ × Mem)
sprintf buf fmt args m =
    terminate buf (format (put_always buf) fmt args (record { mem = m; i = 0 }))
