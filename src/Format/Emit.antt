-- ===== src/Format/Emit.antt =====
-- What a format with its arguments says, apart from any buffer.
use xv7_mirror.Base.{
  ℕ, ◌≡◌, refl, ap, sym, ◌∙◌, inl, inr, ◌%◌, List, [], ◌∷◌, ◌++◌, arith, ◌==◌, if◌then◌else◌,
  Bool-cases, Option, none, some,
}
use xv7_mirror.Format.{Arg, Out, dec_buf, hex_buf, put_all, convert, format}
use xv7_mirror.Format.Arg.{int, string}

-- What one conversion says, and the arguments that it leaves.
unfoldable pub said : ℕ → List Arg → Option (List Arg × List ℕ)
said p [] =
    if p == b'd'
    then none
    else if p == b'x'
    then none
    else if p == b's'
    then none
    else if p == b'c'
    then none
    else some ([], p ∷ [])
said p (int v ∷ args) =
    if p == b'd'
    then some (args, dec_buf v)
    else if p == b'x'
    then some (args, hex_buf v)
    else if p == b's'
    then none
    else if p == b'c'
    then some (args, (v % 256) ∷ [])
    else some (int v ∷ args, p ∷ [])
said p (string s ∷ args) =
    if p == b'd'
    then none
    else if p == b'x'
    then none
    else if p == b's'
    then some (args, s)
    else if p == b'c'
    then none
    else some (string s ∷ args, p ∷ [])

abbrev pub prepend : List ℕ → Option (List ℕ) → Option (List ℕ)
prepend xs none = none
prepend xs (some ys) = some (xs ++ ys)

unfoldable pub render : List ℕ → List Arg → Option (List ℕ)
render [] args = some []
render (c ∷ []) args = if c == b'%' then some [] else some (c ∷ [])
render (c ∷ p ∷ fmt) args =
    let plain = prepend (c ∷ []) (render (p ∷ fmt) args) in
    let rest : Option (List ℕ) = elim (said p args) [
      | none ↦ none
      | some (args', text) ↦ prepend text (render fmt args')
    ] in
    if c == b'%' then rest else plain

module _ (put : ℕ → Out → Out) where
  abbrev pub emit : Out → Option (List ℕ) → Option Out
  emit o none = none
  emit o (some text) = some (put_all put text o)

  abbrev emit_said : Out → Option (List Arg × List ℕ) → Option (List Arg × Out)
  emit_said o none = none
  emit_said o (some (args, text)) = some (args, put_all put text o)

  put_all-append :
      (xs ys : List ℕ) (o : Out) → put_all put (xs ++ ys) o ≡ put_all put ys (put_all put xs o)
  unfolding put_all
  put_all-append [] ys o = refl
  put_all-append (x ∷ xs) ys o = put_all-append xs ys (put x o)

  emit-prepend :
      (xs : List ℕ) (r : Option (List ℕ)) (o : Out)
      → emit o (prepend xs r) ≡ emit (put_all put xs o) r
  emit-prepend xs none o = refl
  emit-prepend xs (some ys) o = ap some (put_all-append xs ys o)

  convert-said :
      (p : ℕ) (args : List Arg) (o : Out) → convert put p args o ≡ emit_said o (said p args)
  unfolding convert said put_all
  convert-said p [] o = ground arith
  convert-said p (int v ∷ args) o = ground arith
  convert-said p (string s ∷ args) o = ground arith

  -- The rest of the format, behind a conversion.
  rest-render :
      (fmt : List ℕ) (o : Out) (r : Option (List Arg × List ℕ)) (q : Option (List Arg × Out))
      → q ≡ emit_said o r
      → ((args : List Arg) (o : Out) → format put fmt args o ≡ emit o (render fmt args))
      → (let next : Option Out = elim q [
        | none ↦ none
        | some (args', o') ↦ format put fmt args' o'
      ] in
          next)
        ≡ emit o (
            let all : Option (List ℕ) = elim r [
              | none ↦ none
              | some (args', text) ↦ prepend text (render fmt args')
            ] in
            all)
  rest-render fmt o none q e ih = rw e
  rest-render fmt o (some (args', text)) q e ih =
      rw e (ih args' (put_all put text o) ∙ sym (emit-prepend text (render fmt args') o))

  -- Writing by any `put` is writing the text of the format.
  pub format-render :
      (fmt : List ℕ) (args : List Arg) (o : Out) → format put fmt args o ≡ emit o (render fmt args)
  unfolding format render put_all
  format-render [] args o = refl
  format-render (c ∷ []) args o = ground arith
  format-render (c ∷ p ∷ fmt) args o = elim (Bool-cases (c == b'%')) [
    | inr plain ↦ rw plain (
        format-render (p ∷ fmt) args (put c o)
        ∙ sym (emit-prepend (c ∷ []) (render (p ∷ fmt) args) o))
    | inl letter ↦ rw letter (
        rest-render fmt o (said p args) (convert put p args o) (convert-said p args o)
          (λ args' o'. format-render fmt args' o'))
  ]
