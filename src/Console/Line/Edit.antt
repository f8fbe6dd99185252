-- ===== src/Console/Line/Edit.antt =====
-- The ring under a backspace, control-U and a stored character.
use xv7_mirror.Base.{
  ℕ, zero, suc, ◌+◌, ◌-◌, ◌%◌, ◌^◌, ◌≤◌, ◌<◌, ◌≡◌, ◌≢◌, refl, ap, sym, ◌∙◌, false, Bool-cases, List,
  [], ◌∷◌, ◌++◌, ◌==◌, arith, inl, inr, ==→eq,
}
use xv7_mirror.Console.{Input, input_buf, newline, inc, dec, store_char, kill_line}
use xv7_mirror.Console.Window.{
  span, window, ready, edit, Editable, IsInput, window_same, window-add, window-store,
  window-store_end,
}
use xv7_mirror.Console.Line.{line_of, drop_last}

drop_last-snoc : (xs : List ℕ) (x : ℕ) → drop_last (xs ++ (x ∷ [])) ≡ xs
unfolding drop_last
drop_last-snoc [] x = refl
drop_last-snoc (y ∷ []) x = refl
drop_last-snoc (y ∷ z ∷ zs) x = ap (λ us. y ∷ us) (drop_last-snoc (z ∷ zs) x)

-- The line without what is being edited.
pub emptied-IsInput : (s : Input) → IsInput s → IsInput (record s { e = s.w })
emptied-IsInput s v = record {
  r_small = v.r_small;
  w_small = v.w_small;
  e_small = v.w_small;
  order = omega (arith, v.w_small);
  fits = omega (arith, v.order, v.fits);
  room = λ h. omega (arith, v.w_small);
  clean = λ i lt. absurd (omega (arith, v.w_small));
}

-- Control-U takes off all that is being edited: there is no newline in it.
pub kill_line-e :
    (fuel : ℕ) (s : Input)
    → s.w < 2 ^ 32
    → s.e < 2 ^ 32
    → ((i : ℕ) → i < span s.w s.e → Editable (s.buf ((s.w + i) % input_buf)))
    → span s.w s.e ≤ fuel
    → (kill_line fuel s).0 ≡ record s { e = s.w }
unfolding kill_line
kill_line-e zero s ws es clean le =
    let same : s.e ≡ s.w = omega arith in ap (λ x. record s { e = x }) same
kill_line-e (suc fuel) s ws es clean le = elim (Bool-cases (s.e == s.w)) [
  | inl at_end ↦ simp at_end (ap (λ x. record s { e = x }) (==→eq s.e s.w at_end))
  | inr more ↦
      let ne : s.e ≢ s.w = ground arith in
      let place : (s.w + (span s.w s.e - 1)) % input_buf ≡ dec s.e % input_buf =
        omega (arith, ne) in
      let last : s.buf (dec s.e % input_buf) ≢ newline =
        rw place at ((clean (span s.w s.e - 1) (omega (arith, ne))).0) in
      let not_nl : (s.buf (dec s.e % input_buf) == newline) ≡ false = ground (arith, last) in
      let shorter : span s.w (dec s.e) + 1 ≡ span s.w s.e = omega (arith, ne) in
      simp (more, not_nl)
        (kill_line-e fuel (record s { e = dec s.e }) ws (omega arith)
          (λ i lt. clean i (omega (arith, shorter))) (omega (arith, shorter)))
]

-- Backspace.
module _ (s : Input) (v : IsInput s) (ne : s.e ≢ s.w) where
  abbrev pub back : Input
  back = record s { e = dec s.e }

  pub back-IsInput : IsInput back
  back-IsInput = record {
    r_small = v.r_small;
    w_small = v.w_small;
    e_small = omega arith;
    order = omega (arith, v.r_small, v.w_small, v.e_small, v.order, v.fits, ne);
    fits = omega (arith, v.r_small, v.w_small, v.e_small, v.order, v.fits, ne);
    room = λ h. omega (arith, v.r_small, v.w_small, v.e_small, v.order, v.fits, ne, h);
    clean = λ i lt. v.clean i (omega (arith, v.w_small, v.e_small, ne, lt));
  }

  pub back-edit : edit back ≡ drop_last (edit s)
  back-edit =
      let n : span s.w s.e ≡ span s.w (dec s.e) + 1 = omega (arith, v.w_small, v.e_small, ne) in
      rw (n, window-add s.buf s.w (span s.w (dec s.e)) 1)
        (sym (
          drop_last-snoc (window s.buf s.w (span s.w (dec s.e)))
            (s.buf ((s.w + span s.w (dec s.e)) % input_buf))))

-- A character that is stored.
module _ (s : Input) (v : IsInput s) (c : ℕ) (byte : c < 256)
    (room : span s.r s.e < input_buf) where
  pub store_char-span_w : span s.w (store_char c s).e ≡ span s.w s.e + 1
  unfolding store_char
  store_char-span_w = omega (arith, v.w_small, v.e_small, v.order, room)

  pub store_char-span_r : span s.r (store_char c s).e ≡ span s.r s.e + 1
  unfolding store_char
  store_char-span_r = omega (arith, v.r_small, v.e_small, room)

  store_char-ready : ready (store_char c s) ≡ ready s
  unfolding store_char
  store_char-ready =
      window-store s.buf s.r (span s.r s.w) s.e (c % 256)
        (λ i lt h. omega (arith, v.r_small, v.w_small, v.e_small, v.order, room, lt, h))

  store_char-edit : edit (store_char c s) ≡ edit s ++ (c ∷ [])
  unfolding store_char
  store_char-edit =
      let low : c % 256 ≡ c = omega (arith, byte) in
      ap (λ n. window (store_char c s).buf s.w n) store_char-span_w
      ∙ window-store_end s.buf s.w (span s.w s.e) s.e (c % 256) (omega (arith, v.order, room))
          (omega (arith, v.w_small, v.e_small))
      ∙ ap (λ x. edit s ++ (x ∷ [])) low

  store_char-all :
      window (store_char c s).buf s.r (span s.r (store_char c s).e)
      ≡ ready s ++ (edit s ++ (c ∷ []))
  unfolding store_char
  store_char-all =
      let b = (store_char c s).buf in
      let total : span s.r (store_char c s).e ≡ span s.r s.w + span s.w (store_char c s).e =
        omega (arith, store_char-span_r, store_char-span_w, v.order) in
      rw total (window-add b s.r (span s.r s.w) (span s.w (store_char c s).e))
      ∙ ap (λ xs. window b s.r (span s.r s.w) ++ xs)
          (window_same b (s.r + span s.r s.w) s.w (span s.w (store_char c s).e)
            (omega (arith, v.r_small, v.w_small)))
      ∙ ap (λ xs. xs ++ edit (store_char c s)) store_char-ready
      ∙ ap (λ xs. ready s ++ xs) store_char-edit

  pub filled : (span s.r s.e + 1 == input_buf) ≡ ((store_char c s).e == (s.r + input_buf) % 2 ^ 32)
  unfolding store_char
  filled = ground (arith, v.r_small, v.e_small)

  pub done_line :
      line_of (record (store_char c s) { w = (store_char c s).e })
      ≡ record { ready = ready s ++ (edit s ++ (c ∷ [])); edit = [] }
  unfolding store_char
  done_line =
      let none : span (inc s.e) (inc s.e) ≡ 0 = omega arith in
      rw none (ap (λ xs. record { ready = xs; edit = [] }) store_char-all)

  pub stays_line : line_of (store_char c s) ≡ record { ready = ready s; edit = edit s ++ (c ∷ []) }
  stays_line = rw (store_char-ready, store_char-edit) refl

  filled-end :
      ((store_char c s).e == (s.r + input_buf) % 2 ^ 32) ≡ false
      → span s.r (store_char c s).e ≢ input_buf
  unfolding store_char
  filled-end more h = ground (arith, v.r_small, v.e_small)

  store_char-Editable :
      Editable c
      → (i : ℕ) → i < span s.w s.e + 1
      → Editable ((store_char c s).buf ((s.w + i) % input_buf))
  unfolding store_char
  store_char-Editable ok i lt = elim (Bool-cases ((s.w + i) % input_buf == s.e % input_buf)) [
    | inl here ↦ let low : c % 256 ≡ c = omega (arith, byte) in rw (here, low) ok
    | inr other ↦
        let before : i < span s.w s.e = ground (arith, v.w_small, v.e_small) in
        rw other (v.clean i before)
  ]

  -- The character stays in the line.
  pub store_char-IsInput :
      Editable c
      → ((store_char c s).e == (s.r + input_buf) % 2 ^ 32) ≡ false
      → IsInput (store_char c s)
  unfolding store_char
  store_char-IsInput ok more = record {
    r_small = v.r_small;
    w_small = v.w_small;
    e_small = omega arith;
    order = omega (arith, store_char-span_w, store_char-span_r, v.order);
    fits = omega (arith, store_char-span_r, room);
    room = λ h. absurd (filled-end more h);
    clean = λ i lt. store_char-Editable ok i (omega (arith, lt, store_char-span_w));
  }

  -- The line is finished.
  pub store_char-done : IsInput (record (store_char c s) { w = (store_char c s).e })
  unfolding store_char
  store_char-done = record {
    r_small = v.r_small;
    w_small = omega arith;
    e_small = omega arith;
    order = omega arith;
    fits = omega (arith, store_char-span_r, room);
    room = λ h. omega arith;
    clean = λ i lt. absurd (omega (arith, lt));
  }
