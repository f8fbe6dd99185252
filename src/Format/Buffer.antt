-- ===== src/Format/Buffer.antt =====
-- The buffer that `snprintf` and `sprintf` fill.
use xv7_mirror.Base.{
  ℕ, suc, ◌+◌, ◌-◌, ◌≤◌, ◌<◌, ◌≡◌, refl, sym, ◌∙◌, inl, inr, ◌⊎◌, true, false, List, [], ◌∷◌, arith,
  ltb, ◌==◌, Bool-cases, Option, none, some, length, get_or, min, eq→==, ==→eq, ltb→lt,
}
use xv7_mirror.Str.{Mem, store}
use xv7_mirror.Format.{Arg, Out, put_all, put_within, terminate, snprintf}
use xv7_mirror.Format.Emit.{render, emit, format-render}

module _ (buf size : ℕ) where
  -- From `o` on, as much of the text as there is room for.
  record Filled (text : List ℕ) (o t : Out) : Type 0 where
    count : t.i ≡ min (o.i + length text) (size - 1)
    bytes : (j : ℕ) → o.i ≤ j → j < t.i → t.mem (buf + j) ≡ get_or text (j - o.i) 0
    others : (a : ℕ) → ((a < buf + o.i) ⊎ (buf + t.i ≤ a)) → t.mem a ≡ o.mem a

  Filled-full :
      (text : List ℕ) (o : Out) → o.i + 1 ≡ size → put_all (put_within buf size) text o ≡ o
  unfolding put_all put_within
  Filled-full [] o full = refl
  Filled-full (c ∷ text) o full =
      let stop : ltb (o.i + 1) size ≡ false = ground arith in rw stop (Filled-full text o full)

  abbrev with_byte : ℕ → Out → Out
  with_byte c o = record { mem = store (buf + o.i) c o.mem; i = o.i + 1 }

  get_or-cons :
      (c : ℕ) (text : List ℕ) (j i : ℕ)
      → i < j
      → get_or (c ∷ text) (j - i) 0 ≡ get_or text (j - (i + 1)) 0
  get_or-cons c text j i lt = let e : j - i ≡ suc (j - (i + 1)) = omega arith in rw e

  Filled-cons :
      (c : ℕ) (text : List ℕ) (o t : Out)
      → o.i + 1 < size
      → Filled text (with_byte c o) t
      → Filled (c ∷ text) o t
  unfolding store
  Filled-cons c text o t room f =
      let n = f.count in
      record {
        count = omega arith;
        bytes = λ j lo hi. elim (Bool-cases (j == o.i)) [
          | inl first ↦
              let e : j ≡ o.i = ==→eq j o.i first in
              let same : (buf + j == buf + o.i) ≡ true =
                eq→== (buf + j) (buf + o.i) (omega arith) in
              let z : j - o.i ≡ 0 = omega arith in
              f.others (buf + j) (inl (omega arith)) ∙ rw (same, z)
          | inr later ↦
              let lt : o.i < j = ground arith in
              f.bytes j (omega arith) hi ∙ sym (get_or-cons c text j o.i lt)
        ];
        others = λ a h.
            let away : (a == buf + o.i) ≡ false = ground (arith, n) in
            f.others a (elim h [ inl x ↦ inl (omega arith) | inr x ↦ inr x ]) ∙ rw away;
      }

  put_all-Filled :
      (text : List ℕ) (o : Out) → o.i < size → Filled text o (put_all (put_within buf size) text o)
  unfolding put_all put_within
  put_all-Filled [] o room = record {
    count = omega arith;
    bytes = λ j lo hi. absurd (omega arith);
    others = λ a h. refl;
  }
  put_all-Filled (c ∷ text) o room = elim (Bool-cases (ltb (o.i + 1) size)) [
    | inl more ↦
        let lt = ltb→lt (o.i + 1) size more in
        rw more (
          Filled-cons c text o (put_all (put_within buf size) text (with_byte c o)) lt
            (put_all-Filled text (with_byte c o) lt))
    | inr stop ↦
        let e = Filled-full text o (ground arith) in
        rw (stop, e)
          (record {
            count = ground arith;
            bytes = λ j lo hi. absurd (omega arith);
            others = λ a h. refl;
          })
  ]

  -- The text, cut to the room, and a NUL stand at `buf`; the number of its bytes is returned.
  pub record Printed (text : List ℕ) (m : Mem) (k : ℕ) (m' : Mem) : Type 0 where
    pub count : k ≡ min (length text) (size - 1)
    pub inside : k < size
    pub bytes : (j : ℕ) → j < k → m' (buf + j) ≡ get_or text j 0
    pub nul : m' (buf + k) ≡ 0
    pub others : (a : ℕ) → ((a < buf) ⊎ (buf + size ≤ a)) → m' a ≡ m a

  abbrev pub Prints : Option (List ℕ) → Mem → Option (ℕ × Mem) → Type 0
  Prints none m r = r ≡ none
  Prints (some text) m r = (k : ℕ) × (m' : Mem) × (r ≡ some (k, m')) × Printed text m k m'

  printed :
      (r : Option (List ℕ)) (m : Mem)
      → 0 < size
      → Prints r m (terminate buf (emit (put_within buf size) (record { mem = m; i = 0 }) r))
  unfolding terminate store
  printed none m pos = refl
  printed (some text) m pos =
      let start : Out = record { mem = m; i = 0 } in
      let t = put_all (put_within buf size) text start in
      let f = put_all-Filled text start pos in
      let n = f.count in
      (
        t.i,
        store (buf + t.i) 0 t.mem,
        refl,
        record {
          count = omega arith;
          inside = omega arith;
          bytes = λ j lt.
              let away : (buf + j == buf + t.i) ≡ false = ground arith in
              let z : j - 0 ≡ j = omega arith in rw away (rw z at (f.bytes j (omega arith) lt));
          nul = rw (eq→== (buf + t.i) (buf + t.i) refl);
          others = λ a h.
              let away : (a == buf + t.i) ≡ false = ground (arith, n) in
              rw away
                (f.others a (elim h [ inl x ↦ inl (omega arith) | inr x ↦ inr (omega arith) ]));
        },
      )

  -- `snprintf` into a buffer of `size` bytes, one at least: it writes the text of the format, cut to
  -- `size - 1` bytes, and a NUL, returns the number of bytes before the NUL, and changes no byte outside
  -- of the buffer. It is undefined exactly where the arguments do not fit the format.
  pub snprintf_lem :
      (fmt : List ℕ) (args : List Arg) (m : Mem)
      → 0 < size
      → Prints (render fmt args) m (snprintf buf size fmt args m)
  unfolding snprintf
  snprintf_lem fmt args m pos =
      rw (format-render (put_within buf size) fmt args (record { mem = m; i = 0 }))
        (printed (render fmt args) m pos)
