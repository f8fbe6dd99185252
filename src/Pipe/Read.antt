-- ===== src/Pipe/Read.antt =====
-- What one activation of `piperead` does.
use xv7_mirror.Base.{
  ℕ, zero, suc, ◌≡◌, refl, ap, ◌∙◌, inl, inr, Bool, true, false, ◌&&◌, List, [], ◌∷◌, arith, ◌==◌,
  if◌then◌else◌, length, take, drop, Bool-cases,
}
use xv7_mirror.Pipe.{
  Pipe, Chan, on_nwrite, ReadOutcome, got, interrupted, waiting, empty, front, advance, copy_loop,
  piperead,
}
use xv7_mirror.Pipe.Ring.{
  IsValid, contents, window, held-empty, held-not_empty, advance-IsValid, contents-advance,
}
use xv7_mirror.Pipe.Write.{length-contents}

record Copied (p : Pipe) (n : ℕ) (r : List ℕ × Pipe) : Type 0 where
  pub valid : IsValid r.1
  pub bytes : r.0 ≡ take n (contents p)
  pub left : contents r.1 ≡ drop n (contents p)
  pub flags : (r.1.readopen ≡ p.readopen) × (r.1.writeopen ≡ p.writeopen)

flags-advance :
    (p : Pipe) → ((advance p).readopen ≡ p.readopen) × ((advance p).writeopen ≡ p.writeopen)
unfolding advance
flags-advance p = (refl, refl)

contents-empty : {p : Pipe} → IsValid p → empty p ≡ true → contents p ≡ []
contents-empty {p} v h = ap (window p.bytes p.nread) (held-empty v h)

copy_loop-Copied : (n : ℕ) {p : Pipe} → IsValid p → Copied p n (copy_loop n p)
unfolding copy_loop
copy_loop-Copied zero v = record { valid = v; bytes = refl; left = refl; flags = (refl, refl) }
copy_loop-Copied (suc n) {p} v = elim (Bool-cases (empty p)) [
  | inl h ↦ rw h (record {
    valid = v;
    bytes = rw (contents-empty v h);
    left = rw (contents-empty v h);
    flags = (refl, refl);
  })
  | inr h ↦
      let c = copy_loop-Copied n (advance-IsValid v h) in
      rw h (record {
        valid = c.valid;
        bytes = rw (contents-advance v h) (ap (λ ds. front p ∷ ds) c.bytes);
        left = rw (contents-advance v h) c.left;
        flags = (c.flags.0 ∙ (flags-advance p).0, c.flags.1 ∙ (flags-advance p).1);
      })
]

-- How a read must end on a pipe that holds `cs`.
unfoldable pub read_end :
    (killed writeopen : Bool) (n : ℕ) (cs : List ℕ) → ReadOutcome × List Chan × List ℕ
read_end killed open_end n cs =
    if (length cs == 0) && open_end
    then if killed then (interrupted, [], cs) else (waiting, [], cs)
    else (got (take n cs), on_nwrite ∷ [], drop n cs)

-- One activation of `piperead` on a valid pipe keeps it valid and changes neither flag. While the
-- ring is empty and the write end open it gives up if killed and otherwise sleeps; else it takes the
-- first `n` bytes, or all if there are fewer, in order, leaves the others and wakes the writers.
pub piperead_lem :
    (killed : Bool) (p : Pipe) (n : ℕ)
    → IsValid p
    → let (o, woken, q) = piperead killed p n in
      IsValid q
      × (q.readopen ≡ p.readopen)
      × (q.writeopen ≡ p.writeopen)
      × ◌≡◌ {A = ReadOutcome × List Chan × List ℕ}
          (o, woken, contents q)
          (read_end killed p.writeopen n (contents p))
unfolding piperead read_end
piperead_lem killed p n v = elim (Bool-cases (empty p)) [
  | inl h ↦ elim (Bool-cases p.writeopen) [
    | inl o ↦ elim (Bool-cases killed) [
      | inl k ↦ simp (h, o, k, contents-empty v h) (v, refl, refl, refl)
      | inr k ↦ simp (h, o, k, contents-empty v h) (v, refl, refl, refl)
    ]
    | inr o ↦ rw (stay h o) (copied (nothing h o))
  ]
  | inr h ↦ rw h (copied (ap (λ b. b && p.writeopen) (nonempty h)))
]
  where
    c : Copied p n (copy_loop n p)
    c = copy_loop-Copied n v

    nonempty : empty p ≡ false → (length (contents p) == 0) ≡ false
    nonempty h = ground (arith, length-contents p, held-not_empty v h)

    nothing :
        empty p ≡ true → p.writeopen ≡ false → ((length (contents p) == 0) && p.writeopen) ≡ false
    nothing h o = rw (contents-empty v h, o)

    stay : empty p ≡ true → p.writeopen ≡ false → (empty p && p.writeopen) ≡ false
    stay h o = rw (h, o)

    copied :
        ((length (contents p) == 0) && p.writeopen) ≡ false
        → IsValid (copy_loop n p).1
          × ((copy_loop n p).1.readopen ≡ p.readopen)
          × ((copy_loop n p).1.writeopen ≡ p.writeopen)
          × ◌≡◌ {A = ReadOutcome × List Chan × List ℕ}
              (got (copy_loop n p).0, on_nwrite ∷ [], contents (copy_loop n p).1)
              (read_end killed p.writeopen n (contents p))
    copied e = rw e (c.valid, c.flags.0, c.flags.1, rw (c.bytes, c.left))
