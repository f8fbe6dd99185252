-- ===== src/Pipe/Write.antt =====
-- What one activation of `pipewrite` does.
use mathlib.Core.List.{append-nil, append_assoc}
use xv7_mirror.Base.{
  ℕ, suc, ◌+◌, ◌-◌, ◌<◌, ◌≡◌, refl, ap, sym, ◌∙◌, inl, inr, Bool, true, false, not, ◌||◌, List, [],
  ◌∷◌, ◌++◌, arith, leb, ◌≢◌, if◌then◌else◌, length, take, take-nil, take-cons, take_of_zero,
  Bool-cases,
}
use xv7_mirror.Pipe.{
  Pipe, Chan, on_nread, Outcome, returned, failed, asleep, pipesize, full, put, write_loop,
  pipewrite,
}
use xv7_mirror.Pipe.Ring.{
  IsValid, held, contents, length-window, full-held, held-full, put-IsValid, contents-put,
}

-- The room that is left in the ring.
abbrev pub room : Pipe → ℕ
room p = pipesize - held p

-- How an activation must end that has `i` bytes behind it, `m` to write and room for `r`.
pub write_end : (stop : Bool) (m r i : ℕ) → Outcome × List Chan
write_end stop m r i =
    if leb m r
    then (returned (i + m), on_nread ∷ [])
    else if stop
    then (failed, [])
    else (asleep (i + r), on_nread ∷ [])

-- A writer that finds the ring full gives up at once if nobody reads, or if it is killed.
abbrev pub stops : Bool → Pipe → Bool
stops killed p = not p.readopen || killed

write_end-zero : (stop : Bool) (r i : ℕ) → (returned i, on_nread ∷ []) ≡ write_end stop 0 r i
unfolding write_end
write_end-zero stop r i = ground arith

write_end-full :
    (stop : Bool) (m r i : ℕ)
    → r ≡ 0
    → (if stop then (failed, []) else (asleep i, on_nread ∷ [])) ≡ write_end stop (suc m) r i
unfolding write_end
write_end-full stop m r i e = ground arith

write_end-suc :
    (stop : Bool) (m r s i : ℕ)
    → r ≡ suc s
    → write_end stop m s (i + 1) ≡ write_end stop (suc m) r i
unfolding write_end
write_end-suc stop m r s i e = ground arith

record Wrote (killed : Bool) (p : Pipe) (cs : List ℕ) (i : ℕ) (r : Outcome × List Chan × Pipe)
    : Type 0 where
  pub valid : IsValid r.2
  pub moved : contents r.2 ≡ contents p ++ take (room p) cs
  pub ends :
      ◌≡◌ {A = Outcome × List Chan} (r.0, r.1) (write_end (stops killed p) (length cs) (room p) i)
  pub flags : (r.2.readopen ≡ p.readopen) × (r.2.writeopen ≡ p.writeopen)

pub length-contents : (p : Pipe) → length (contents p) ≡ held p
length-contents p = length-window p.bytes p.nread (held p)

held-put : {p : Pipe} → IsValid p → (c : ℕ) → full p ≡ false → held (put p c) ≡ held p + 1
unfolding put
held-put {p} v c h = let less : held p < pipesize = held-full v h in omega arith

flags-put :
    (p : Pipe) (c : ℕ) → ((put p c).readopen ≡ p.readopen) × ((put p c).writeopen ≡ p.writeopen)
unfolding put
flags-put p c = (refl, refl)

-- One more byte in front of what the rest of the loop does.
Wrote-put :
    (killed : Bool) (c : ℕ) (cs : List ℕ) (i : ℕ) {p : Pipe} {r : Outcome × List Chan × Pipe}
    → IsValid p
    → full p ≡ false
    → Wrote killed (put p c) cs (i + 1) r
    → Wrote killed p (c ∷ cs) i r
Wrote-put killed c cs i {p} {r} v h w = record {
  valid = w.valid;
  moved =
      w.moved
      ∙ ap (λ ds. ds ++ take (room (put p c)) cs) (contents-put v c h)
      ∙ append_assoc (contents p) (c ∷ []) (take (room (put p c)) cs)
      ∙ ap (λ n. contents p ++ c ∷ take n cs) less
      ∙ ap (λ ds. contents p ++ ds) (sym (take-cons (room p) c cs some_room));
  ends =
      w.ends
      ∙ ap (λ b. write_end (not b || killed) (length cs) (room (put p c)) (i + 1)) (flags-put p c).0
      ∙ write_end-suc (stops killed p) (length cs) (room p) (room (put p c)) i
          (omega (arith, held-put v c h, held-full v h));
  flags = (w.flags.0 ∙ (flags-put p c).0, w.flags.1 ∙ (flags-put p c).1);
}
  where
    less : room (put p c) ≡ room p - 1
    less = omega (arith, held-put v c h)

    some_room : room p ≢ 0
    some_room = omega (arith, held-full v h)

write_loop-Wrote :
    (killed : Bool) (cs : List ℕ) (i : ℕ) {p : Pipe}
    → IsValid p
    → Wrote killed p cs i (write_loop killed p cs i)
unfolding write_loop
write_loop-Wrote killed [] i {p} v = record {
  valid = v;
  moved = sym (ap (λ ds. contents p ++ ds) (take-nil (room p)) ∙ append-nil (contents p));
  ends = write_end-zero (stops killed p) (room p) i;
  flags = (refl, refl);
}
write_loop-Wrote killed (c ∷ cs) i {p} v = elim (Bool-cases (full p)) [
  | inl h ↦ rw h (stop (full-held v h))
  | inr h ↦
      rw h (Wrote-put killed c cs i v h (write_loop-Wrote killed cs (i + 1) (put-IsValid v c h)))
]
  where
    stop :
        held p ≡ pipesize
        → Wrote killed p
            (c ∷ cs)
            i
            (if not p.readopen || killed then (failed, [], p) else (asleep i, on_nread ∷ [], p))
    stop e =
        let rest : contents p ≡ contents p ++ take (room p) (c ∷ cs) = sym (
          ap (λ ds. contents p ++ ds) (take_of_zero (room p) (c ∷ cs) (omega arith))
          ∙ append-nil (contents p)) in
        elim (Bool-cases (stops killed p)) [
          | inl t ↦ rw t (record {
            valid = v;
            moved = rest;
            ends = rw t (write_end-full true (length cs) (room p) i (omega arith));
            flags = (refl, refl);
          })
          | inr t ↦ rw t (record {
            valid = v;
            moved = rest;
            ends = rw t (write_end-full false (length cs) (room p) i (omega arith));
            flags = (refl, refl);
          })
        ]

-- One activation of `pipewrite` on a valid pipe keeps it valid, moves as many of the bytes as the
-- ring has room for, in order and behind those that it holds, and changes neither flag. It returns
-- the number of bytes if all fit; otherwise it fails if the read end is closed or the caller is
-- killed, and sleeps if not. It has woken the readers unless it fails.
pub pipewrite_lem :
    (killed : Bool) (p : Pipe) (cs : List ℕ)
    → IsValid p
    → let (o, woken, q) = pipewrite killed p cs in
      IsValid q
      × (contents q ≡ contents p ++ take (room p) cs)
      × (q.readopen ≡ p.readopen)
      × (q.writeopen ≡ p.writeopen)
      × ◌≡◌ {A = Outcome × List Chan} (o, woken) (write_end (stops killed p) (length cs) (room p) 0)
unfolding pipewrite
pipewrite_lem killed p cs v =
    let w = write_loop-Wrote killed cs 0 v in (w.valid, w.moved, w.flags.0, w.flags.1, w.ends)
