-- ===== src/Pipe/Fifo.antt =====
-- Bytes come out of a pipe in the order in which they went in, over any interleaving of activations.
use mathlib.Core.List.{append-nil, append_assoc}
use xv7_mirror.Base.{
  ℕ, ◌≡◌, ap, sym, ◌∙◌, inl, inr, Bool, true, false, ◌&&◌, List, [], ◌∷◌, ◌++◌, arith, ◌==◌, length,
  take, take-append-drop, Bool-cases,
}
use xv7_mirror.Pipe.{
  Pipe, Chan, ReadOutcome, got, interrupted, waiting, pipewrite, piperead, pipeclose,
}
use xv7_mirror.Pipe.Ring.{IsValid, contents}
use xv7_mirror.Pipe.Write.{room, pipewrite_lem}
use xv7_mirror.Pipe.Read.{read_end, piperead_lem}

-- What happens to a pipe: an activation of a writer with the bytes it has left, one of a reader that
-- asks for some number of bytes, the close of an end.
pub data Act : Type 0 where
  write : Bool → List ℕ → Act
  read : Bool → ℕ → Act
  close : Bool → Act

pub delivered : ReadOutcome → List ℕ
delivered (got cs) = cs
delivered interrupted = []
delivered waiting = []

-- The bytes that an act moves into the pipe, those that it moves out, and the pipe.
pub act : Pipe → Act → List ℕ × List ℕ × Pipe
unfolding delivered
act p (write killed cs) = let (o, woken, q) = pipewrite killed p cs in (take (room p) cs, [], q)
act p (read killed n) = let (o, woken, q) = piperead killed p n in ([], delivered o, q)
act p (close writable) = let (woken, q, freed) = pipeclose p writable in ([], [], q)

-- The same of a sequence of acts, in any interleaving of the processes that hold the pipe.
pub acts : Pipe → List Act → List ℕ × List ℕ × Pipe
acts p [] = ([], [], p)
acts p (a ∷ more) =
    let (sent, out, q) = act p a in
    let (sent', out', r) = acts q more in (sent ++ sent', out ++ out', r)

record Moves (p : Pipe) (r : List ℕ × List ℕ × Pipe) : Type 0 where
  pub valid : IsValid r.2
  pub fifo : r.1 ++ contents r.2 ≡ contents p ++ r.0

delivered-read_end :
    (killed open_end : Bool) (n : ℕ) (cs : List ℕ)
    → let (o, w, left) = read_end killed open_end n cs in delivered o ++ left ≡ cs
unfolding delivered read_end
delivered-read_end true open_end n cs = elim (Bool-cases ((length cs == 0) && open_end)) [
  | inl h ↦ rw h
  | inr h ↦ rw h (take-append-drop n cs)
]
delivered-read_end false open_end n cs = elim (Bool-cases ((length cs == 0) && open_end)) [
  | inl h ↦ rw h
  | inr h ↦ rw h (take-append-drop n cs)
]

close-Moves : (p : Pipe) (writable : Bool) → IsValid p → Moves p (act p (close writable))
unfolding act pipeclose
close-Moves p true v = record { valid = omega arith; fifo = sym (append-nil (contents p)) }
close-Moves p false v = record { valid = omega arith; fifo = sym (append-nil (contents p)) }

act-Moves : (p : Pipe) (a : Act) → IsValid p → Moves p (act p a)
unfolding act
act-Moves p (write killed cs) v =
    let w = pipewrite_lem killed p cs v in record { valid = w.0; fifo = w.1 }
act-Moves p (read killed n) v =
    let r = piperead_lem killed p n v in
    record {
      valid = r.0;
      fifo =
          ap (λ (t : ReadOutcome × List Chan × List ℕ). delivered t.0 ++ t.2) r.3
          ∙ delivered-read_end killed p.writeopen n (contents p)
          ∙ sym (append-nil (contents p));
    }
act-Moves p (close writable) v = close-Moves p writable v

-- Over any sequence of acts, the bytes that come out of a valid pipe, followed by those that it still
-- holds, are those that it held at first, followed by the bytes that went in, in order; and the pipe
-- is valid again.
pub acts_fifo :
    (p : Pipe) (todo : List Act)
    → IsValid p
    → let (sent, out, q) = acts p todo in (out ++ contents q ≡ contents p ++ sent) × IsValid q
unfolding acts
acts_fifo p [] v = (sym (append-nil (contents p)), v)
acts_fifo p (a ∷ more) v =
    let m = act-Moves p a v in
    let (rest, ok) = acts_fifo (act p a).2 more m.valid in
    (
      append_assoc (act p a).1 (acts (act p a).2 more).1 (contents (acts (act p a).2 more).2)
          ∙ ap (λ cs. (act p a).1 ++ cs) rest
          ∙ sym (append_assoc (act p a).1 (contents (act p a).2) (acts (act p a).2 more).0)
          ∙ ap (λ cs. cs ++ (acts (act p a).2 more).0) m.fifo
          ∙ append_assoc (contents p) (act p a).0 (acts (act p a).2 more).0,
      ok,
    )
