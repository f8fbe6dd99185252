-- ===== src/Pipe/Examples.antt =====
-- Runs of kernel/pipe.c on a pipe whose counters are about to wrap around.
use xv7_mirror.Base.{ℕ, ◌≡◌, refl, true, false, List, [], ◌∷◌, ◌++◌, arith, replicate, length, take}
use xv7_mirror.Pipe.{Pipe, Chan, Outcome, fresh, pipewrite}
use xv7_mirror.Pipe.Ring.{IsValid, contents}
use xv7_mirror.Pipe.Write.{room, write_end, stops, pipewrite_lem}
use xv7_mirror.Pipe.Fifo.{Act, write, read, close, acts, acts_fifo}

abbrev zeros : List ℕ
zeros = replicate 512 0

abbrev two_bytes : List ℕ
two_bytes = 7 ∷ 8 ∷ []

abbrev wrapping : Pipe
wrapping = record {
  bytes = zeros;
  nread = 4294967295;
  nwrite = 4294967295;
  readopen = true;
  writeopen = true;
}

wrapping-IsValid : IsValid wrapping
wrapping-IsValid = record {
  ring = refl;
  nread_small = omega arith;
  nwrite_small = omega arith;
  fits = omega arith;
}

fresh_test : (fresh zeros).nwrite ≡ 0
unfolding fresh
fresh_test = refl

pipewrite_lem_example :
    let (o, woken, q) = pipewrite false wrapping two_bytes in
    IsValid q
    × (contents q ≡ contents wrapping ++ take (room wrapping) two_bytes)
    × (q.readopen ≡ wrapping.readopen)
    × (q.writeopen ≡ wrapping.writeopen)
    × ◌≡◌ {A = Outcome × List Chan}
        (o, woken)
        (write_end (stops false wrapping) (length two_bytes) (room wrapping) 0)
pipewrite_lem_example = pipewrite_lem false wrapping two_bytes wrapping-IsValid

abbrev conversation : List Act
conversation = write false (7 ∷ 8 ∷ 9 ∷ []) ∷ read false 2 ∷ close true ∷ read false 4 ∷ []

acts_fifo_example :
    let (sent, out, q) = acts wrapping conversation in
    (out ++ contents q ≡ contents wrapping ++ sent) × IsValid q
acts_fifo_example = acts_fifo wrapping conversation wrapping-IsValid
