-- ===== src/Pipe/Close.antt =====
-- `pipeclose`: which side is woken, and when the page of the pipe is given back.
use xv7_mirror.Base.{◌≡◌, ◌≢◌, refl, Bool, true, false, not}
use xv7_mirror.Pipe.{Pipe, pipeclose}

-- The close of one end of a pipe whose ends are both open wakes the processes that wait at the other
-- end and keeps the page; the close of the other end then gives the page back. This holds in both
-- orders, and the bytes and counters stay as they were.
pub pipeclose-both :
    (p : Pipe) (writable : Bool)
    → p.readopen ≡ true
    → p.writeopen ≡ true
    → let (woken, q, freed) = pipeclose p writable in
      let (woken', r, freed') = pipeclose q (not writable) in
      (freed ≡ false)
      × (freed' ≡ true)
      × (woken ≢ woken')
      × (r.readopen ≡ false)
      × (r.writeopen ≡ false)
      × (r.bytes ≡ p.bytes)
      × (r.nread ≡ p.nread)
      × (r.nwrite ≡ p.nwrite)
unfolding pipeclose
pipeclose-both p true ro wo = (rw ro, refl, (λ e. cc), refl, refl, refl, refl, refl)
pipeclose-both p false ro wo = (rw wo, refl, (λ e. cc), refl, refl, refl, refl, refl)
