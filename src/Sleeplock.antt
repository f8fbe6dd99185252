-- ===== src/Sleeplock.antt =====
-- kernel/sleeplock.c: initsleeplock, acquiresleep, releasesleep, holdingsleep.
-- The spin lock inside makes each routine, up to its sleep, one step. `asleep` are the processes that
-- sleep on the lock; one that was woken runs the round of `acquiresleep` again.
pub mod Exclusion
mod Examples
use xv7_mirror.Base.{ℕ, Bool, true, false, ◌&&◌, List, [], ◌∷◌, ◌==◌, if◌then◌else◌}

-- `locked` and `pid` of `struct sleeplock`, and the processes that sleep on it.
pub record Sleeplock : Type 0 where
  pub locked : Bool
  pub pid : ℕ
  pub asleep : List ℕ

pub initsleeplock : Sleeplock
initsleeplock = record { locked = false; pid = 0; asleep = [] }

pub data Attempt : Type 0 where
  sleeps : Sleeplock → Attempt
  acquired : Sleeplock → Attempt

-- `acquiresleep` up to its end or to its next sleep.
unfoldable pub acquiresleep : ℕ → Sleeplock → Attempt
acquiresleep p lk =
    if lk.locked
    then sleeps (record lk { asleep = p ∷ lk.asleep })
    else acquired (record lk { locked = true; pid = p })

-- `releasesleep`; `wakeup(lk)` leaves nobody asleep on the lock.
unfoldable pub releasesleep : Sleeplock → Sleeplock
releasesleep lk = record { locked = false; pid = 0; asleep = [] }

unfoldable pub holdingsleep : ℕ → Sleeplock → Bool
holdingsleep p lk = lk.locked && (lk.pid == p)
