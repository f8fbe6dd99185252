-- ===== src/Sleeplock/Examples.antt =====
-- Two processes at one sleep lock.
use xv7_mirror.Base.{ℕ, ◌≡◌, ◌≤◌, refl, true, false, [], ◌∷◌, length}
use xv7_mirror.Base.Mem.{has}
use xv7_mirror.Sleeplock.{initsleeplock, acquiresleep, releasesleep, holdingsleep}
use xv7_mirror.Sleeplock.Exclusion.{
  World, Reach, here, next, takes, waits, leaves, idle, sleep_exclusion,
}

-- Process 3 holds the lock and 4 sleeps on it.
abbrev taken : World
taken = record { lock = record { locked = true; pid = 3; asleep = 4 ∷ [] }; inside = 3 ∷ [] }

idle-taken : Reach idle taken
unfolding initsleeplock acquiresleep
idle-taken = next (next here (takes 3 refl refl)) (waits 4 refl refl)

-- 3 gives the lock up, which wakes 4, and 4 takes it.
abbrev handed_over : World
handed_over = record { lock = record { locked = true; pid = 4; asleep = [] }; inside = 4 ∷ [] }

idle-handed_over : Reach idle handed_over
unfolding acquiresleep releasesleep holdingsleep
idle-handed_over = next (next idle-taken (leaves 3 refl)) (takes 4 refl refl)

sleep_exclusion_example :
    (length handed_over.inside ≤ 1)
    × ((p : ℕ) → holdingsleep p handed_over.lock ≡ has p handed_over.inside)
    × (handed_over.lock.locked ≡ false → handed_over.lock.asleep ≡ [])
sleep_exclusion_example = sleep_exclusion idle-handed_over
