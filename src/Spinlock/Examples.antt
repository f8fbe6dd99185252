-- ===== src/Spinlock/Examples.antt =====
-- Runs of kernel/spinlock.c with interrupts on.
use xv7_mirror.Base.Mem.{has}
use xv7_mirror.Base.{ℕ, ◌≡◌, ◌≤◌, ◌==◌, refl, true, false, some, [], ◌∷◌, length, if◌then◌else◌}
use xv7_mirror.Spinlock.{
  Cpu, Spinlock, acquired, pushcli, popcli, holding, held_by, try, unless_held, acquire,
}
use xv7_mirror.Spinlock.Exclusion.{World, here, next, takes, idle, mutual_exclusion}

abbrev open_cpu : Cpu
open_cpu = record { flag = true; ncli = 0; intena = false }

abbrev taken : Spinlock
taken = record { locked = true; cpu = some 2 }

abbrev busy_cpu : Cpu
busy_cpu = record { flag = false; ncli = 1; intena = true }

acquire_test : acquire 2 open_cpu (idle (λ k. open_cpu)).lock ≡ acquired busy_cpu taken
unfolding acquire unless_held try holding held_by popcli pushcli
acquire_test = refl

abbrev one_inside : World
one_inside = record {
  lock = taken;
  cpus = λ j. if j == 2 then busy_cpu else open_cpu;
  inside = 2 ∷ [];
}

mutual_exclusion_example :
    (length one_inside.inside ≤ 1)
    × ((k : ℕ) → has k one_inside.inside ≡ true → (taken.locked ≡ true) × (taken.cpu ≡ some k))
mutual_exclusion_example =
    mutual_exclusion (λ k. open_cpu) {w = one_inside} (next here (takes 2 acquire_test))
