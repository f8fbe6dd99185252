-- ===== src/Spinlock/Exclusion.antt =====
-- A spin lock keeps all but one cpu out.
use xv7_mirror.Base.Mem.{has, erase}
use xv7_mirror.Base.{
  ℕ, ◌≡◌, ◌≤◌, refl, ap, sym, ◌∙◌, Bool, true, false, ◌&&◌, Option, none, some, List, [], ◌∷◌,
  arith, ◌==◌, if◌then◌else◌, inl, inr, ◌⊎◌, length,
}
use xv7_mirror.Spinlock.{
  Cpu, Spinlock, is_cpu, pushcli, popcli, holding, held_by, acquired, try, unless_held, acquire,
  set_free, if_held, release,
}

abbrev free_lock : Spinlock
free_lock = record { locked = false; cpu = none }

abbrev lock_of : ℕ → Spinlock
lock_of k = record { locked = true; cpu = some k }

try-acquired :
    (k : ℕ) (c d : Cpu) (l m : Spinlock)
    → try k c l ≡ acquired d m
    → (l.locked ≡ false) × (m ≡ lock_of k)
unfolding try
try-acquired k c d l m h = ground arith

unless_held-acquired :
    (k : ℕ) (l m : Spinlock) (d : Cpu) (o : Option (Bool × Cpu))
    → unless_held k l o ≡ acquired d m
    → (l.locked ≡ false) × (m ≡ lock_of k)
unfolding unless_held
unless_held-acquired k l m d none h = absurd (cc)
unless_held-acquired k l m d (some (true, c)) h = absurd (cc)
unless_held-acquired k l m d (some (false, c)) h = try-acquired k c d l m h

acquire-acquired :
    (k : ℕ) (c d : Cpu) (l m : Spinlock)
    → acquire k c l ≡ acquired d m
    → (l.locked ≡ false) × (m ≡ lock_of k)
unfolding acquire
acquire-acquired k c d l m h = unless_held-acquired k l m d (holding k (pushcli c) l) h

held_by-true :
    (k : ℕ) (l m : Spinlock) (d : Cpu) (o : Option Cpu)
    → if_held (held_by k l o) ≡ some (d, m)
    → (l.locked ≡ true) × (is_cpu k l.cpu ≡ true) × (m ≡ free_lock)
unfolding held_by
held_by-true k l m d none h = unfold if_held in absurd (cc)
held_by-true k l m d (some c) h = split (l.locked && is_cpu k l.cpu) refl h
  where
    split :
        (b : Bool)
        → (l.locked && is_cpu k l.cpu) ≡ b
        → if_held (some (b, c)) ≡ some (d, m)
        → (l.locked ≡ true) × (is_cpu k l.cpu ≡ true) × (m ≡ free_lock)
    split true e g = (ground arith, ground arith, freed (popcli c) (unfold if_held in g))
      where
        freed : (o : Option Cpu) → set_free o ≡ some (d, m) → m ≡ free_lock
        freed none q = unfold set_free in absurd (cc)
        freed (some x) q = unfold set_free in ground arith
    split false e g = unfold if_held in absurd (cc)

release-held :
    (k : ℕ) (c d : Cpu) (l m : Spinlock)
    → release k c l ≡ some (d, m)
    → (l.locked ≡ true) × (is_cpu k l.cpu ≡ true) × (m ≡ free_lock)
unfolding release holding
release-held k c d l m h = held_by-true k l m d (popcli (pushcli c)) h

-- The lock, the cpus, and those between their `acquire` and their `release`.
pub record World : Type 0 where
  pub lock : Spinlock
  pub cpus : ℕ → Cpu
  pub inside : List ℕ

abbrev pub set_cpu : (ℕ → Cpu) → ℕ → Cpu → ℕ → Cpu
set_cpu cs k c j = if j == k then c else cs j

-- A cpu takes the lock at once, or after spinning; gives it up; or does something else.
pub data Step (w : World) : World → Type 0 where
  takes :
      (k : ℕ) {c : Cpu} {l : Spinlock}
      → acquire k (w.cpus k) w.lock ≡ acquired c l
      → Step w (record { lock = l; cpus = set_cpu w.cpus k c; inside = k ∷ w.inside })
  retries :
      (k : ℕ) {c : Cpu} {l : Spinlock}
      → try k (w.cpus k) w.lock ≡ acquired c l
      → Step w (record { lock = l; cpus = set_cpu w.cpus k c; inside = k ∷ w.inside })
  leaves :
      (k : ℕ) {c : Cpu} {l : Spinlock}
      → release k (w.cpus k) w.lock ≡ some (c, l)
      → Step w (record { lock = l; cpus = set_cpu w.cpus k c; inside = erase k w.inside })
  runs : (k : ℕ) (c : Cpu) → Step w (record w { cpus = set_cpu w.cpus k c })

pub data Reach (w : World) : World → Type 0 where
  here : Reach w w
  next : {v u : World} → Reach w v → Step v u → Reach w u

-- Nobody is inside a free lock, and only its cpu inside one that is taken.
pub Guarded : World → Type 0
Guarded w =
    ((w.lock.locked ≡ false) × (w.inside ≡ []))
    ⊎ ((k : ℕ) × (w.lock ≡ lock_of k) × (w.inside ≡ k ∷ []))

taken-Guarded :
    (w : World) (k : ℕ) (cs : ℕ → Cpu) (l : Spinlock)
    → (w.lock.locked ≡ false) × (l ≡ lock_of k)
    → Guarded w
    → Guarded (record { lock = l; cpus = cs; inside = k ∷ w.inside })
unfolding Guarded
taken-Guarded w k cs l (vacant, same) (inl (f, e)) = inr (k, same, ap (λ xs. k ∷ xs) e)
taken-Guarded w k cs l (vacant, same) (inr (j, lk, e)) =
    absurd (cc (vacant, ap (λ (x : Spinlock). x.locked) lk))

left-Guarded :
    (w : World) (k : ℕ) (cs : ℕ → Cpu) (l : Spinlock)
    → (w.lock.locked ≡ true) × (is_cpu k w.lock.cpu ≡ true) × (l ≡ free_lock)
    → Guarded w
    → Guarded (record { lock = l; cpus = cs; inside = erase k w.inside })
unfolding Guarded
left-Guarded w k cs l (taken, mine, same) (inl (f, e)) = absurd (cc (taken, f))
left-Guarded w k cs l (taken, mine, same) (inr (j, lk, e)) =
    let owner : (j == k) ≡ true = sym (ap (λ (x : Spinlock). is_cpu k x.cpu) lk) ∙ mine in
    inl (ap (λ (x : Spinlock). x.locked) same, ap (erase k) e ∙ rw owner)

Step-Guarded : {w v : World} → Step w v → Guarded w → Guarded v
Step-Guarded {w} (takes k {c} {l} e) g =
    taken-Guarded w k (set_cpu w.cpus k c) l (acquire-acquired k (w.cpus k) c w.lock l e) g
Step-Guarded {w} (retries k {c} {l} e) g =
    taken-Guarded w k (set_cpu w.cpus k c) l (try-acquired k (w.cpus k) c w.lock l e) g
Step-Guarded {w} (leaves k {c} {l} e) g =
    left-Guarded w k (set_cpu w.cpus k c) l (release-held k (w.cpus k) c w.lock l e) g
Step-Guarded (runs k c) g = unfold Guarded in g

Reach-Guarded : {w v : World} → Reach w v → Guarded w → Guarded v
Reach-Guarded here g = g
Reach-Guarded (next r st) g = Step-Guarded st (Reach-Guarded r g)

-- The world at the start.
abbrev pub idle : (ℕ → Cpu) → World
idle cs = record { lock = free_lock; cpus = cs; inside = [] }

Guarded-exclusive :
    (w : World)
    → Guarded w
    → (length w.inside ≤ 1)
      × ((k : ℕ) → has k w.inside ≡ true → (w.lock.locked ≡ true) × (w.lock.cpu ≡ some k))
unfolding Guarded
Guarded-exclusive w (inl (f, e)) = (rw e (omega arith), λ k h. absurd (cc (h, ap (has k) e)))
Guarded-exclusive w (inr (j, lk, e)) = (
  rw e (omega arith),
  λ k h.
      let one : has k (j ∷ []) ≡ true = sym (ap (has k) e) ∙ h in
      let same : j ≡ k = ground arith in
      (ap (λ (x : Spinlock). x.locked) lk, ap (λ (x : Spinlock). x.cpu) lk ∙ ap some same),
)

-- From a free lock on, in whatever order cpus acquire the lock, at once or after spinning, release it
-- and do anything else: at most one cpu is between its `acquire` and its `release`, and while one is,
-- the lock is taken and is its own.
pub mutual_exclusion :
    (cs : ℕ → Cpu) {w : World}
    → Reach (idle cs) w
    → (length w.inside ≤ 1)
      × ((k : ℕ) → has k w.inside ≡ true → (w.lock.locked ≡ true) × (w.lock.cpu ≡ some k))
mutual_exclusion cs {w} r =
    Guarded-exclusive w (Reach-Guarded r (unfold Guarded in inl (refl, refl)))
