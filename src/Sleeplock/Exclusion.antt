-- ===== src/Sleeplock/Exclusion.antt =====
-- A sleep lock keeps all but one process out, and nobody sleeps on a lock that is free.
use xv7_mirror.Base.Mem.{has, erase}
use xv7_mirror.Base.{
  ℕ, ◌≡◌, ◌≤◌, refl, ap, ◌∙◌, true, false, List, [], ◌∷◌, arith, ◌==◌, inl, inr, ◌⊎◌, length,
}
use xv7_mirror.Sleeplock.{
  Sleeplock, initsleeplock, sleeps, acquired, acquiresleep, releasesleep, holdingsleep,
}

-- The lock, and the processes between `acquiresleep` and `releasesleep`.
pub record World : Type 0 where
  pub lock : Sleeplock
  pub inside : List ℕ

-- A process that is not asleep takes the lock or goes to sleep on it; one that holds it gives it up.
pub data Step (w : World) : World → Type 0 where
  takes :
      (p : ℕ) {l : Sleeplock}
      → has p w.lock.asleep ≡ false
      → acquiresleep p w.lock ≡ acquired l
      → Step w (record { lock = l; inside = p ∷ w.inside })
  waits :
      (p : ℕ) {l : Sleeplock}
      → has p w.lock.asleep ≡ false
      → acquiresleep p w.lock ≡ sleeps l
      → Step w (record w { lock = l })
  leaves :
      (p : ℕ)
      → holdingsleep p w.lock ≡ true
      → Step w (record { lock = releasesleep w.lock; inside = erase p w.inside })

pub data Reach (w : World) : World → Type 0 where
  here : Reach w w
  next : {v u : World} → Reach w v → Step v u → Reach w u

-- Nobody is inside a free lock and nobody sleeps on it, and only its owner is inside a taken one.
pub Guarded : World → Type 0
Guarded w =
    ((w.lock.locked ≡ false) × (w.inside ≡ []) × (w.lock.asleep ≡ []))
    ⊎ ((w.lock.locked ≡ true) × (w.inside ≡ w.lock.pid ∷ []))

acquiresleep-acquired :
    (p : ℕ) (lk l : Sleeplock)
    → acquiresleep p lk ≡ acquired l
    → (lk.locked ≡ false) × (l.locked ≡ true) × (l.pid ≡ p)
unfolding acquiresleep
acquiresleep-acquired p lk l h = ground arith

acquiresleep-sleeps :
    (p : ℕ) (lk l : Sleeplock)
    → acquiresleep p lk ≡ sleeps l
    → (lk.locked ≡ true) × (l.locked ≡ true) × (l.pid ≡ lk.pid)
unfolding acquiresleep
acquiresleep-sleeps p lk l h = ground arith

Step-Guarded : {w v : World} → Step w v → Guarded w → Guarded v
unfolding Guarded
Step-Guarded {w} (takes p {l} awake e) g =
    let (vacant, on, mine) = acquiresleep-acquired p w.lock l e in
    elim g [
      | inl (f, none_in, z) ↦ inr (on, rw (mine, none_in) refl)
      | inr (t, i) ↦ absurd (cc (vacant, t))
    ]
Step-Guarded {w} (waits p {l} awake e) g =
    let (taken, on, same) = acquiresleep-sleeps p w.lock l e in
    elim g [ inl (f, none_in, z) ↦ absurd (cc (taken, f)) | inr (t, i) ↦ inr (on, rw same i) ]
Step-Guarded {w} (leaves p h) g =
    unfold releasesleep holdingsleep in
    elim g [
      | inl (f, none_in, z) ↦ let e : false ≡ true = rw f at h in absurd (cc e)
      | inr (t, i) ↦
          let owner : (w.lock.pid == p) ≡ true = ground arith in
          inl (refl, ap (erase p) i ∙ rw owner, refl)
    ]

Reach-Guarded : {w v : World} → Reach w v → Guarded w → Guarded v
Reach-Guarded here g = g
Reach-Guarded (next r st) g = Step-Guarded st (Reach-Guarded r g)

abbrev pub idle : World
idle = record { lock = initsleeplock; inside = [] }

-- From a new lock on, in whatever order processes take it, sleep on it and give it up: at most one
-- process is inside; `holdingsleep` says yes to a process exactly when it is inside; and while the lock
-- is free, no process sleeps on it, so that no wakeup is lost.
pub sleep_exclusion :
    {w : World}
    → Reach idle w
    → (length w.inside ≤ 1)
      × ((p : ℕ) → holdingsleep p w.lock ≡ has p w.inside)
      × (w.lock.locked ≡ false → w.lock.asleep ≡ [])
unfolding Guarded
sleep_exclusion {w} r =
    let start : Guarded idle = unfold initsleeplock in inl (refl, refl, refl) in
    let g = Reach-Guarded r start in
    elim g [
      | inl (f, i, z) ↦ (rw i (omega arith), λ p. unfold holdingsleep in rw (f, i) refl, λ e. z)
      | inr (t, i) ↦ (
        rw i (omega arith),
        λ p. unfold holdingsleep in rw (t, i) (ground arith),
        λ e. absurd (cc (t, e)),
      )
    ]
