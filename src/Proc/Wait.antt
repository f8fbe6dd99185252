-- ===== src/Proc/Wait.antt =====
-- `wait`: which child it reaps, and when it fails or sleeps.
use xv7_mirror.Base.{
  ℕ, suc, ◌≡◌, refl, ap, Bool, true, false, not, ◌&&◌, ◌||◌, some, [], ◌∷◌, arith, get_elem?,
  if◌then◌else◌, Bool-cases, inl, inr,
}
use xv7_mirror.Proc.{
  Proc, Table, is_parent, is_zombie, adjust, reap, Scan, reaped, seen, scan, WaitTurn, returns,
  fails, sleeps, wait_end, wait,
}

-- The process is a child of slot `cur` that has exited.
abbrev pub exited_child : ℕ → Proc → Bool
exited_child cur p = is_parent cur p.parent && is_zombie p.state

-- Some slot holds a child of `cur`; some slot holds one that has exited.
pub has_child : ℕ → Table → Bool
has_child cur [] = false
has_child cur (p ∷ ps) = is_parent cur p.parent || has_child cur ps

pub has_exited : ℕ → Table → Bool
has_exited cur [] = false
has_exited cur (p ∷ ps) = exited_child cur p || has_exited cur ps

-- What the result of `wait` says of the table before and after.
pub WaitSpec : (cur : ℕ) (killed : Bool) (t u : Table) → WaitTurn → Type 0
WaitSpec cur killed t u (returns pid) =
    (i : ℕ) × (p : Proc) × (get_elem? t i ≡ some p)
    × (exited_child cur p ≡ true)
    × (pid ≡ p.pid)
    × (u ≡ adjust t i reap)
WaitSpec cur killed t u fails =
    (has_exited cur t ≡ false) × ((not (has_child cur t) || killed) ≡ true) × (u ≡ t)
WaitSpec cur killed t u sleeps =
    (has_exited cur t ≡ false) × (has_child cur t ≡ true) × (killed ≡ false) × (u ≡ t)

-- The same of the scan, `kids` being what was seen before.
abbrev ScanSpec : (cur : ℕ) (kids : Bool) (t u : Table) → Scan → Type 0
ScanSpec cur kids t u (reaped pid) =
    (i : ℕ) × (p : Proc) × (get_elem? t i ≡ some p)
    × (exited_child cur p ≡ true)
    × (pid ≡ p.pid)
    × (u ≡ adjust t i reap)
ScanSpec cur kids t u (seen b) =
    (has_exited cur t ≡ false) × (b ≡ (has_child cur t || kids)) × (u ≡ t)

ScanSpec-cons :
    (cur : ℕ) (kids : Bool) (p : Proc) (ps qs : Table) (o : Scan)
    → exited_child cur p ≡ false
    → ScanSpec cur (if is_parent cur p.parent then true else kids) ps qs o
    → ScanSpec cur kids (p ∷ ps) (p ∷ qs) o
unfolding has_child has_exited
ScanSpec-cons cur kids p ps qs (reaped pid) h (i, q, e, z, n, u) =
    (suc i, q, e, z, n, ap (λ ts. p ∷ ts) u)
ScanSpec-cons cur kids p ps qs (seen b) h (z, e, u) = (rw (h, z), ground arith, ap (λ ts. p ∷ ts) u)

scan_lem :
    (cur : ℕ) (kids : Bool) (t : Table) → let (o, u) = scan cur kids t in ScanSpec cur kids t u o
unfolding scan
scan_lem cur kids [] = unfold has_child has_exited in (refl, refl, refl)
scan_lem cur kids (p ∷ ps) = elim (Bool-cases (exited_child cur p)) [
  | inl h ↦ rw h (0, p, refl, h, refl, refl)
  | inr h ↦ rw h (
      ScanSpec-cons cur kids p ps _ _ h
        (scan_lem cur (if is_parent cur p.parent then true else kids) ps))
]

wait_end-WaitSpec :
    (cur : ℕ) (killed : Bool) (t u : Table) (o : Scan)
    → ScanSpec cur false t u o
    → WaitSpec cur killed t u (wait_end killed o)
unfolding WaitSpec wait_end
wait_end-WaitSpec cur killed t u (reaped pid) s = s
wait_end-WaitSpec cur killed t u (seen b) (z, e, s) = elim (Bool-cases (not b || killed)) [
  | inl h ↦ rw h (z, ground arith, s)
  | inr h ↦ rw h (z, ground arith, ground arith, s)
]

-- If `wait` returns a number, some slot held an exited child with that number, which is now reaped,
-- and nothing else has changed. It fails, with nothing changed, if no child has exited and there is
-- no child or the caller is killed; it goes to sleep, with nothing changed, if no child has exited,
-- there is one, and the caller is not killed.
pub wait_lem :
    (cur : ℕ) (killed : Bool) (t : Table)
    → let (o, u) = wait cur killed t in WaitSpec cur killed t u o
unfolding wait
wait_lem cur killed t =
    wait_end-WaitSpec cur killed t (scan cur false t).1 (scan cur false t).0 (scan_lem cur false t)
