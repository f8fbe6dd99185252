-- ===== src/Proc/Kill.antt =====
-- `kill`: which process gets the signal, and what a signal to number 0 does.
use mathlib.Core.Option
use xv7_mirror.Base.{
  ℕ, zero, suc, ◌≡◌, ◌≢◌, refl, ap, sym, ◌∙◌, Bool, true, false, Option, none, some, [], ◌∷◌, arith,
  get_elem?, if◌then◌else◌, Bool-cases, inl, inr, ◌==◌, subst,
}
use xv7_mirror.Proc.{
  Proc, Table, is_unused, adjust, find_unused, embryo_of, alloc_stack, alloc_at, allocproc, signal,
  kill_loop, kill, sigkill,
}
use xv7_mirror.Proc.Slots.{get-adjust_self}
use xv7_mirror.Proc.Pids.{find_unused-unused}

-- The first slot with the number, in use or not.
unfoldable pub find_pid : ℕ → Table → Option ℕ
find_pid pid [] = none
find_pid pid (p ∷ ps) =
    if p.pid == pid then some 0 else elim (find_pid pid ps) [ none ↦ none | some i ↦ some (suc i) ]

-- What `kill` must do, from the slot that was found.
pub killed_at : ℕ → Table → Option ℕ → Bool × Table
killed_at sig t none = (false, t)
killed_at sig t (some i) = (true, adjust t i (signal sig))

killed_at-suc :
    (sig : ℕ) (p : Proc) (ps : Table) (o : Option ℕ)
    → (let (found, qs) = killed_at sig ps o in (found, p ∷ qs))
      ≡ killed_at sig (p ∷ ps) (elim o [ none ↦ none | some i ↦ some (suc i) ])
unfolding killed_at
killed_at-suc sig p ps none = refl
killed_at-suc sig p ps (some i) = refl

kill_loop-find : (pid sig : ℕ) (t : Table) → kill_loop pid sig t ≡ killed_at sig t (find_pid pid t)
unfolding kill_loop find_pid
kill_loop-find pid sig [] = unfold killed_at in refl
kill_loop-find pid sig (p ∷ ps) = elim (Bool-cases (p.pid == pid)) [
  | inl h ↦ rw h (unfold killed_at in refl)
  | inr h ↦ rw (h, kill_loop-find pid sig ps) (killed_at-suc sig p ps (find_pid pid ps))
]

pub kill_lem :
    (pid sig : ℕ) (t : Table)
    → (pid ≡ 1 → kill pid sig t ≡ (false, t))
      × (pid ≢ 1 → kill pid sig t ≡ killed_at sig t (find_pid pid t))
unfolding kill
kill_lem pid sig t = ((λ e. rw e refl), λ e. refused (pid == 1) (ground arith))
  where
    refused :
        (b : Bool)
        → b ≡ false
        → (if b then (false, t) else kill_loop pid sig t) ≡ killed_at sig t (find_pid pid t)
    refused b e = rw e (kill_loop-find pid sig t)

find_unused-adjust :
    (f : Proc → Proc) (t : Table) (i : ℕ)
    → ((p : Proc) → get_elem? t i ≡ some p → is_unused (f p).state ≡ is_unused p.state)
    → find_unused (adjust t i f) ≡ find_unused t
unfolding find_unused
find_unused-adjust f [] i h = refl
find_unused-adjust f (p ∷ ps) zero h = rw (h p refl)
find_unused-adjust f (p ∷ ps) (suc i) h = rw (find_unused-adjust f ps i h)

signal-unused :
    (sig : ℕ) (p : Proc) → is_unused p.state ≡ true → (is_unused (signal sig p).state ≡ true)
unfolding signal
signal-unused sig p h = ground arith

signal-killed : (p : Proc) → (signal sigkill p).killed ≡ true
unfolding signal
signal-killed p = ground arith

-- A slot that was killed and is then allocated.
alloc-killed :
    (page n i : ℕ) (t : Table) (p : Proc)
    → find_unused t ≡ some i
    → get_elem? t i ≡ some p
    → page ≢ 0
    → let (found, n', u) = allocproc page n t in
      (found ≡ some i) × (q : Proc) × (get_elem? u i ≡ some q) × (q.pid ≡ n) × (q.killed ≡ p.killed)
unfolding allocproc alloc_at alloc_stack embryo_of
alloc-killed page n i t p free e ne =
    let got : (page == 0) ≡ false = ground arith in
    rw (free, got)
      (
        refl,
        record (embryo_of n p) { kstack = page },
        get-adjust_self _ (adjust t i (embryo_of n)) i
            ∙ ap (Option.map {A = Proc} {B = Proc} (λ q. record q { kstack = page }))
                (get-adjust_self _ t i ∙ ap (Option.map (embryo_of n)) e),
        refl,
        refl,
      )

-- A `kill` of number 0 with SIGKILL, in a table whose first slot with number 0 is also its first free
-- slot, succeeds, and the process that `allocproc` then puts in that slot is marked as killed from
-- the start.
pub kill-zero :
    (page n i : ℕ) (t : Table)
    → find_pid 0 t ≡ some i
    → find_unused t ≡ some i
    → page ≢ 0
    → let (ok, t') = kill 0 sigkill t in
      let (found, n', u) = allocproc page n t' in
      (ok ≡ true)
      × (found ≡ some i)
      × (q : Proc) × (get_elem? u i ≡ some q)
      × (q.pid ≡ n)
      × (q.killed ≡ true)
kill-zero page n i t first free ne =
    let (p, e, un) = find_unused-unused t free in
    let k : kill 0 sigkill t ≡ (true, adjust t i (signal sigkill)) =
      (kill_lem 0 sigkill t).1 (omega arith)
      ∙ ap (killed_at sigkill t) first
      ∙ (unfold killed_at in refl) in
    let stays : find_unused (adjust t i (signal sigkill)) ≡ some i =
      find_unused-adjust (signal sigkill) t i (λ q eq.
        let one : p ≡ q = cc (e, eq) in
        let u : is_unused q.state ≡ true = subst (λ (r : Proc). is_unused r.state ≡ true) one un in
        signal-unused sigkill q u ∙ sym u)
      ∙ free in
    let here : get_elem? (adjust t i (signal sigkill)) i ≡ some (signal sigkill p) =
      get-adjust_self (signal sigkill) t i ∙ ap (Option.map (signal sigkill)) e in
    let (found, q, eq, num, mark) =
      alloc-killed page n i (adjust t i (signal sigkill)) (signal sigkill p) stays here ne in
    rw k (refl, found, q, eq, num, mark ∙ signal-killed p)
