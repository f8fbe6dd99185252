-- ===== src/Proc/Pids.antt =====
-- Process identifiers: no two live processes share one, whatever the kernel does.
use xv7_mirror.Base.{
  ℕ, zero, suc, ◌+◌, ◌≡◌, ◌≢◌, ◌≤◌, ◌<◌, refl, sym, ◌∙◌, Bool, true, false, ◌&&◌, Option, none,
  some, [], ◌∷◌, arith, get_elem?, if◌then◌else◌, Bool-cases, inl, inr, ◌⊎◌, ◌==◌, ==→eq,
  ==_false→ne, subst,
}
use xv7_mirror.Proc.{
  Proc, Table, Chan, is_unused, is_zombie, is_parent, adjust, find_unused, embryo_of, alloc_stack,
  alloc_at, allocproc, fork_copy, wake, wakeup1, signal, kill_loop, kill, reap, scan, wait,
  run_slot,
}
use xv7_mirror.Proc.Slots.{get-adjust_self, get-adjust_ne}

-- The slot is in use.
abbrev pub Live : Proc → Type 0
Live p = is_unused p.state ≡ false

pub record PidsOk (t : Table) (nextpid : ℕ) : Type 0 where
  pub once :
      (i j : ℕ) (p q : Proc)
      → get_elem? t i ≡ some p
      → get_elem? t j ≡ some q
      → Live p
      → Live q
      → p.pid ≡ q.pid
      → i ≡ j
  pub given : (i : ℕ) (p : Proc) → get_elem? t i ≡ some p → Live p → (1 ≤ p.pid) × (p.pid < nextpid)

-- Every live process of `u` was live in `t`, under the same identifier.
abbrev pub Fewer : Table → Table → Type 0
Fewer t u =
    (i : ℕ) (q : Proc)
    → get_elem? u i ≡ some q
    → Live q
    → (p : Proc) × (get_elem? t i ≡ some p) × Live p × (q.pid ≡ p.pid)

pub Fewer-PidsOk : {t u : Table} {n : ℕ} → Fewer t u → PidsOk t n → PidsOk u n
Fewer-PidsOk {t} {u} {n} f ok = record {
  once = λ i j p q ei ej lp lq same.
      let (p', ei', lp', sp) = f i p ei lp in
      let (q', ej', lq', sq) = f j q ej lq in
      ok.once i j p' q' ei' ej' lp' lq' (sym sp ∙ same ∙ sq);
  given = λ i p e l. let (p', e', l', s) = f i p e l in omega (arith, ok.given i p' e' l');
}

pub adjust-Fewer :
    (f : Proc → Proc) (t : Table) (i : ℕ)
    → ((p : Proc) → get_elem? t i ≡ some p → Live (f p) → Live p × ((f p).pid ≡ p.pid))
    → Fewer t (adjust t i f)
adjust-Fewer f [] i h j q e l = absurd (ground arith)
adjust-Fewer f (p ∷ ps) zero h zero q e l =
    let same : f p ≡ q = ground arith in
    let (lp, s) = h p refl (rw same l) in (p, refl, lp, rw (← same) s)
adjust-Fewer f (p ∷ ps) zero h (suc j) q e l = (q, e, l, refl)
adjust-Fewer f (p ∷ ps) (suc i) h zero q e l = (q, e, l, refl)
adjust-Fewer f (p ∷ ps) (suc i) h (suc j) q e l = adjust-Fewer f ps i h j q e l

Fewer-cons :
    (p p' : Proc) (ps ps' : Table)
    → (Live p' → Live p × (p'.pid ≡ p.pid))
    → Fewer ps ps'
    → Fewer (p ∷ ps) (p' ∷ ps')
Fewer-cons p p' ps ps' h hs zero q e l =
    let same : p' ≡ q = ground arith in let (lp, s) = h (rw same l) in (p, refl, lp, rw (← same) s)
Fewer-cons p p' ps ps' h hs (suc j) q e l = hs j q e l

pub Fewer-refl : (t : Table) → Fewer t t
Fewer-refl t i q e l = (q, e, l, refl)

wake-Live : (c : Chan) (p : Proc) → Live (wake c p) → Live p × ((wake c p).pid ≡ p.pid)
unfolding wake
wake-Live c p l = ground arith

pub wakeup1-Fewer : (c : Chan) (t : Table) → Fewer t (wakeup1 c t)
unfolding wakeup1
wakeup1-Fewer c [] = Fewer-refl []
wakeup1-Fewer c (p ∷ ps) =
    Fewer-cons p (wake c p) ps (wakeup1 c ps) (wake-Live c p) (wakeup1-Fewer c ps)

signal-Live : (sig : ℕ) (p : Proc) → Live (signal sig p) → Live p × ((signal sig p).pid ≡ p.pid)
unfolding signal
signal-Live sig p l = ground arith

kill_loop-Fewer : (pid sig : ℕ) (t : Table) → Fewer t (kill_loop pid sig t).1
unfolding kill_loop
kill_loop-Fewer pid sig [] = Fewer-refl []
kill_loop-Fewer pid sig (p ∷ ps) = elim (Bool-cases (p.pid == pid)) [
  | inl h ↦ rw h (Fewer-cons p (signal sig p) ps ps (signal-Live sig p) (Fewer-refl ps))
  | inr h ↦
      rw h
        (Fewer-cons p p ps (kill_loop pid sig ps).1 (λ l. (l, refl)) (kill_loop-Fewer pid sig ps))
]

pub kill-Fewer : (pid sig : ℕ) (t : Table) → Fewer t (kill pid sig t).1
unfolding kill
kill-Fewer pid sig t = elim (Bool-cases (pid == 1)) [
  | inl h ↦ rw h (Fewer-refl t)
  | inr h ↦ rw h (kill_loop-Fewer pid sig t)
]

reap-Live : (p : Proc) → Live (reap p) → Live p × ((reap p).pid ≡ p.pid)
unfolding reap
reap-Live p l = cc

scan-Fewer : (cur : ℕ) (kids : Bool) (t : Table) → Fewer t (scan cur kids t).1
unfolding scan
scan-Fewer cur kids [] = Fewer-refl []
scan-Fewer cur kids (p ∷ ps) = elim (Bool-cases (is_parent cur p.parent && is_zombie p.state)) [
  | inl h ↦ rw h (Fewer-cons p (reap p) ps ps (reap-Live p) (Fewer-refl ps))
  | inr h ↦ rw h (
      Fewer-cons p p ps _ (λ l. (l, refl))
        (scan-Fewer cur (if is_parent cur p.parent then true else kids) ps))
]

pub wait-Fewer : (cur : ℕ) (killed : Bool) (t : Table) → Fewer t (wait cur killed t).1
unfolding wait
wait-Fewer cur killed t = scan-Fewer cur false t

-- The slot that `find_unused` returns is in the table and free.
pub find_unused-unused :
    (t : Table) {i : ℕ}
    → find_unused t ≡ some i
    → (p : Proc) × (get_elem? t i ≡ some p) × (is_unused p.state ≡ true)
unfolding find_unused
find_unused-unused [] h = absurd (ground arith)
find_unused-unused (p ∷ ps) {i = zero} h = (p, refl, ground arith)
find_unused-unused (p ∷ ps) {i = suc j} h =
    let r : find_unused ps ≡ some j = ground arith in find_unused-unused ps r

-- A slot of the table in which the process `p` has become the embryo with number `n`.
module _ (t : Table) (n i : ℕ) (p : Proc) (at_i : get_elem? t i ≡ some p) where
  -- What stands in a slot is the embryo, or what stood there before.
  new_or_old :
      (j : ℕ) (q : Proc)
      → get_elem? (adjust t i (embryo_of n)) j ≡ some q
      → ((j ≡ i) × (q.pid ≡ n)) ⊎ ((j ≢ i) × (get_elem? t j ≡ some q))
  unfolding embryo_of
  new_or_old j q e = elim (Bool-cases (i == j)) [
    | inl h ↦
        let same : i ≡ j = ==→eq i j h in
        let here : get_elem? (adjust t i (embryo_of n)) i ≡ some q =
          subst (λ k. get_elem? (adjust t i (embryo_of n)) k ≡ some q) (sym same) e in
        inl (sym same, ground (arith, get-adjust_self (embryo_of n) t i))
    | inr h ↦
        let apart : i ≢ j = ==_false→ne i j h in
        inr ((λ e'. apart (sym e')), sym (get-adjust_ne (embryo_of n) t i j apart) ∙ e)
  ]

  embryo-PidsOk : 1 ≤ n → PidsOk t n → PidsOk (adjust t i (embryo_of n)) (n + 1)
  embryo-PidsOk pos ok = record {
    once = λ j k q r ej ek lq lr same. elim (new_or_old j q ej) [
      | inl (jn, pq) ↦ elim (new_or_old k r ek) [
        | inl (kn, pr) ↦ jn ∙ sym kn
        | inr (kn, er) ↦ absurd (omega (arith, ok.given k r er lr))
      ]
      | inr (jn, eq) ↦ elim (new_or_old k r ek) [
        | inl (kn, pr) ↦ absurd (omega (arith, ok.given j q eq lq))
        | inr (kn, er) ↦ ok.once j k q r eq er lq lr same
      ]
    ];
    given = λ j q ej lq. elim (new_or_old j q ej) [
      | inl (jn, pq) ↦ (omega arith, omega arith)
      | inr (jn, eq) ↦ omega (arith, ok.given j q eq lq)
    ];
  }

alloc_stack-Fewer : (page i : ℕ) (t : Table) → Fewer t (alloc_stack page i t).1
unfolding alloc_stack
alloc_stack-Fewer page i t = elim (Bool-cases (page == 0)) [
  | inl h ↦ rw h (adjust-Fewer _ t i λ p e l. absurd (cc))
  | inr h ↦ rw h (adjust-Fewer _ t i λ p e l. (l, refl))
]

alloc_at-PidsOk :
    (page n : ℕ) (t : Table) (o : Option ℕ)
    → find_unused t ≡ o
    → 1 ≤ n
    → PidsOk t n
    → let (found, n', t') = alloc_at page n t o in PidsOk t' n' × (n ≤ n')
unfolding alloc_at
alloc_at-PidsOk page n t none e pos ok = (ok, omega arith)
alloc_at-PidsOk page n t (some i) e pos ok =
    let (p, at_i, u) = find_unused-unused t e in
    (
      Fewer-PidsOk (alloc_stack-Fewer page i (adjust t i (embryo_of n)))
          (embryo-PidsOk t n i p at_i pos ok),
      omega arith,
    )

pub allocproc-PidsOk :
    (page n : ℕ) (t : Table)
    → 1 ≤ n
    → PidsOk t n
    → let (found, n', t') = allocproc page n t in PidsOk t' n' × (n ≤ n')
unfolding allocproc
allocproc-PidsOk page n t = alloc_at-PidsOk page n t (find_unused t) refl

-- Changes that a live process undergoes in its own slot.
pub own-Fewer :
    (f : Proc → Proc) (t : Table) (i : ℕ) (p : Proc)
    → get_elem? t i ≡ some p
    → Live p
    → ((q : Proc) → (f q).pid ≡ q.pid)
    → Fewer t (adjust t i f)
own-Fewer f t i p e l same =
    adjust-Fewer f t i λ q eq lq. let one : p ≡ q = cc (e, eq) in (subst Live one l, same q)

pub fork_copy-Fewer :
    (cur np pgdir : ℕ) (p c : Proc) (t : Table)
    → get_elem? t np ≡ some c
    → Live c
    → Fewer t (fork_copy cur np pgdir p t).1
unfolding fork_copy
fork_copy-Fewer cur np pgdir p c t e l = elim (Bool-cases (pgdir == 0)) [
  | inl h ↦ rw h (own-Fewer _ t np c e l (λ q. refl))
  | inr h ↦ rw h (own-Fewer _ t np c e l (λ q. refl))
]

pub run_slot-Fewer : (i : ℕ) (t : Table) → Fewer t (run_slot i t)
unfolding run_slot
run_slot-Fewer i t = adjust-Fewer _ t i λ p e l. ground arith
