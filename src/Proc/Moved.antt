-- ===== src/Proc/Moved.antt =====
-- What waking processes and giving children away do to each process.
use mathlib.Core.Option
use xv7_mirror.Base.{
  ℕ, zero, suc, ◌+◌, ◌≡◌, refl, ap, sym, ◌∙◌, Bool, true, false, ◌&&◌, Option, none, some, arith,
  get_elem?, if◌then◌else◌, Bool-cases, inl, inr, ◌⊎◌, ◌==◌, ==→eq, ==_false→ne, subst, leb, ltb,
}
use xv7_mirror.Proc.{
  Proc, ProcState, Table, Chan, same_chan, nowhere, of_proc, unused, embryo, sleeping, runnable,
  running, zombie, is_sleeping, is_zombie, is_parent, adjust, wake, wakeup1, abandon_loop,
  abandon_at, abandon, adopt, wake_parent,
}
use xv7_mirror.Proc.Slots.{get-adjust_self, get-adjust_ne}
use xv7_mirror.Proc.Wakeup.{get-wakeup1}

-- Where a process stands after others were woken, and perhaps given another parent.
pub record Later (p q : Proc) : Type 0 where
  pub pid : q.pid ≡ p.pid
  pub state : (q.state ≡ p.state) ⊎ ((p.state ≡ sleeping) × (q.state ≡ runnable))
  pub killed : q.killed ≡ p.killed

-- Slot by slot, `u` is later than `t`, and the parent of slot `j` is what `par j` makes of it.
abbrev pub Moved : (ℕ → Option ℕ → Option ℕ) → Table → Table → Type 0
Moved par t u =
    (j : ℕ) (p : Proc)
    → get_elem? t j ≡ some p
    → (q : Proc) × (get_elem? u j ≡ some q) × Later p q × (q.parent ≡ par j p.parent)

abbrev pub keep : ℕ → Option ℕ → Option ℕ
keep j o = o

asleep : (s : ProcState) → is_sleeping s ≡ true → s ≡ sleeping
asleep sleeping h = refl
asleep unused h = absurd (cc)
asleep embryo h = absurd (cc)
asleep runnable h = absurd (cc)
asleep running h = absurd (cc)
asleep zombie h = absurd (cc)

wake-Later : (c : Chan) (p : Proc) → Later p (wake c p) × ((wake c p).parent ≡ p.parent)
unfolding wake
wake-Later c p = elim (Bool-cases (is_sleeping p.state && same_chan p.chan c)) [
  | inl h ↦ rw h (
    record { pid = refl; state = inr (asleep p.state (ground arith), refl); killed = refl },
    refl,
  )
  | inr h ↦ rw h (record { pid = refl; state = inl refl; killed = refl }, refl)
]

wakeup1-Moved : (c : Chan) (t : Table) → Moved keep t (wakeup1 c t)
wakeup1-Moved c t j p e =
    let (later, same) = wake-Later c p in
    (wake c p, get-wakeup1 c t j ∙ ap (Option.map (wake c)) e, later, same)

pub Moved-trans :
    (f g : ℕ → Option ℕ → Option ℕ) (t u v : Table)
    → Moved f t u
    → Moved g u v
    → Moved (λ j o. g j (f j o)) t v
Moved-trans f g t u v h k j p e =
    let (q, eq, lq, sq) = h j p e in
    let (r, er, lr, sr) = k j q eq in
    (
      r,
      er,
      record { pid = lr.pid ∙ lq.pid; state = later p q r lq lr; killed = lr.killed ∙ lq.killed },
      sr ∙ ap (g j) sq,
    )
  where
    later :
        (p q r : Proc)
        → Later p q
        → Later q r
        → (r.state ≡ p.state) ⊎ ((p.state ≡ sleeping) × (r.state ≡ runnable))
    later p q r a b = ground (arith, a.state, b.state)

-- The parent that a child of `cur` gets.
abbrev pub inherit : (cur init : ℕ) → Option ℕ → Option ℕ
inherit cur init o = if is_parent cur o then some init else o

abbrev at_slot : (cur init i : ℕ) → ℕ → Option ℕ → Option ℕ
at_slot cur init i j o = if i == j then inherit cur init o else o

pub Moved-weaken :
    (f g : ℕ → Option ℕ → Option ℕ) (t u : Table)
    → ((j : ℕ) (p : Proc) → get_elem? t j ≡ some p → f j p.parent ≡ g j p.parent)
    → Moved f t u
    → Moved g t u
Moved-weaken f g t u same h j p e = let (q, eq, lq, sq) = h j p e in (q, eq, lq, sq ∙ same j p e)

Moved-refl : (t : Table) → Moved keep t t
Moved-refl t j p e = (p, e, record { pid = refl; state = inl refl; killed = refl }, refl)

-- A change of one slot that leaves number, state and mark alone.
pub adjust-Moved :
    (f : Proc → Proc) (i : ℕ) (par : Option ℕ → Option ℕ) (t : Table)
    → ((p : Proc) → Later p (f p) × ((f p).parent ≡ par p.parent))
    → Moved (λ j o. if i == j then par o else o) t (adjust t i f)
adjust-Moved f i par t h j p e = elim (Bool-cases (i == j)) [
  | inl s ↦
      let same : i ≡ j = ==→eq i j s in
      let (later, pars) = h p in
      (
        f p,
        subst (λ k. get_elem? (adjust t k f) j ≡ some (f p)) (sym same)
            (get-adjust_self f t j ∙ ap (Option.map f) e),
        later,
        rw s pars,
      )
  | inr s ↦ (
    p,
    get-adjust_ne f t i j (==_false→ne i j s) ∙ e,
    record { pid = refl; state = inl refl; killed = refl },
    rw s,
  )
]

adopt-Moved : (init : ℕ) (exited : Bool) (t : Table) → Moved keep t (adopt init exited t)
unfolding adopt
adopt-Moved init true t = wakeup1-Moved (of_proc init) t
adopt-Moved init false t = Moved-refl t

-- In slot `i`, where `p` stands, the question whether `cur` is the parent has `p`'s answer.
same_slot :
    (cur i j : ℕ) (p q : Proc) (t : Table)
    → get_elem? t i ≡ some p
    → get_elem? t j ≡ some q
    → (i == j) ≡ true
    → is_parent cur q.parent ≡ is_parent cur p.parent
same_slot cur i j p q t e eq s =
    let same : i ≡ j = ==→eq i j s in
    let both : some p ≡ some q = sym e ∙ ap (get_elem? t) same ∙ eq in
    let one : p ≡ q = cc in ap (λ (r : Proc). is_parent cur r.parent) (sym one)

abandon-Moved :
    (cur init i : ℕ) (p : Proc) (t : Table)
    → get_elem? t i ≡ some p
    → Moved (at_slot cur init i) t (abandon cur init i p t)
unfolding abandon
abandon-Moved cur init i p t e = elim (Bool-cases (is_parent cur p.parent)) [
  | inl mine ↦ rw mine (
      Moved-weaken (λ j o. if i == j then some init else o) (at_slot cur init i) t _
        (λ j q eq. taken j q eq mine (Bool-cases (i == j)))
        (Moved-trans (λ j o. if i == j then some init else o) keep t _ _
          (adjust-Moved (λ q. record q { parent = some init }) i (λ o. some init) t
            (λ q. (record { pid = refl; state = inl refl; killed = refl }, refl)))
          (adopt-Moved init (is_zombie p.state) _)))
  | inr other ↦ rw other (
      Moved-weaken keep (at_slot cur init i) t t (λ j q eq. left j q eq other (Bool-cases (i == j)))
        (Moved-refl t))
]
  where
    taken :
        (j : ℕ) (q : Proc)
        → get_elem? t j ≡ some q
        → is_parent cur p.parent ≡ true
        → ((i == j) ≡ true) ⊎ ((i == j) ≡ false)
        → (if i == j then some init else q.parent) ≡ at_slot cur init i j q.parent
    taken j q eq mine (inl s) = rw (s, same_slot cur i j p q t e eq s, mine)
    taken j q eq mine (inr s) = rw s

    left :
        (j : ℕ) (q : Proc)
        → get_elem? t j ≡ some q
        → is_parent cur p.parent ≡ false
        → ((i == j) ≡ true) ⊎ ((i == j) ≡ false)
        → q.parent ≡ at_slot cur init i j q.parent
    left j q eq other (inl s) = rw (s, same_slot cur i j p q t e eq s, other)
    left j q eq other (inr s) = rw s

abandon_at-Moved :
    (cur init i : ℕ) (t : Table) (o : Option Proc)
    → get_elem? t i ≡ o
    → Moved (at_slot cur init i) t (abandon_at cur init i o t)
unfolding abandon_at
abandon_at-Moved cur init i t none e =
    Moved-weaken keep (at_slot cur init i) t t (λ j q eq. out j q eq (Bool-cases (i == j)))
      (Moved-refl t)
  where
    out :
        (j : ℕ) (q : Proc)
        → get_elem? t j ≡ some q
        → ((i == j) ≡ true) ⊎ ((i == j) ≡ false)
        → q.parent ≡ at_slot cur init i j q.parent
    out j q eq (inl s) =
        let same : none ≡ some q = sym e ∙ ap (get_elem? t) (==→eq i j s) ∙ eq in absurd (cc)
    out j q eq (inr s) = rw s
abandon_at-Moved cur init i t (some p) e = abandon-Moved cur init i p t e

-- The slots that `n` turns from slot `i` on pass over.
abbrev pub in_range : ℕ → ℕ → ℕ → Bool
in_range i n j = leb i j && ltb j (i + n)

pub range_step :
    (cur init i n j : ℕ) (o : Option ℕ)
    → (if in_range (i + 1) n j
        then inherit cur init (at_slot cur init i j o)
        else at_slot cur init i j o)
      ≡ (if in_range i (suc n) j then inherit cur init o else o)
range_step cur init i n j o = elim (Bool-cases (i == j)) [
  | inl s ↦
      let past : in_range (i + 1) n j ≡ false = ground arith in
      let now : in_range i (suc n) j ≡ true = ground arith in rw (s, past, now)
  | inr s ↦ let same : in_range (i + 1) n j ≡ in_range i (suc n) j = ground arith in rw (s, same)
]

pub abandon_loop-Moved :
    (cur init n i : ℕ) (t : Table)
    → Moved
        (λ j o. if in_range i n j then inherit cur init o else o)
        t
        (abandon_loop cur init n i t)
unfolding abandon_loop
abandon_loop-Moved cur init zero i t =
    Moved-weaken keep _ t t (λ j q eq. let e : in_range i 0 j ≡ false = ground arith in rw e)
      (Moved-refl t)
abandon_loop-Moved cur init (suc n) i t =
    Moved-weaken _ _ t _ (λ j q eq. range_step cur init i n j q.parent)
      (Moved-trans (at_slot cur init i)
        (λ j o. if in_range (i + 1) n j then inherit cur init o else o) t
        (abandon_at cur init i (get_elem? t i) t) _
        (abandon_at-Moved cur init i t (get_elem? t i) refl)
        (abandon_loop-Moved cur init n (i + 1) (abandon_at cur init i (get_elem? t i) t)))

pub wake_parent-Moved : (parent : Option ℕ) (t : Table) → Moved keep t (wake_parent parent t)
unfolding wake_parent
wake_parent-Moved none t = wakeup1-Moved nowhere t
wake_parent-Moved (some k) t = wakeup1-Moved (of_proc k) t
