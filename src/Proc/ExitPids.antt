-- ===== src/Proc/ExitPids.antt =====
-- `exit` makes nobody live.
use xv7_mirror.Base.{
  ℕ, zero, suc, ◌+◌, ◌≡◌, refl, ◌∙◌, Bool, true, false, Option, none, some, arith, get_elem?,
  length, Bool-cases, inl, inr, subst,
}
use xv7_mirror.Proc.{
  Proc, Table, nowhere, of_proc, zombie, is_zombie, is_parent, adjust, abandon_loop, abandon_at,
  abandon, adopt, wake_parent, exit,
}
use xv7_mirror.Proc.Pids.{Live, Fewer, Fewer-refl, adjust-Fewer, wakeup1-Fewer, own-Fewer}
use xv7_mirror.Proc.Moved.{Later}
use xv7_mirror.Proc.Exit.{closed, orphaned, orphaned-Moved}

Fewer-trans : (t u v : Table) → Fewer t u → Fewer u v → Fewer t v
Fewer-trans t u v f g i r e l =
    let (q, eq, lq, sq) = g i r e l in let (p, ep, lp, sp) = f i q eq lq in (p, ep, lp, sq ∙ sp)

abandon_at-Fewer :
    (cur init i : ℕ) (o : Option Proc) (t : Table) → Fewer t (abandon_at cur init i o t)
unfolding abandon_at abandon
abandon_at-Fewer cur init i none t = Fewer-refl t
abandon_at-Fewer cur init i (some p) t = elim (Bool-cases (is_parent cur p.parent)) [
  | inl h ↦ rw h (
      Fewer-trans _ _ _ (adjust-Fewer (λ q. record q { parent = some init }) t i λ q e l. (l, refl))
        (adopt-Fewer (is_zombie p.state) (adjust t i (λ q. record q { parent = some init }))))
  | inr h ↦ rw h (Fewer-refl t)
]
  where
    adopt-Fewer : (b : Bool) (u : Table) → Fewer u (adopt init b u)
    adopt-Fewer true u = unfold adopt in wakeup1-Fewer (of_proc init) u
    adopt-Fewer false u = unfold adopt in Fewer-refl u

abandon_loop-Fewer : (cur init n i : ℕ) (t : Table) → Fewer t (abandon_loop cur init n i t)
unfolding abandon_loop
abandon_loop-Fewer cur init zero i t = Fewer-refl t
abandon_loop-Fewer cur init (suc n) i t =
    Fewer-trans _ _ _ (abandon_at-Fewer cur init i (get_elem? t i) t)
      (abandon_loop-Fewer cur init n (i + 1) (abandon_at cur init i (get_elem? t i) t))

wake_parent-Fewer : (parent : Option ℕ) (t : Table) → Fewer t (wake_parent parent t)
unfolding wake_parent
wake_parent-Fewer none t = wakeup1-Fewer nowhere t
wake_parent-Fewer (some k) t = wakeup1-Fewer (of_proc k) t

Later-Live : (p q : Proc) → Later p q → Live p → Live q
Later-Live p q h l = ground (arith, h.state)

-- `exit` of a live process makes nobody live.
pub exit-Fewer :
    (cur init : ℕ) (parent : Option ℕ) (t : Table) {u : Table} (p : Proc)
    → get_elem? t cur ≡ some p
    → Live p
    → exit cur init parent t ≡ some u
    → Fewer t u
unfolding exit orphaned closed
exit-Fewer cur init parent t {u} p e l h =
    let (q, eq, later, par) = orphaned-Moved cur init parent t cur p e in
    let all : Fewer t (adjust (orphaned cur init parent t) cur (λ p. record p { state = zombie })) =
      Fewer-trans _ _ _ (adjust-Fewer _ t cur λ q e l. (l, refl)) (
        Fewer-trans _ _ _ (wake_parent-Fewer parent (closed cur init parent t)) (
          Fewer-trans _ _ _
            (abandon_loop-Fewer cur init (length (closed cur init parent t)) 0
              (wake_parent parent (closed cur init parent t)))
            (own-Fewer (λ p. record p { state = zombie }) (orphaned cur init parent t) cur q eq
              (Later-Live p q later l) (λ r. refl)))) in
    let same : adjust (orphaned cur init parent t) cur (λ p. record p { state = zombie }) ≡ u =
      ground (arith, h) in
    subst (Fewer t) same all
