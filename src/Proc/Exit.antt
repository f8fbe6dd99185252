-- ===== src/Proc/Exit.antt =====
-- `exit`: the children find a new parent, and the slot becomes a zombie.
use mathlib.Core.Option
use xv7_mirror.Base.{
  ℕ, ◌≡◌, ◌≢◌, refl, Bool, true, false, Option, some, arith, get_elem?, length, if◌then◌else◌, inl,
  ◌⊎◌, ◌==◌, get_elem?-lt_length, replicate,
}
use xv7_mirror.Proc.{Proc, Table, sleeping, runnable, zombie, adjust, abandon_loop, wake_parent}
use xv7_mirror.Proc.Slots.{length-adjust}
use xv7_mirror.Proc.Moved.{
  Moved, keep, inherit, in_range, Moved-trans, Moved-weaken, adjust-Moved, abandon_loop-Moved,
  wake_parent-Moved,
}

-- The state of slot `j` when `exit` of slot `cur` is done.
abbrev pub AfterExit : (cur j : ℕ) → Proc → Proc → Type 0
AfterExit cur j p q =
    (j ≡ cur → q.state ≡ zombie)
    × (j ≢ cur → (q.state ≡ p.state) ⊎ ((p.state ≡ sleeping) × (q.state ≡ runnable)))

module _ (cur init : ℕ) (parent : Option ℕ) (t : Table) where
  unfoldable pub closed : Table
  closed = adjust t cur (λ p. record p { ofile = replicate 16 0; cwd = 0 })

  unfoldable pub orphaned : Table
  orphaned = abandon_loop cur init (length closed) 0 (wake_parent parent closed)

  pub orphaned-Moved : Moved (λ j o. inherit cur init o) t orphaned
  unfolding orphaned closed
  orphaned-Moved = Moved-weaken _ _ t _ all_slots (
      Moved-trans keep (λ j o. if in_range 0 (length closed) j then inherit cur init o else o) t
        closed _
        (Moved-weaken _ keep t closed (λ j q eq. unchanged (cur == j) q.parent)
          (adjust-Moved _ cur (λ o. o) t
            (λ q. (record { pid = refl; state = inl refl; killed = refl }, refl))))
        (Moved-trans keep (λ j o. if in_range 0 (length closed) j then inherit cur init o else o)
          closed (wake_parent parent closed) _ (wake_parent-Moved parent closed)
          (abandon_loop-Moved cur init (length closed) 0 (wake_parent parent closed))))
    where
      unchanged : (b : Bool) (o : Option ℕ) → (if b then o else o) ≡ o
      unchanged true o = refl
      unchanged false o = refl

      all_slots :
          (j : ℕ) (q : Proc)
          → get_elem? t j ≡ some q
          → (if in_range 0 (length closed) j then inherit cur init q.parent else q.parent)
            ≡ inherit cur init q.parent
      all_slots j q eq =
          let inside : in_range 0 (length closed) j ≡ true = ground (
            arith,
            get_elem?-lt_length t j eq,
            length-adjust (λ p. record p { ofile = replicate 16 0; cwd = 0 }) t cur,
          ) in
          rw inside
