-- ===== src/Proc/Wakeup.antt =====
-- `wakeup1`: who is woken.
use mathlib.Core.Option
use xv7_mirror.Base.{
  ℕ, zero, suc, ◌≡◌, refl, ap, Bool, false, ◌&&◌, [], ◌∷◌, get_elem?, length, if◌then◌else◌,
  Bool-cases, inl, inr,
}
use xv7_mirror.Base.Mem.{All}
use xv7_mirror.Proc.{Proc, Table, Chan, runnable, is_sleeping, same_chan, wake, wakeup1}

pub get-wakeup1 :
    (c : Chan) (t : Table) (i : ℕ) → get_elem? (wakeup1 c t) i ≡ Option.map (wake c) (get_elem? t i)
unfolding wakeup1
get-wakeup1 c [] i = refl
get-wakeup1 c (p ∷ ps) zero = refl
get-wakeup1 c (p ∷ ps) (suc i) = get-wakeup1 c ps i

pub length-wakeup1 : (c : Chan) (t : Table) → length (wakeup1 c t) ≡ length t
unfolding wakeup1
length-wakeup1 c [] = refl
length-wakeup1 c (p ∷ ps) = ap suc (length-wakeup1 c ps)

-- The process sleeps on the channel.
abbrev pub waits_on : Chan → Proc → Bool
waits_on c p = is_sleeping p.state && same_chan p.chan c

not-waits_on-wake : (c : Chan) (p : Proc) → waits_on c (wake c p) ≡ false
unfolding wake
not-waits_on-wake c p = elim (Bool-cases (waits_on c p)) [ inl e ↦ rw e | inr e ↦ rw e e ]

All-wakeup1 : (c : Chan) (t : Table) → All (λ p. waits_on c p ≡ false) (wakeup1 c t)
unfolding wakeup1
All-wakeup1 c [] = tt
All-wakeup1 c (p ∷ ps) = (not-waits_on-wake c p, All-wakeup1 c ps)

-- `wakeup1` makes each process that sleeps on the channel runnable and changes nothing else of it,
-- leaves every other process as it is, and behind it nobody sleeps on the channel.
pub wakeup1_lem :
    (c : Chan) (t : Table)
    → All (λ p. waits_on c p ≡ false) (wakeup1 c t)
      × ((i : ℕ)
          → get_elem? (wakeup1 c t) i
            ≡ Option.map
                (λ p. if waits_on c p then record p { state = runnable } else p)
                (get_elem? t i))
unfolding wake
wakeup1_lem c t = (All-wakeup1 c t, get-wakeup1 c t)
