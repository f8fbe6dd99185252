-- ===== src/Spinlock/Nesting.antt =====
-- `pushcli` and `popcli` are matched.
use xv7_mirror.Base.{
  ℕ, zero, suc, ◌+◌, ◌-◌, ◌≡◌, ◌≢◌, refl, ap, sym, ◌∙◌, false, Option, none, some, arith, ◌==◌,
  if◌then◌else◌, Bool-cases, inl, inr,
}
use xv7_mirror.Spinlock.{Cpu, pushcli, popcli}

-- Interrupts are off wherever `pushcli` was called and not undone.
abbrev pub Masked : Cpu → Type 0
Masked c = c.ncli ≢ 0 → c.flag ≡ false

-- `n` calls.
pub pushes : ℕ → Cpu → Cpu
pushes zero c = c
pushes (suc n) c = pushcli (pushes n c)

pub pops : ℕ → Cpu → Option Cpu
pops zero c = some c
pops (suc n) c = elim (popcli c) [ none ↦ none | some d ↦ pops n d ]

pub pushcli-popcli :
    (c : Cpu)
    → Masked c
    → popcli (pushcli c) ≡ some (record c { intena = if c.ncli == 0 then c.flag else c.intena })
unfolding pushcli popcli
pushcli-popcli c m =
    let counted : (c.ncli + 1 == 0) ≡ false = ground arith in
    let back : c.ncli + 1 - 1 ≡ c.ncli = omega arith in
    rw (counted, back)
      (elim (Bool-cases (c.ncli == 0)) [
        | inl h ↦ rw h
        | inr h ↦
            let off : c.flag ≡ false = m (ground arith) in
            rw h (ap (λ b. some (record c { flag = b })) (sym off))
      ])

pushcli-popcli_pos : (c : Cpu) → Masked c → c.ncli ≢ 0 → popcli (pushcli c) ≡ some c
pushcli-popcli_pos c m h =
    let counted : (c.ncli == 0) ≡ false = ground arith in pushcli-popcli c m ∙ rw counted

pushcli-Masked : (c : Cpu) → Masked (pushcli c)
unfolding pushcli
pushcli-Masked c h = refl

pushes-Masked : (n : ℕ) (c : Cpu) → Masked c → Masked (pushes n c)
unfolding pushes
pushes-Masked zero c m = m
pushes-Masked (suc n) c m = pushcli-Masked (pushes n c)

pushcli-ncli : (c : Cpu) → (pushcli c).ncli ≡ c.ncli + 1
unfolding pushcli
pushcli-ncli c = refl

-- Where interrupts are off behind every `pushcli`, as many calls of `popcli` as of `pushcli` stop
-- nothing and bring back the interrupt flag and the count; in between, after one call or more, the
-- flag is off.
pub cli_nest :
    (n : ℕ) (c : Cpu)
    → Masked c
    → (d : Cpu) × (pops n (pushes n c) ≡ some d)
      × (d.flag ≡ c.flag)
      × (d.ncli ≡ c.ncli)
      × (n ≢ 0 → (pushes n c).flag ≡ false)
unfolding pops pushes
cli_nest zero c m = (c, refl, refl, refl, λ h. absurd (h refl))
cli_nest (suc zero) c m = (
  record c { intena = if c.ncli == 0 then c.flag else c.intena },
  rw (pushcli-popcli c m, pops),
  refl,
  refl,
  λ h. unfold pushcli in refl,
)
cli_nest (suc (suc n)) c m =
    let (d, e, f, g, off) = cli_nest (suc n) c m in
    let undone : popcli (pushcli (pushcli (pushes n c))) ≡ some (pushcli (pushes n c)) =
      pushcli-popcli_pos (pushcli (pushes n c)) (pushcli-Masked (pushes n c))
        (omega (arith, pushcli-ncli (pushes n c))) in
    (d, rw (undone, pops) e, f, g, λ h. unfold pushcli in refl)
