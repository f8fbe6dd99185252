-- ===== src/Ulib.antt =====
-- ulib/ulib.c: string routines of the user library, on the memory of kernel/string.c's model.
-- A loop that stops at a NUL runs on fuel, and `none` is out of fuel.
pub mod Compare
pub mod Copy
mod Examples
use xv7_mirror.Str.{Mem, store}
use xv7_mirror.Base.{
  ℕ, zero, suc, ◌+◌, Bool, true, false, ◌&&◌, not, Option, none, some, ltb, ◌==◌, if◌then◌else◌,
}

-- `while ((*s++ = *t++) != 0);`
pub strcpy : ℕ → ℕ → ℕ → Mem → Option Mem
strcpy zero s t m = none
strcpy (suc fuel) s t m = elim (m t == 0) [
  | true ↦ some (store s (m t) m)
  | false ↦ strcpy fuel (s + 1) (t + 1) (store s (m t) m)
]

-- The two bytes whose difference `strcmp` returns.
pub strcmp : ℕ → ℕ → ℕ → Mem → Option (ℕ × ℕ)
strcmp zero p q m = none
strcmp (suc fuel) p q m = elim (not (m p == 0) && (m p == m q)) [
  | true ↦ strcmp fuel (p + 1) (q + 1) m
  | false ↦ some (m p, m q)
]

-- The two bytes at which `strncmp` finds a difference; none for its 0. `n` rounds are left.
pub strncmp : (p q n : ℕ) → Mem → Option (ℕ × ℕ)
strncmp p q zero m = none
strncmp p q (suc n) m =
    let rest = strncmp (p + 1) (q + 1) n m in
    if not (m p == m q) then some (m p, m q) else if m p == 0 then none else rest

-- `memcmp`, which returns the test `p1[i] < p2[i]` at the first difference.
pub memcmp : (p q n : ℕ) → Mem → ℕ
memcmp p q zero m = 0
memcmp p q (suc n) m =
    let rest = memcmp (p + 1) (q + 1) n m in
    if not (m p == m q) then if ltb (m p) (m q) then 1 else 0 else rest

-- `memmove`, and the loop of `memcpy` and `strncpy`.
pub memmove : (d s n : ℕ) → Mem → Mem
memmove d s zero m = m
memmove d s (suc n) m = memmove (d + 1) (s + 1) n (store d (m s) m)

-- The two loops of `strcat`, which ends with the NUL.
pub find_end : ℕ → ℕ → Mem → Option ℕ
find_end zero d m = none
find_end (suc fuel) d m = elim (m d == 0) [ true ↦ some d | false ↦ find_end fuel (d + 1) m ]

pub append_loop : ℕ → ℕ → ℕ → Mem → Option Mem
append_loop zero d s m = none
append_loop (suc fuel) d s m = elim (m s == 0) [
  | true ↦ some (store d 0 m)
  | false ↦ append_loop fuel (d + 1) (s + 1) (store d (m s) m)
]

pub strcat : ℕ → ℕ → ℕ → Mem → Option Mem
unfolding find_end append_loop
strcat fuel d s m = elim (find_end fuel d m) [ none ↦ none | some e ↦ append_loop fuel e s m ]
