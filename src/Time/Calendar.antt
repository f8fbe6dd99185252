-- ===== src/Time/Calendar.antt =====
-- Sums of years and months, and the loops that add them up or take them away.
use xv7_mirror.Base.{
  subst, inl, inr, ℕ, zero, suc, ◌+◌, ◌-◌, ◌≡◌, ◌≤◌, ◌<◌, refl, ap, ◌∙◌, true, false, ◌&&◌, some,
  arith, leb, ◌==◌, if◌then◌else◌, get_or, Bool-cases,
}
use xv7_mirror.Time.{
  leapyear, mdays, year_days, years_loop, months_loop, year_loop, month_days, month_loop,
}

-- The days of the `n` years from `year` on, and of the `n` months from `month` on (0 is January).
pub years_sum : ℕ → ℕ → ℕ
years_sum zero year = 0
years_sum (suc n) year = year_days year + years_sum n (year + 1)

pub months_sum : ℕ → ℕ → ℕ → ℕ
months_sum year zero month = 0
months_sum year (suc n) month = month_days year month + months_sum year n (month + 1)

pub years_loop_lem : (n i days : ℕ) → years_loop n i days ≡ days + years_sum n i
unfolding years_loop years_sum
years_loop_lem zero i days = omega arith
years_loop_lem (suc n) i days = omega (arith, years_loop_lem n (i + 1) (days + year_days i))

-- One round of the kernel's loop adds the days that `ctime` takes away.
month_step :
    (year month days : ℕ)
    → (if (month + 1 == 2) && leapyear year
        then days + get_or mdays (month + 1 - 1) 0 + 1
        else days + get_or mdays (month + 1 - 1) 0)
      ≡ days + month_days year month
unfolding month_days
month_step year month days =
    let e : month + 1 - 1 ≡ month = omega arith in
    let february : (month + 1 == 2) ≡ (month == 1) = ground arith in
    rw (february, e)
      (elim (Bool-cases ((month == 1) && leapyear year)) [
        | inl h ↦ rw h (omega arith)
        | inr h ↦ rw h
      ])

-- The kernel counts months from 1, `ctime` from 0.
pub months_loop_lem :
    (year n month days : ℕ) → months_loop year n (month + 1) days ≡ days + months_sum year n month
unfolding months_loop months_sum
months_loop_lem year zero month days = omega arith
months_loop_lem year (suc n) month days =
    rw (month_step year month days)
      (months_loop_lem year n (month + 1) (days + month_days year month) ∙ omega arith)

pub year_loop_lem :
    (n fuel year rest : ℕ)
    → n < fuel
    → rest < year_days (year + n)
    → year_loop fuel year (years_sum n year + rest) ≡ some (year + n, rest)
unfolding year_loop years_sum
year_loop_lem zero zero year rest h k = absurd (omega arith)
year_loop_lem zero (suc fuel) year rest h k =
    let e : year + 0 ≡ year = omega arith in
    let k' : rest < year_days year = subst (λ y. rest < year_days y) e k in
    let stop : leb (year_days year) (0 + rest) ≡ false = ground arith in
    rw (stop, e) (ap (λ r. some (year, r)) (omega arith))
year_loop_lem (suc n) zero year rest h k = absurd (omega arith)
year_loop_lem (suc n) (suc fuel) year rest h k =
    let e : year + suc n ≡ year + 1 + n = omega arith in
    let k' : rest < year_days (year + 1 + n) = subst (λ y. rest < year_days y) e k in
    let go : leb (year_days year) (year_days year + years_sum n (year + 1) + rest) ≡ true =
      ground arith in
    let left : year_days year + years_sum n (year + 1) + rest - year_days year
        ≡ years_sum n (year + 1) + rest =
      omega arith in
    rw (go, left, e) (year_loop_lem n fuel (year + 1) rest (omega arith) k')

pub month_loop_lem :
    (year n left month rest : ℕ)
    → n < left
    → rest < month_days year (month + n)
    → month_loop year left month (months_sum year n month + rest) ≡ some (month + n, rest)
unfolding month_loop months_sum
month_loop_lem year zero zero month rest h k = absurd (omega arith)
month_loop_lem year zero (suc left) month rest h k =
    let e : month + 0 ≡ month = omega arith in
    let k' : rest < month_days year month = subst (λ m. rest < month_days year m) e k in
    let stop : leb (month_days year month) (0 + rest) ≡ false = ground arith in
    rw (stop, e) (ap (λ r. some (month, r)) (omega arith))
month_loop_lem year (suc n) zero month rest h k = absurd (omega arith)
month_loop_lem year (suc n) (suc left) month rest h k =
    let e : month + suc n ≡ month + 1 + n = omega arith in
    let k' : rest < month_days year (month + 1 + n) = subst (λ m. rest < month_days year m) e k in
    let go : leb (month_days year month)
          (month_days year month + months_sum year n (month + 1) + rest)
        ≡ true =
      ground arith in
    let less : month_days year month + months_sum year n (month + 1) + rest - month_days year month
        ≡ months_sum year n (month + 1) + rest =
      omega arith in
    rw (go, less, e) (month_loop_lem year n left (month + 1) rest (omega arith) k')

pub years_sum-suc : (n year : ℕ) → years_sum (suc n) year ≡ years_sum n year + year_days (year + n)
unfolding years_sum
years_sum-suc zero year = let e : year ≡ year + 0 = omega arith in rw (← e) (omega arith)
years_sum-suc (suc n) year =
    let e : year + suc n ≡ year + 1 + n = omega arith in
    rw e (omega (arith, years_sum-suc n (year + 1)))

pub years_sum_mono : (n k year : ℕ) → years_sum n year ≤ years_sum (n + k) year
unfolding years_sum
years_sum_mono n zero year = let e : n + 0 ≡ n = omega arith in rw e (omega arith)
years_sum_mono n (suc k) year =
    let e : n + suc k ≡ suc (n + k) = omega arith in
    rw e (omega (arith, years_sum_mono n k year, years_sum-suc (n + k) year))

-- The `int` of seconds lasts until the end of the year 2037.
pub years_sum_2038 : years_sum 68 1970 ≡ 24837
unfolding years_sum year_days leapyear
years_sum_2038 = refl

months_sum-suc :
    (year n month : ℕ)
    → months_sum year (suc n) month ≡ months_sum year n month + month_days year (month + n)
unfolding months_sum
months_sum-suc year zero month = let e : month + 0 ≡ month = omega arith in rw e (omega arith)
months_sum-suc year (suc n) month =
    let e : month + suc n ≡ month + 1 + n = omega arith in
    rw e (omega (arith, months_sum-suc year n (month + 1)))

months_sum_mono : (year n k month : ℕ) → months_sum year n month ≤ months_sum year (n + k) month
months_sum_mono year n zero month = let e : n + 0 ≡ n = omega arith in rw e (omega arith)
months_sum_mono year n (suc k) month =
    let e : n + suc k ≡ suc (n + k) = omega arith in
    rw e (omega (arith, months_sum_mono year n k month, months_sum-suc year (n + k) month))

-- The twelve months make up the year.
months_sum_12 : (year : ℕ) → months_sum year 12 0 ≡ year_days year
unfolding months_sum month_days year_days
months_sum_12 year = elim (Bool-cases (leapyear year)) [ inl h ↦ rw h | inr h ↦ rw h ]

-- The days before a day of a year are fewer than the year has.
pub months_sum-lt :
    (year n rest : ℕ)
    → n < 12
    → rest < month_days year n
    → months_sum year n 0 + rest < year_days year
months_sum-lt year n rest h k =
    let e : suc n + (11 - n) ≡ 12 = omega arith in
    let whole : months_sum year (suc n) 0 ≤ months_sum year 12 0 =
      subst (λ m. months_sum year (suc n) 0 ≤ months_sum year m 0) e
        (months_sum_mono year (suc n) (11 - n) 0) in
    let z : 0 + n ≡ n = omega arith in
    let step : months_sum year (suc n) 0 ≡ months_sum year n 0 + month_days year n =
      months_sum-suc year n 0 ∙ ap (λ m. months_sum year n 0 + month_days year m) z in
    omega (arith, whole, step, months_sum_12 year)
