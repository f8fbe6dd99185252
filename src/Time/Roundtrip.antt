-- ===== src/Time/Roundtrip.antt =====
-- `ctime` reads back the date that `unix_converttime` was given.
use xv7_mirror.Base.{
  ℕ, suc, ◌+◌, ◌-◌, ◌*◌, ◌/◌, ◌%◌, ◌^◌, ◌≡◌, ◌≤◌, ◌<◌, ap, sym, ◌∙◌, some, arith, subst,
}
use xv7_mirror.Time.{
  RtcDate, year_days, month_days, years_loop, months_loop, unix_converttime, ctime_fields, of_year,
  of_month, year_loop, month_loop,
}
use xv7_mirror.Time.Calendar.{
  years_sum, months_sum, years_loop_lem, months_loop_lem, year_loop_lem, month_loop_lem,
  years_sum_mono, years_sum-suc, years_sum_2038, months_sum-lt,
}

-- A date of the calendar from 1970 on, before the seconds since then pass 2^31.
pub record IsDate (r : RtcDate) : Type 0 where
  pub second : r.second < 60
  pub minute : r.minute < 60
  pub hour : r.hour < 24
  pub day_from : 1 ≤ r.day
  pub day_to : r.day ≤ month_days r.year (r.month - 1)
  pub month_from : 1 ≤ r.month
  pub month_to : r.month ≤ 12
  pub year_from : 1970 ≤ r.year
  pub year_to : r.year < 2038

-- The days from 1 January 1970 to a date.
abbrev pub days_before : RtcDate → ℕ
days_before r = years_sum (r.year - 1970) 1970 + (months_sum r.year (r.month - 1) 0 + (r.day - 1))

module _ (r : RtcDate) (d : IsDate r) where
  -- The day of the year, counted from 0.
  in_year : months_sum r.year (r.month - 1) 0 + (r.day - 1) < year_days r.year
  in_year = months_sum-lt r.year (r.month - 1) (r.day - 1) (omega arith) (omega arith)

  days_before-lt : days_before r < 24837
  days_before-lt =
      let year : 1970 + (r.year - 1970) ≡ r.year = omega arith in
      let n : ℕ = r.year - 1970 in
      let e : suc n + (67 - n) ≡ 68 = omega arith in
      let upto : years_sum (suc n) 1970 ≤ years_sum 68 1970 =
        subst (λ m. years_sum (suc n) 1970 ≤ years_sum m 1970) e
          (years_sum_mono (suc n) (67 - n) 1970) in
      let step : years_sum (suc n) 1970 ≡ years_sum n 1970 + year_days r.year =
        years_sum-suc n 1970 ∙ ap (λ y. years_sum n 1970 + year_days y) year in
      omega (arith, in_year, upto, step, years_sum_2038)

  converttime_exact :
      unix_converttime r ≡ days_before r * 86400 + r.hour * 3600 + r.minute * 60 + r.second
  unfolding unix_converttime
  converttime_exact =
      let days : months_loop r.year (r.month - 1) 1 (years_loop (r.year - 1970) 1970 0)
          ≡ years_sum (r.year - 1970) 1970 + months_sum r.year (r.month - 1) 0 =
        months_loop_lem r.year (r.month - 1) 0 (years_loop (r.year - 1970) 1970 0)
        ∙ ap (λ k. k + months_sum r.year (r.month - 1) 0) (years_loop_lem (r.year - 1970) 1970 0)
        ∙ omega arith in
      rw days (omega (arith, days_before-lt))

-- The numbers that `ctime` prints for the seconds that `unix_converttime` computes from a date of the
-- years 1970 to 2037 are those of the date, and these seconds are not negative as an `int`.
pub ctime-converttime :
    (fuel : ℕ) (r : RtcDate)
    → IsDate r
    → r.year - 1970 < fuel
    → (ctime_fields fuel (unix_converttime r) ≡ some r) × (unix_converttime r < 2 ^ 31)
unfolding ctime_fields of_year of_month
ctime-converttime fuel r d enough =
    let t = converttime_exact r d in
    let small = days_before-lt r d in
    let days : unix_converttime r / 60 / 60 / 24 ≡ days_before r = omega arith in
    let year : 1970 + (r.year - 1970) ≡ r.year = omega arith in
    let month : 0 + (r.month - 1) ≡ r.month - 1 = omega arith in
    let sec : unix_converttime r % 60 ≡ r.second = omega arith in
    let minute : unix_converttime r / 60 % 60 ≡ r.minute = omega arith in
    let hour : unix_converttime r / 60 / 60 % 24 ≡ r.hour = omega arith in
    let rest : ℕ = months_sum r.year (r.month - 1) 0 + (r.day - 1) in
    let in_this_year : rest < year_days (1970 + (r.year - 1970)) =
      subst (λ y. rest < year_days y) (sym year) (in_year r d) in
    let years : year_loop fuel 1970 (days_before r) ≡ some (r.year, rest) =
      year_loop_lem (r.year - 1970) fuel 1970 rest enough in_this_year
      ∙ ap (λ y. some (y, rest)) year in
    let in_this_month : r.day - 1 < month_days r.year (0 + (r.month - 1)) =
      subst (λ m. r.day - 1 < month_days r.year m) (sym month) (omega arith) in
    let months : month_loop r.year 12 0 rest ≡ some (r.month - 1, r.day - 1) =
      month_loop_lem r.year (r.month - 1) 12 0 (r.day - 1) (omega arith) in_this_month
      ∙ ap (λ m. some (m, r.day - 1)) month in
    (rw (sec, minute, hour, days, years, months) (ground arith), omega arith)
