-- ===== src/Time.antt =====
-- kernel/time.c and ulib/time.c: calendar dates to Unix seconds in the kernel, and back in `ctime`.
pub mod Calendar
pub mod Roundtrip
mod Examples
use xv7_mirror.Base.{
  ℕ, zero, suc, ◌+◌, ◌-◌, ◌*◌, ◌/◌, ◌%◌, ◌^◌, Bool, true, false, ◌&&◌, ◌||◌, not, Option, none,
  some, List, [], ◌∷◌, ltb, leb, ◌==◌, if◌then◌else◌, get_or, length,
}

-- `struct rtcdate`.
pub record RtcDate : Type 0 where
  pub second : ℕ
  pub minute : ℕ
  pub hour : ℕ
  pub day : ℕ
  pub month : ℕ
  pub year : ℕ

unfoldable pub leapyear : ℕ → Bool
leapyear year = (year % 4 == 0) && (not (year % 100 == 0) || (year % 400 == 0))

abbrev pub mdays : List ℕ
mdays = 31 ∷ 28 ∷ 31 ∷ 30 ∷ 31 ∷ 30 ∷ 31 ∷ 31 ∷ 30 ∷ 31 ∷ 30 ∷ 31 ∷ []

-- `leapyear(i) ? 366 : 365`
pub year_days : ℕ → ℕ
year_days year = if leapyear year then 366 else 365

-- The first loop of `unix_converttime`: `n` rounds from year `i` on.
pub years_loop : ℕ → ℕ → ℕ → ℕ
years_loop zero i days = days
years_loop (suc n) i days = years_loop n (i + 1) (days + year_days i)

-- The second: `n` rounds from month `i` on.
pub months_loop : ℕ → ℕ → ℕ → ℕ → ℕ
months_loop year zero i days = days
months_loop year (suc n) i days =
    let days' = days + get_or mdays (i - 1) 0 in
    months_loop year n (i + 1) (if (i == 2) && leapyear year then days' + 1 else days')

-- `unix_converttime`. Its `int` is the 32 bits that it holds; `day - 1` is in `uint`.
pub unix_converttime : RtcDate → ℕ
unfolding years_loop months_loop
unix_converttime r =
    let before = months_loop r.year (r.month - 1) 1 (years_loop (r.year - 1970) 1970 0) in
    let days = (before + (r.day + 2 ^ 32 - 1)) % 2 ^ 32 in
    (days * 86400 + r.hour * 3600 + r.minute * 60 + r.second) % 2 ^ 32

-- The year loop of `ctime`: the year, and what is left of the days. `none` is out of fuel.
pub year_loop : ℕ → ℕ → ℕ → Option (ℕ × ℕ)
year_loop zero year t = none
year_loop (suc fuel) year t =
    let rest = year_loop fuel (year + 1) (t - year_days year) in
    if leb (year_days year) t then rest else some (year, t)

-- The days of month `month`, counted from 0, as `ctime` takes them.
pub month_days : ℕ → ℕ → ℕ
month_days year month =
    let days = get_or mdays month 0 in if (month == 1) && leapyear year then days + 1 else days

-- The month loop of `ctime`, with `n` months left before the end of its table: `none` reads past it.
pub month_loop : ℕ → ℕ → ℕ → ℕ → Option (ℕ × ℕ)
month_loop year zero month t = none
month_loop year (suc n) month t =
    let rest = month_loop year n (month + 1) (t - month_days year month) in
    if leb (month_days year month) t then rest else some (month, t)

of_month : (sec min hour year : ℕ) → Option (ℕ × ℕ) → Option RtcDate
of_month sec min hour year none = none
of_month sec min hour year (some (month, t)) = some (record {
  second = sec;
  minute = min;
  hour = hour;
  day = t + 1;
  month = month + 1;
  year = year;
})

of_year : (sec min hour : ℕ) → Option (ℕ × ℕ) → Option RtcDate
unfolding of_month
of_year sec min hour none = none
of_year sec min hour (some (year, t)) = of_month sec min hour year (month_loop year 12 0 t)

-- The numbers that `ctime` prints for a time that is not negative.
pub ctime_fields : ℕ → ℕ → Option RtcDate
unfolding of_year of_month
ctime_fields fuel t =
    of_year (t % 60) (t / 60 % 60) (t / 60 / 60 % 24) (year_loop fuel 1970 (t / 60 / 60 / 24))
