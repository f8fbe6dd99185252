-- ===== src/Time/Examples.antt =====
-- The date conversions on a leap day.
use xv7_mirror.Base.{◌<◌, ◌≡◌, ◌^◌, arith, some}
use xv7_mirror.Time.{RtcDate, leapyear, month_days, unix_converttime, ctime_fields}
use xv7_mirror.Time.Roundtrip.{IsDate, ctime-converttime}

abbrev leap_day : RtcDate
leap_day = record { second = 59; minute = 30; hour = 23; day = 29; month = 2; year = 2020 }

leap_day-IsDate : IsDate leap_day
unfolding month_days leapyear
leap_day-IsDate = record {
  second = omega arith;
  minute = omega arith;
  hour = omega arith;
  day_from = omega arith;
  day_to = omega arith;
  month_from = omega arith;
  month_to = omega arith;
  year_from = omega arith;
  year_to = omega arith;
}

ctime-converttime_example :
    (ctime_fields 60 (unix_converttime leap_day) ≡ some leap_day)
    × (unix_converttime leap_day < 2 ^ 31)
ctime-converttime_example = ctime-converttime 60 leap_day leap_day-IsDate (omega arith)
