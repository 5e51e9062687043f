-- ===== src/Libc/Time/Tests.antt =====
-- Some dates.
use unix_v7_c.Base.{ℕ, ◌≡◌, ◌≤◌, ◌<◌, ◌+◌, ◌-◌, ◌*◌, ◌/◌, ◌%◌, refl, some, arith}
use unix_v7_c.Base.Int.{pos, negsuc, sub_ℕ}
use unix_v7_c.Libc.Time.{Tm, gmtime, sunday}
use unix_v7_c.Libc.Time.Years.{span}
use unix_v7_c.Libc.Time.Civil.{IsDate, gmtime-Civil}
use unix_v7_c.Libc.Time.Before.{IsYear, days_before, gmtime-before}
use unix_v7_c.Libc.Time.Local.{in_year, sunday-last}

-- Friday, the 29th of February 1980, 12:34:56
abbrev leap_day : Tm
leap_day = record {
  tm_sec = 56;
  tm_min = 34;
  tm_hour = 12;
  tm_mday = 29;
  tm_mon = 1;
  tm_year = pos 80;
  tm_wday = 5;
  tm_yday = 59;
  tm_isdst = 0;
}

leap_day_runs : gmtime (pos 320675696) ≡ some leap_day
unfolding gmtime
leap_day_runs = refl

-- Wednesday, the 31st of December 1969, one second before the end
eve_runs :
    gmtime (negsuc 0)
    ≡ some (record {
      tm_sec = 59;
      tm_min = 59;
      tm_hour = 23;
      tm_mday = 31;
      tm_mon = 11;
      tm_year = pos 69;
      tm_wday = 3;
      tm_yday = 364;
      tm_isdst = 0;
    })
unfolding gmtime
eve_runs = refl

gmtime-Civil_example :
    (tm : Tm) × (y : ℕ) × (gmtime (pos 320675696) ≡ some tm)
    × (1970 ≤ y)
    × IsDate (320675696 % 86400) y tm.tm_yday tm
    × (320675696 / 86400 ≡ span 1970 (y - 1970) + tm.tm_yday)
    × (tm.tm_wday ≡ (320675696 / 86400 + 4) % 7)
    × (tm.tm_year ≡ sub_ℕ (y % 10000) 1900)
gmtime-Civil_example = gmtime-Civil 320675696

gmtime-before_example :
    (tm : Tm) × (k : ℕ) × (gmtime (negsuc 99999) ≡ some tm)
    × (k ≤ 400)
    × IsDate (86400 * days_before 99999 - 100000) (1970 - k) tm.tm_yday tm
    × (tm.tm_yday + days_before 99999 ≡ 146097 * (days_before 99999 / 146097) + span (1970 - k) k)
    × ((tm.tm_wday + days_before 99999) % 7 ≡ 4)
    × IsYear tm (1970 - k) (days_before 99999 / 146097)
gmtime-before_example = gmtime-before 99999

-- The last Sunday in April 1980 was the 27th.
sunday_runs : sunday leap_day 119 ≡ pos 117
unfolding sunday
sunday_runs = refl

-- In 1980 the last Sunday on or before January 6 was this day, and on or before the 5th one in 1979.
sunday_starts : (sunday leap_day 5 ≡ pos 5) × (sunday leap_day 4 ≡ negsuc 1)
unfolding sunday
sunday_starts = (refl, refl)

sunday-last_example :
    (s : ℕ) × (sunday leap_day 119 ≡ sub_ℕ s 7)
    × (in_year leap_day 119 < s)
    × (s ≤ in_year leap_day 119 + 7)
    × ((s + 5 + 371 - 59) % 7 ≡ 0)
sunday-last_example = sunday-last leap_day 119 (omega arith) (omega arith)
