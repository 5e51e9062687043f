-- ===== src/Libc/Time/Civil.antt =====
-- `gmtime` gives the date of the Gregorian calendar.
use unix_v7_c.Base.{
  ℕ, ◌+◌, ◌-◌, ◌*◌, ◌/◌, ◌%◌, ◌≤◌, ◌<◌, ◌≡◌, refl, ap, sym, ◌∙◌, Bool, true, false, some, arith,
  ◌==◌, if◌then◌else◌, length, get_or, set, take, subst,
}
use unix_v7_c.Base.Int.{ℤ, pos, sub_ℕ}
use unix_v7_c.Libc.Time.{
  Tm, dysize, dmsize, split, year_of, month_of, tm_year_of, wday_of, gmtime, quotient, remainder,
}
use unix_v7_c.Libc.Time.Years.{
  span, total, months, dysize_period, cycle_days, days_since, years_up_finds, month_of_finds,
  total-months,
}

-- The fields that do not depend on the sign of the time: `day` is the number of the day, from 0, in
-- the year y, and `hms` the second of the day.
pub record IsDate (hms y day : ℕ) (tm : Tm) : Type 0 where
  pub clock : hms ≡ 3600 * tm.tm_hour + 60 * tm.tm_min + tm.tm_sec
  pub sec : tm.tm_sec < 60
  pub min : tm.tm_min < 60
  pub hour : tm.tm_hour < 24
  pub yday : tm.tm_yday ≡ day
  pub in_year : day < dysize y
  pub in_month : 1 ≤ tm.tm_mday
  pub to_month : tm.tm_mday ≤ get_or (months y) tm.tm_mon 0
  pub mon : tm.tm_mon < 12
  pub month : day + 1 ≡ total (take tm.tm_mon (months y)) + tm.tm_mday
  pub isdst : tm.tm_isdst ≡ 0

length-months : (y : ℕ) → length (months y) ≡ 12
length-months y = by_size (dysize y == 366)
  where
    by_size : (b : Bool) → length (if b then set dmsize 1 29 else dmsize) ≡ 12
    by_size true = refl
    by_size false = refl

abbrev pub date : ℕ → ℕ → ℤ → ℕ → ℕ × ℕ → Tm
date hms wday year day m = record {
  tm_sec = hms % 60;
  tm_min = hms / 60 % 60;
  tm_hour = hms / 60 / 60;
  tm_mday = m.1 + 1;
  tm_mon = m.0;
  tm_year = year;
  tm_wday = wday;
  tm_yday = day;
  tm_isdst = 0;
}

pub month-IsDate :
    (hms wday : ℕ) (year : ℤ) (y day : ℕ)
    → hms < 86400
    → day < dysize y
    → (k : ℕ) × (rest : ℕ) × (month_of (months y) 0 day ≡ some (k, rest))
      × IsDate hms y day (date hms wday year day (k, rest))
month-IsDate hms wday year y day h small =
    let (k, rest, found, sum, inside, few) =
      month_of_finds (months y) 0 day (omega (arith, small, total-months y)) in
    let z : 0 + k ≡ k = omega arith in
    (
      k,
      rest,
      subst (λ i. month_of (months y) 0 day ≡ some (i, rest)) z found,
      record {
        clock = omega arith;
        sec = omega arith;
        min = omega arith;
        hour = omega (arith, h);
        yday = refl;
        in_year = small;
        in_month = omega arith;
        to_month = omega (arith, inside);
        mon = omega (arith, few, length-months y);
        month = omega (arith, sum);
        isdst = refl;
      },
    )

-- The fields, once the loops are done.
pub gmtime-date :
    (t : ℤ) (hms : ℕ) (days : ℤ) (y day k rest : ℕ)
    → split t ≡ (pos hms, days)
    → year_of (remainder days 146097) ≡ some (y, day)
    → month_of (months y) 0 day ≡ some (k, rest)
    → gmtime t
      ≡ some (
          date hms
            (wday_of (remainder days 146097))
            (tm_year_of y (quotient days 146097))
            day
            (k, rest))
unfolding gmtime
gmtime-date t hms days y day k rest parts found month = rw (parts, found, month) refl

-- 400 years on, the dates are the same.
IsDate-period : (hms y day c : ℕ) (tm : Tm) → IsDate hms y day tm → IsDate hms (y + 400 * c) day tm
IsDate-period hms y day c tm g = record {
  clock = g.clock;
  sec = g.sec;
  min = g.min;
  hour = g.hour;
  yday = g.yday;
  in_year = rw (dysize_period y c) g.in_year;
  in_month = g.in_month;
  to_month = rw (dysize_period y c) g.to_month;
  mon = g.mon;
  month = rw (dysize_period y c) g.month;
  isdst = g.isdst;
}

year_mod : (y c : ℕ) → tm_year_of y (pos c) ≡ sub_ℕ ((y + 400 * c) % 10000) 1900
unfolding tm_year_of
year_mod y c = ap (λ n. sub_ℕ n 1900) same
  where
    same : (y + c % 25 * 400 + 10000) % 10000 ≡ (y + 400 * c) % 10000
    same = omega arith

weekday : (d : ℕ) → wday_of (pos (d % 146097)) ≡ (d + 4) % 7
unfolding wday_of
weekday d = omega arith

-- For a time t from 1970 on, `gmtime` returns the date whose day is the (t / 86400)th after the first
-- of January 1970, in the calendar with leap years by the rule of 4, 100 and 400, with the day of
-- the week and the time of the day. The year is stored modulo 10000.
pub gmtime-Civil :
    (t : ℕ)
    → (tm : Tm) × (y : ℕ) × (gmtime (pos t) ≡ some tm)
      × (1970 ≤ y)
      × IsDate (t % 86400) y tm.tm_yday tm
      × (t / 86400 ≡ span 1970 (y - 1970) + tm.tm_yday)
      × (tm.tm_wday ≡ (t / 86400 + 4) % 7)
      × (tm.tm_year ≡ sub_ℕ (y % 10000) 1900)
unfolding split year_of
gmtime-Civil t =
    let d = t / 86400 in
    let c = d / 146097 in
    let in_cycle : d % 146097 < span 1970 400 =
      subst (λ n. d % 146097 < n) (sym cycle_days) (omega arith) in
    let (k, day, found, sum, small) = years_up_finds 400 1970 (d % 146097) in_cycle in
    let y = 1970 + k in
    let (m, rest, month, good) =
      month-IsDate (t % 86400) (wday_of (pos (d % 146097))) (tm_year_of y (pos c)) y day
        (omega arith) small in
    (
      date (t % 86400) (wday_of (pos (d % 146097))) (tm_year_of y (pos c)) day (m, rest),
      y + 400 * c,
      gmtime-date (pos t) (t % 86400) (pos d) y day m rest refl found month,
      omega arith,
      IsDate-period (t % 86400) y day c _ good,
      number k c day sum,
      weekday d,
      year_mod y c,
    )
  where
    number :
        (k c day : ℕ)
        → t / 86400 % 146097 ≡ span 1970 k + day
        → t / 86400 ≡ span 1970 (1970 + k + 400 * (t / 86400 / 146097) - 1970) + day
    number k c day sum =
        let n = t / 86400 / 146097 in
        let e : 1970 + k + 400 * n - 1970 ≡ 400 * n + k = omega arith in
        let whole : t / 86400 ≡ 146097 * n + t / 86400 % 146097 = omega arith in
        rw e (whole ∙ sym (omega (arith, days_since n k, sum)))
