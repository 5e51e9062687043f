-- ===== src/Libc/Time.antt =====
-- The date of a time: `gmtime`, `dysize` and `sunday` of usr/src/libc/gen/ctime.c.
--
-- A time is an integer with a sign; C's / and % round to 0. `none` is an index outside `dmsize`, or
-- a loop over the years that goes on for more than 400.
pub mod Years
pub mod Civil
pub mod Before
pub mod Local
mod Tests
use unix_v7_c.Base.{
  ℕ, zero, suc, ◌+◌, ◌-◌, ◌*◌, ◌/◌, ◌%◌, Bool, true, false, ◌&&◌, ◌||◌, not, Option, none, some,
  ◌>>=◌, List, [], ◌∷◌, ltb, leb, ◌==◌, if◌then◌else◌, set,
}
use unix_v7_c.Base.Int.{ℤ, pos, negsuc, sub_ℕ, neg}

-- `struct tm`
pub record Tm : Type 0 where
  pub tm_sec : ℕ
  pub tm_min : ℕ
  pub tm_hour : ℕ
  pub tm_mday : ℕ
  pub tm_mon : ℕ
  pub tm_year : ℤ
  pub tm_wday : ℕ
  pub tm_yday : ℕ
  pub tm_isdst : ℕ

-- `dysize`
pub dysize : ℕ → ℕ
dysize y = if (y % 4 == 0) && (not (y % 100 == 0) || (y % 400 == 0)) then 366 else 365

abbrev pub dmsize : List ℕ
dmsize = 31 ∷ 28 ∷ 31 ∷ 30 ∷ 31 ∷ 30 ∷ 31 ∷ 31 ∷ 30 ∷ 31 ∷ 30 ∷ 31 ∷ []

-- a / d and a % d
abbrev pub quotient : ℤ → ℕ → ℤ
quotient (pos n) d = pos (n / d)
quotient (negsuc n) d = neg (pos (suc n / d))

abbrev pub remainder : ℤ → ℕ → ℤ
remainder (pos n) d = pos (n % d)
remainder (negsuc n) d = neg (pos (suc n % d))

-- n + a
abbrev pub add : ℕ → ℤ → ℤ
add n (pos a) = pos (n + a)
add n (negsuc a) = sub_ℕ n (suc a)

abbrev pub less_one : ℤ → ℤ
less_one (pos n) = sub_ℕ n 1
less_one (negsuc n) = negsuc (suc n)

-- "break initial number into days": hms and day
pub split : ℤ → ℤ × ℤ
split tim = settle (remainder tim 86400) (quotient tim 86400)
  where
    settle : ℤ → ℤ → ℤ × ℤ
    settle (pos hms) day = (pos hms, day)
    settle (negsuc hms) day = (add 86400 (negsuc hms), less_one day)

-- "day >= dysize(d1)", for a day that is not negative
pub years_up : ℕ → ℕ → ℕ → Option (ℕ × ℕ)
unfolding dysize
years_up zero d1 day = none
years_up (suc n) d1 day =
    let rest = years_up n (d1 + 1) (day - dysize d1) in
    if ltb day (dysize d1) then some (d1, day) else rest

-- "day < 0"
pub years_down : ℕ → ℕ → ℤ → Option (ℕ × ℕ)
unfolding dysize
years_down zero d1 day = none
years_down (suc n) d1 (pos day) = some (d1, day)
years_down (suc n) d1 (negsuc day) = years_down n (d1 - 1) (add (dysize (d1 - 1)) (negsuc day))

-- "year number": d1 and day
pub year_of : ℤ → Option (ℕ × ℕ)
unfolding years_up years_down
year_of (pos day) = years_up 400 1970 day
year_of (negsuc day) = years_down 401 1970 (negsuc day)

-- "generate month": d1 and d0
pub month_of : List ℕ → ℕ → ℕ → Option (ℕ × ℕ)
month_of [] d1 d0 = none
month_of (size ∷ sizes) d1 d0 =
    let rest = month_of sizes (d1 + 1) (d0 - size) in if ltb d0 size then some (d1, d0) else rest

-- "(d1 + cyc%25*400 + 10000) % 10000 - 1900"
pub tm_year_of : ℕ → ℤ → ℤ
tm_year_of d1 (pos cyc) = sub_ℕ ((d1 + cyc % 25 * 400 + 10000) % 10000) 1900
tm_year_of d1 (negsuc cyc) = sub_ℕ ((d1 + 10000 - suc cyc % 25 * 400) % 10000) 1900

-- "(day+7340036) % 7"
pub wday_of : ℤ → ℕ
wday_of (pos day) = (day + 7340036) % 7
wday_of (negsuc day) = (7340036 - suc day) % 7

-- The number of a day of the time, for a part that is not negative.
abbrev pub clamp : ℤ → ℕ
clamp (pos n) = n
clamp (negsuc n) = 0

-- `gmtime`
pub gmtime : ℤ → Option Tm
unfolding split year_of month_of tm_year_of wday_of dysize
gmtime tim =
    let (rest, days) = split tim in
    let hms = clamp rest in
    let cyc = quotient days 146097 in
    let day = remainder days 146097 in
    year_of day >>= (λ y.
      month_of (if dysize y.0 == 366 then set dmsize 1 29 else dmsize) 0 y.1 >>= (λ m.
        some (record {
          tm_sec = hms % 60;
          tm_min = hms / 60 % 60;
          tm_hour = hms / 60 / 60;
          tm_mday = m.1 + 1;
          tm_mon = m.0;
          tm_year = tm_year_of y.0 cyc;
          tm_wday = wday_of day;
          tm_yday = y.1;
          tm_isdst = 0;
        })))

-- `sunday` of the day d. The operand of % is positive for a date of a year.
pub sunday : Tm → ℕ → ℤ
unfolding dysize
sunday t d =
    let d' = if leb 58 d then d + dysize (clamp (add 1900 t.tm_year)) - 365 else d in
    sub_ℕ d' ((d' + t.tm_wday + 700 - t.tm_yday) % 7)

-- a < n and a == n
abbrev pub below : ℤ → ℕ → Bool
below (pos a) n = ltb a n
below (negsuc a) n = true

abbrev pub equals : ℤ → ℕ → Bool
equals (pos a) n = a == n
equals (negsuc a) n = false

-- n < a
abbrev pub above : ℤ → ℕ → Bool
above (pos a) n = ltb n a
above (negsuc a) n = false

pub add_ℤ : ℤ → ℤ → ℤ
add_ℤ (pos a) b = add a b
add_ℤ (negsuc a) (pos b) = add b (negsuc a)
add_ℤ (negsuc a) (negsuc b) = negsuc (suc (a + b))

-- "*tim - (long)systime.timezone*60"
pub west : ℤ → ℤ → ℤ
unfolding add_ℤ
west tim (pos timezone) = add_ℤ tim (neg (pos (timezone * 60)))
west tim (negsuc timezone) = add_ℤ tim (pos (suc timezone * 60))

-- The days of the table `daytab`, or else the last Sundays in April and in October.
abbrev pub change_days : ℤ → ℕ × ℕ
change_days (pos y) = if y == 74 then (5, 333) else if y == 75 then (58, 303) else (119, 303)
change_days (negsuc y) = (119, 303)

-- The condition under which summer time holds.
pub summer : Tm → Bool
unfolding sunday
summer ct =
    let days = change_days ct.tm_year in
    let daylbegin = sunday ct days.0 in
    let daylend = sunday ct days.1 in
    let dayno = ct.tm_yday in
    (below daylbegin dayno || (equals daylbegin dayno && leb 2 ct.tm_hour))
    && (above daylend dayno || (equals daylend dayno && ltb ct.tm_hour 1))

-- `localtime`, with what `ftime` gives: the minutes west of Greenwich, and `dstflag`.
pub localtime : ℤ → Bool → ℤ → Option Tm
unfolding west gmtime summer
localtime timezone dstflag tim =
    let copyt = west tim timezone in
    gmtime copyt >>= (λ ct.
      let later = gmtime (add_ℤ copyt (pos 3600)) in
      if dstflag && summer ct
      then (later >>= (λ ct'. some (record ct' { tm_isdst = ct'.tm_isdst + 1 })))
      else some ct)
