-- ===== src/Cal/Tests.antt =====
-- Months of 1752 and of our time.
use unix_v7_c.Base.{◌+◌, ◌-◌, ◌%◌, ◌≡◌, refl}
use unix_v7_c.Cal.{column, months, jan1, mon}
use unix_v7_c.Cal.Weekday.{column-days_before, days_before, days_of, calendar}

column-days_before_example :
    (column 9 1752 ≡ (6 + days_before 1751 + days_of (9 - 1) (calendar 1752)) % 7)
    × (months 1752 ≡ calendar 1752)
column-days_before_example = column-days_before 9 1751

-- September 1, 1752 is a Tuesday.
september : (column 9 1752 ≡ 2) × (months 1752 ≡ mon 29 19)
unfolding column
september = (refl, refl)

-- January 1, 2000 is a Saturday, and March 1, 2000 a Wednesday.
january : (jan1 2000 ≡ 6) × (column 3 2000 ≡ 3)
unfolding column
january = (refl, refl)
