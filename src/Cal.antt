-- ===== src/Cal.antt =====
-- The command cal: `jan1` and the part of `cal` of usr/src/cmd/cal.c that finds the lengths of the
-- months and the column of the first day.
--
-- The array `mon` is a list from January on. Its entries 2 and 9 are set anew at each call, and what
-- the last loop does to entry 9 is undone there.
pub mod Weekday
mod Tests
use unix_v7_c.Base.{
  ℕ, zero, suc, ◌+◌, ◌-◌, ◌/◌, ◌%◌, Bool, true, false, List, [], ◌∷◌, ◌==◌, ltb, if◌then◌else◌,
}

-- `jan1`: the day of the week of January 1, where 0 is for Sunday.
pub jan1 : ℕ → ℕ
jan1 yr =
    let d = 4 + yr + (yr + 3) / 4 in
    let d' = if ltb 1800 yr then d - (yr - 1701) / 100 + (yr - 1601) / 400 else d in
    let d'' = if ltb 1752 yr then d' + 3 else d' in d'' % 7

-- `mon` with these two entries 2 and 9.
abbrev pub mon : (february september : ℕ) → List ℕ
mon february september = 31 ∷ february ∷ 31 ∷ 30 ∷ 31 ∷ 30 ∷ 31 ∷ 31 ∷ september ∷ 31 ∷ 30 ∷ 31 ∷ []

-- The switch of `cal`, on the days by which January 1 moves on.
pub by_shift : ℕ → List ℕ
by_shift shift = if shift == 1 then mon 28 30 else if shift == 2 then mon 29 30 else mon 29 19

pub months : ℕ → List ℕ
unfolding jan1 by_shift
months y = by_shift ((jan1 (y + 1) + 7 - jan1 y) % 7)

-- "for(i=1; i<m; i++) d += mon[i];", with n for m - 1
pub passed : ℕ → List ℕ → ℕ → ℕ
passed zero mons d = d
passed (suc n) [] d = d
passed (suc n) (days ∷ mons) d = passed n mons (d + days)

-- The column of the first day of month m.
pub column : (m y : ℕ) → ℕ
unfolding jan1 months passed
column m y = passed (m - 1) (months y) (jan1 y) % 7
