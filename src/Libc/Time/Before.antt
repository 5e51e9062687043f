-- ===== src/Libc/Time/Before.antt =====
-- `gmtime` for the times before 1970.
use unix_v7_c.Base.{
  ℕ, zero, suc, ◌+◌, ◌-◌, ◌*◌, ◌/◌, ◌%◌, ◌≤◌, ◌<◌, ◌≡◌, refl, ap, sym, ◌∙◌, inl, inr, some, arith,
  ◌==◌, subst, Bool-cases,
}
use unix_v7_c.Base.Int.{pos, negsuc, neg}
use unix_v7_c.Libc.Time.{
  Tm, dysize, split, year_of, month_of, tm_year_of, wday_of, gmtime, quotient, remainder, less_one,
  add,
}
use unix_v7_c.Libc.Time.Years.{span, months, years_down_finds, dysize_two}
use unix_v7_c.Libc.Time.Civil.{IsDate, date, month-IsDate, gmtime-date}
use unix_v7_c.Base.Int.{sub_ℕ}

-- The days, begun or whole, from the second -(n + 1) to 1970.
abbrev pub days_before : ℕ → ℕ
days_before n = (n + 86400) / 86400

neg_pos : (m : ℕ) → 1 ≤ m → neg (pos m) ≡ negsuc (m - 1)
neg_pos m h = ground (arith, h)

less_one-neg : (q : ℕ) → less_one (neg (pos q)) ≡ negsuc q
less_one-neg zero = refl
less_one-neg (suc q) = ground arith

add-back : (r : ℕ) → 1 ≤ r → r < 86400 → add 86400 (negsuc (r - 1)) ≡ pos (86400 - r)
add-back zero h lt = absurd (omega (arith, h))
add-back (suc r) h lt = ground (arith, lt)

split-before :
    (n : ℕ) → split (negsuc n) ≡ (pos (86400 * days_before n - suc n), negsuc (days_before n - 1))
unfolding split
split-before n = elim (Bool-cases (suc n % 86400 == 0)) [
  | inl e ↦
      let z : suc n % 86400 ≡ 0 = ground (arith, e) in
      let whole : 1 ≤ suc n / 86400 = omega (arith, z) in
      let clock : 86400 * days_before n - suc n ≡ 0 = omega (arith, z) in
      let same : suc n / 86400 ≡ days_before n = omega (arith, z) in
      rw (z, neg_pos (suc n / 86400) whole, clock, same) refl
  | inr e ↦
      let some_left : 1 ≤ suc n % 86400 = ground (arith, e) in
      let clock : 86400 - suc n % 86400 ≡ 86400 * days_before n - suc n =
        omega (arith, some_left) in
      let same : suc n / 86400 ≡ days_before n - 1 = omega (arith, some_left) in
      rw
        (
          neg_pos (suc n % 86400) some_left,
          add-back (suc n % 86400) some_left (omega arith),
          less_one-neg (suc n / 86400),
          clock,
          same,
        )
        refl
]

cycle_back : span 1570 400 ≡ 146097
unfolding dysize
cycle_back = refl

-- The year of the day -m of a cycle.
year-before :
    (m : ℕ)
    → m < 146097
    → (k : ℕ) × (rest : ℕ) × (year_of (neg (pos m)) ≡ some (1970 - k, rest))
      × (rest + m ≡ span (1970 - k) k)
      × (rest < dysize (1970 - k))
      × (k ≤ 400)
unfolding year_of
year-before zero h = (0, 0, refl, refl, omega (arith, (dysize_two 1970).0), omega arith)
year-before (suc m) h =
    let e : neg (pos (suc m)) ≡ negsuc m = ground arith in
    let inside : suc m ≤ span 1570 400 =
      subst (λ n. suc m ≤ n) (sym cycle_back) (omega (arith, h)) in
    rw e (years_down_finds 400 1970 m (omega arith) inside)

parts-before :
    (m : ℕ)
    → 1 ≤ m
    → (quotient (negsuc (m - 1)) 146097 ≡ neg (pos (m / 146097)))
      × (remainder (negsuc (m - 1)) 146097 ≡ neg (pos (m % 146097)))
parts-before zero h = absurd (omega (arith, h))
parts-before (suc m) h = let e : suc m - 1 ≡ m = omega arith in rw e (refl, refl)

weekday-before : (m : ℕ) → (wday_of (neg (pos (m % 146097))) + m) % 7 ≡ 4
unfolding wday_of
weekday-before m = go (m % 146097) refl
  where
    go : (r : ℕ) → m % 146097 ≡ r → (wday_of (neg (pos r)) + m) % 7 ≡ 4
    go zero e = omega (arith, e)
    go (suc r) e = let f : neg (pos (suc r)) ≡ negsuc r = ground arith in rw f (omega (arith, e))

-- The stored year counts from 1900: it is y less 400 for each cycle, modulo 10000.
abbrev pub IsYear : Tm → (y cycles : ℕ) → Type 0
IsYear tm y cycles =
    (stored : ℕ) × (tm.tm_year ≡ sub_ℕ stored 1900)
    × (stored < 10000)
    × ((stored + 400 * cycles) % 10000 ≡ y % 10000)

year_of-IsYear :
    (y cycles : ℕ)
    → (stored : ℕ) × (tm_year_of y (neg (pos cycles)) ≡ sub_ℕ stored 1900)
      × (stored < 10000)
      × ((stored + 400 * cycles) % 10000 ≡ y % 10000)
unfolding tm_year_of
year_of-IsYear y zero = ((y + 0 % 25 * 400 + 10000) % 10000, refl, omega arith, omega arith)
year_of-IsYear y (suc c) =
    let e : neg (pos (suc c)) ≡ negsuc c = ground arith in
    ((y + 10000 - suc c % 25 * 400) % 10000, rw e refl, omega arith, omega arith)

-- For a time -(n + 1), before 1970, `gmtime` returns the date that lies as many days before the
-- first of January 1970 as it takes from that second on: the year 1970 - k, with whole cycles of
-- 400 years taken off, and the day and the second in it, as for the times after 1970. The stored year
-- counts from 1900; it is 1970 - k less 400 for each cycle, modulo 10000.
pub gmtime-before :
    (n : ℕ)
    → (tm : Tm) × (k : ℕ) × (gmtime (negsuc n) ≡ some tm)
      × (k ≤ 400)
      × IsDate (86400 * days_before n - suc n) (1970 - k) tm.tm_yday tm
      × (tm.tm_yday + days_before n ≡ 146097 * (days_before n / 146097) + span (1970 - k) k)
      × ((tm.tm_wday + days_before n) % 7 ≡ 4)
      × IsYear tm (1970 - k) (days_before n / 146097)
gmtime-before n =
    let m = days_before n in
    let (k, day, found, sum, small, few) = year-before (m % 146097) (omega arith) in
    let (q, r) = parts-before m (omega arith) in
    let hms = 86400 * m - suc n in
    let year = tm_year_of (1970 - k) (neg (pos (m / 146097))) in
    let wday = wday_of (neg (pos (m % 146097))) in
    let (mon, rest, month, good) = month-IsDate hms wday year (1970 - k) day (omega arith) small in
    (
      date hms wday year day (mon, rest),
      k,
      fields n (1970 - k) day mon rest q r found month,
      few,
      good,
      omega (arith, sum),
      weekday-before m,
      year_of-IsYear (1970 - k) (m / 146097),
    )
  where
    fields :
        (n y day mon rest : ℕ)
        → quotient (negsuc (days_before n - 1)) 146097 ≡ neg (pos (days_before n / 146097))
        → remainder (negsuc (days_before n - 1)) 146097 ≡ neg (pos (days_before n % 146097))
        → year_of (neg (pos (days_before n % 146097))) ≡ some (y, day)
        → month_of (months y) 0 day ≡ some (mon, rest)
        → gmtime (negsuc n)
          ≡ some (
              date
                (86400 * days_before n - suc n)
                (wday_of (neg (pos (days_before n % 146097))))
                (tm_year_of y (neg (pos (days_before n / 146097))))
                day
                (mon, rest))
    fields n y day mon rest q r found month =
        gmtime-date (negsuc n) _ _ y day mon rest (split-before n) (ap year_of r ∙ found) month
        ∙ ap
            (λ d. some (
              date (86400 * days_before n - suc n) (wday_of d)
                (tm_year_of y (quotient (negsuc (days_before n - 1)) 146097)) day (mon, rest)))
            r
        ∙ ap
            (λ d. some (
              date (86400 * days_before n - suc n) (wday_of (neg (pos (days_before n % 146097))))
                (tm_year_of y d) day (mon, rest)))
            q
