-- ===== src/Cal/Weekday.antt =====
-- The days of the week that cal of usr/src/cmd/cal.c prints, against a count of all days.
use unix_v7_c.Base.{
  ℕ, zero, suc, ◌+◌, ◌-◌, ◌/◌, ◌%◌, ◌≤◌, ◌<◌, ◌≡◌, ap, refl, sym, ◌∙◌, Bool, true, false, ◌&&◌,
  ◌||◌, not, List, [], ◌∷◌, ◌==◌, ltb, if◌then◌else◌, arith, inl, inr, Bool-cases,
}
use unix_v7_c.Cal.{jan1, mon, by_shift, months, passed, column}
use unix_v7_c.Base.{◌≢◌}

-- The years with February 29: the calendar is Julian up to 1752 and Gregorian then.
abbrev pub leap : ℕ → Bool
leap y = (y % 4 == 0) && (ltb y 1753 || (not (y % 100 == 0) || (y % 400 == 0)))

-- September of 1752 has 19 days.
abbrev pub calendar : ℕ → List ℕ
calendar y = if y == 1752 then mon 29 19 else if leap y then mon 29 30 else mon 28 30

abbrev pub year_days : ℕ → ℕ
year_days y = if y == 1752 then 355 else if leap y then 366 else 365

-- The days of the years from 1 to k.
pub days_before : ℕ → ℕ
days_before zero = 0
days_before (suc k) = days_before k + year_days (suc k)

pub jan1_julian : (y : ℕ) → y ≤ 1752 → jan1 y ≡ (4 + y + (y + 3) / 4) % 7
unfolding jan1
jan1_julian y h =
    let a : ltb 1800 y ≡ false = ground (arith, h) in
    let b : ltb 1752 y ≡ false = ground (arith, h) in rw (a, b) refl

pub jan1_gregorian :
    (y : ℕ) → 1752 < y → jan1 y ≡ (7 + y + (y + 3) / 4 + (y - 1601) / 400 - (y - 1701) / 100) % 7
unfolding jan1
jan1_gregorian y h =
    let b : ltb 1752 y ≡ true = ground (arith, h) in
    elim (Bool-cases (ltb 1800 y)) [
      | inl a ↦ rw (a, b) (ap (λ d. d % 7) (omega (arith, h)))
      | inr a ↦
          let lt : y ≤ 1800 = ground (arith, a) in
          let c : (y - 1601) / 400 ≡ 0 = omega (arith, lt) in
          let c' : (y - 1701) / 100 ≡ 0 = omega (arith, lt) in
          rw (a, b, c, c') (ap (λ d. d % 7) (omega arith))
    ]

-- Which rule makes a year after 1752 a leap year or not.
pub data Rule (y : ℕ) : Type 0 where
  common : (y % 4 == 0) ≡ false → Rule y
  fourth : (y % 4 == 0) ≡ true → (y % 100 == 0) ≡ false → Rule y
  hundredth : (y % 100 == 0) ≡ true → (y % 400 == 0) ≡ false → Rule y
  four_hundredth : (y % 400 == 0) ≡ true → Rule y

pub rule : (y : ℕ) → Rule y
rule y = elim (Bool-cases (y % 4 == 0)) [
  | inl a ↦ elim (Bool-cases (y % 100 == 0)) [
    | inl b ↦ elim (Bool-cases (y % 400 == 0)) [ inl c ↦ four_hundredth c | inr c ↦ hundredth b c ]
    | inr b ↦ fourth a b
  ]
  | inr a ↦ common a
]

-- The day of the week moves on by the days of the year.
pub jan1_early : (y : ℕ) → y < 1752 → jan1 (y + 1) ≡ (jan1 y + year_days y) % 7
jan1_early y h =
    rw (jan1_julian (y + 1) (omega (arith, h)), jan1_julian y (omega (arith, h)))
      (elim (Bool-cases (y % 4 == 0)) [
        | inl a ↦
            let b : (y == 1752) ≡ false = ground (arith, h) in
            let c : ltb y 1753 ≡ true = ground (arith, h) in
            let m : y % 4 ≡ 0 = ground (arith, a) in rw (b, a, c) (omega (arith, m))
        | inr a ↦
            let b : (y == 1752) ≡ false = ground (arith, h) in
            let m : y % 4 ≢ 0 = ground (arith, a) in rw (b, a) (omega (arith, m))
      ])

pub jan1_late : (y : ℕ) → 1752 < y → jan1 (y + 1) ≡ (jan1 y + year_days y) % 7
jan1_late y h =
    let b : (y == 1752) ≡ false = ground (arith, h) in
    let c : ltb y 1753 ≡ false = ground (arith, h) in
    rw (jan1_gregorian (y + 1) (omega (arith, h)), jan1_gregorian y h)
      (elim (rule y) [
        | common a ↦ let m : y % 4 ≢ 0 = ground (arith, a) in rw (b, a) (omega (arith, m, h))
        | fourth a d ↦
            let m : y % 4 ≡ 0 = ground (arith, a) in
            let k : y % 100 ≢ 0 = ground (arith, d) in rw (b, c, a, d) (omega (arith, m, k, h))
        | hundredth a d ↦
            let m : y % 100 ≡ 0 = ground (arith, a) in
            let k : y % 400 ≢ 0 = ground (arith, d) in
            let f : (y % 4 == 0) ≡ true = ground (arith, m) in
            rw (b, c, a, d, f) (omega (arith, m, k, h))
        | four_hundredth a ↦
            let m : y % 400 ≡ 0 = ground (arith, a) in
            let f : (y % 4 == 0) ≡ true = ground (arith, m) in
            let g : (y % 100 == 0) ≡ true = ground (arith, m) in
            rw (b, c, a, f, g) (omega (arith, m, h))
      ])

pub jan1-next : (y : ℕ) → jan1 (y + 1) ≡ (jan1 y + year_days y) % 7
unfolding jan1
jan1-next y = elim (Bool-cases (ltb y 1752)) [
  | inl a ↦ jan1_early y (ground (arith, a))
  | inr a ↦ elim (Bool-cases (ltb 1752 y)) [
    | inl b ↦ jan1_late y (ground (arith, b))
    | inr b ↦ let e : y ≡ 1752 = ground (arith, a, b) in rw e refl
  ]
]

-- January 1 of year 1 is a Saturday, and all days count from there.
pub jan1-days_before : (k : ℕ) → jan1 (suc k) ≡ (6 + days_before k) % 7
unfolding days_before
jan1-days_before zero = rw (jan1_julian 1 (omega arith)) refl
jan1-days_before (suc k) =
    let before = jan1-days_before k in
    let next = jan1-next (suc k) in
    let same : suc k + 1 ≡ suc (suc k) = omega arith in
    sym (ap jan1 same) ∙ next ∙ (rw before (omega arith))

pub jan1_bound : (y : ℕ) → jan1 y < 7
unfolding jan1
jan1_bound y = omega arith

pub months-calendar : (y : ℕ) → months y ≡ calendar y
unfolding months by_shift
months-calendar y = rw (jan1-next y) (elim (Bool-cases (y == 1752)) [
  | inl a ↦
      let shift : ((jan1 y + 355) % 7 + 7 - jan1 y) % 7 ≡ 5 = omega (arith, jan1_bound y) in
      rw (a, shift) refl
  | inr a ↦ elim (Bool-cases (leap y)) [
    | inl b ↦
        let shift : ((jan1 y + 366) % 7 + 7 - jan1 y) % 7 ≡ 2 = omega (arith, jan1_bound y) in
        rw (a, b, shift) refl
    | inr b ↦
        let shift : ((jan1 y + 365) % 7 + 7 - jan1 y) % 7 ≡ 1 = omega (arith, jan1_bound y) in
        rw (a, b, shift) refl
  ]
])

-- The days of the first n months.
pub days_of : ℕ → List ℕ → ℕ
days_of zero mons = 0
days_of (suc n) [] = 0
days_of (suc n) (days ∷ mons) = days + days_of n mons

pub passed-days_of : (n : ℕ) (mons : List ℕ) (d : ℕ) → passed n mons d ≡ d + days_of n mons
unfolding passed days_of
passed-days_of zero mons d = omega arith
passed-days_of (suc n) [] d = omega arith
passed-days_of (suc n) (days ∷ mons) d = rw (passed-days_of n mons (d + days)) (omega arith)

-- The column in which cal prints the first day of month m of the year k + 1 is the day of the week
-- that a count of all days since the first Saturday gives: of all days of the k years before, and of
-- the months before in a calendar that is Julian up to 1752, Gregorian then, and has 19 days in
-- September of 1752. The lengths of the months are those of this calendar.
pub column-days_before :
    (m k : ℕ)
    → (column m (suc k) ≡ (6 + days_before k + days_of (m - 1) (calendar (suc k))) % 7)
      × (months (suc k) ≡ calendar (suc k))
unfolding column
column-days_before m k = (
  rw
      (
        passed-days_of (m - 1) (months (suc k)) (jan1 (suc k)),
        months-calendar (suc k),
        jan1-days_before k,
      )
      (omega arith),
  months-calendar (suc k),
)
