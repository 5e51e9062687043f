-- ===== src/Libc/Time/Local.antt =====
-- `sunday` and `localtime`.
use unix_v7_c.Base.{
  ℕ, ◌+◌, ◌-◌, ◌%◌, ◌≤◌, ◌<◌, ◌≡◌, refl, Bool, true, false, ◌&&◌, ◌⊎◌, inl, inr, some, arith, leb,
  if◌then◌else◌, Bool-cases,
}
use unix_v7_c.Base.Int.{ℤ, pos, negsuc}
use unix_v7_c.Libc.Time.{Tm, dysize, sunday, gmtime, localtime, summer, west, add_ℤ, add, clamp}
use unix_v7_c.Libc.Time.Civil.{gmtime-Civil}
use unix_v7_c.Libc.Time.Before.{gmtime-before}
use unix_v7_c.Base.Int.{sub_ℕ}

-- The day d as it is in the year of t: one more behind February of a leap year.
abbrev pub in_year : Tm → ℕ → ℕ
in_year t d = if leb 58 d then d + dysize (clamp (add 1900 t.tm_year)) - 365 else d

-- Both numbers moved by 7.
shifted : (n r : ℕ) → r < 7 → sub_ℕ n r ≡ sub_ℕ (n + 7 - r) 7
shifted n r h = elim (Bool-cases (leb r n)) [
  | inl e ↦
      let le : r ≤ n = ground (arith, e) in
      let f : leb 7 (n + 7 - r) ≡ true = ground (arith, le) in
      let g : n - r ≡ n + 7 - r - 7 = omega arith in rw (e, f, g) refl
  | inr e ↦
      let lt : n < r = ground (arith, e) in
      let f : leb 7 (n + 7 - r) ≡ false = ground (arith, lt) in
      let g : r - n - 1 ≡ 7 - (n + 7 - r) - 1 = omega (arith, h) in rw (e, f, g) refl
]

-- `sunday` gives the last Sunday on or before the day, which is moved by one behind February in a
-- leap year: for a date t with a day of the week and a day of the year that exist, the value is
-- s - 7, where s is at most a week and at least a day ahead of the day, and counting the days of the
-- week on from t, s falls on day 0. The value is negative where that Sunday is in the year before.
pub sunday-last :
    (t : Tm) (d : ℕ)
    → t.tm_wday < 7
    → t.tm_yday ≤ 365
    → (s : ℕ) × (sunday t d ≡ sub_ℕ s 7)
      × (in_year t d < s)
      × (s ≤ in_year t d + 7)
      × ((s + t.tm_wday + 371 - t.tm_yday) % 7 ≡ 0)
unfolding sunday
sunday-last t d h hy = counted (in_year t d)
  where
    counted :
        (n : ℕ)
        → (s : ℕ) × (sub_ℕ n ((n + t.tm_wday + 700 - t.tm_yday) % 7) ≡ sub_ℕ s 7)
          × (n < s)
          × (s ≤ n + 7)
          × ((s + t.tm_wday + 371 - t.tm_yday) % 7 ≡ 0)
    counted n =
        let r = (n + t.tm_wday + 700 - t.tm_yday) % 7 in
        let small : r < 7 = omega arith in
        (n + 7 - r, shifted n r small, omega (arith, small), omega arith, omega (arith, h, hy))

gmtime_ends : (t : ℤ) → (tm : Tm) × (gmtime t ≡ some tm)
gmtime_ends (pos t) = let r = gmtime-Civil t in (r.0, r.2)
gmtime_ends (negsuc n) = let r = gmtime-before n in (r.0, r.2)

-- `localtime` always returns. It gives the date of the time moved by the time zone, or, only where
-- `dstflag` is set and that date lies in summer time, the date one hour later, marked so.
pub localtime-hour :
    (timezone : ℤ) (dstflag : Bool) (tim : ℤ)
    → (ct : Tm) × (tm : Tm) × (gmtime (west tim timezone) ≡ some ct)
      × (localtime timezone dstflag tim ≡ some tm)
      × (((dstflag && summer ct ≡ false) × (tm ≡ ct))
          ⊎ ((dstflag && summer ct ≡ true)
              × ((later : Tm) × (gmtime (add_ℤ (west tim timezone) (pos 3600)) ≡ some later)
                  × (tm ≡ record later { tm_isdst = later.tm_isdst + 1 }))))
unfolding localtime
localtime-hour timezone dstflag tim =
    let (ct, e) = gmtime_ends (west tim timezone) in
    let (later, f) = gmtime_ends (add_ℤ (west tim timezone) (pos 3600)) in split ct later e f
  where
    split :
        (ct later : Tm)
        → gmtime (west tim timezone) ≡ some ct
        → gmtime (add_ℤ (west tim timezone) (pos 3600)) ≡ some later
        → (ct' : Tm) × (tm : Tm) × (gmtime (west tim timezone) ≡ some ct')
          × (localtime timezone dstflag tim ≡ some tm)
          × (((dstflag && summer ct' ≡ false) × (tm ≡ ct'))
              ⊎ ((dstflag && summer ct' ≡ true)
                  × ((after : Tm) × (gmtime (add_ℤ (west tim timezone) (pos 3600)) ≡ some after)
                      × (tm ≡ record after { tm_isdst = after.tm_isdst + 1 }))))
    split ct later e f = elim (Bool-cases (dstflag && summer ct)) [
      | inl s ↦ (
        ct,
        record later { tm_isdst = later.tm_isdst + 1 },
        e,
        rw (e, s, f) refl,
        inr (s, (later, f, refl)),
      )
      | inr s ↦ (ct, ct, e, rw (e, s) refl, inl (s, refl))
    ]
