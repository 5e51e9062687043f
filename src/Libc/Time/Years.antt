-- ===== src/Libc/Time/Years.antt =====
-- The loops over the years and the months end at the right one.
use unix_v7_c.Base.{
  ℕ, zero, suc, ◌+◌, ◌-◌, ◌*◌, ◌%◌, ◌≤◌, ◌<◌, ◌≡◌, refl, ap, sym, ◌∙◌, false, inl, inr, some, List,
  [], ◌∷◌, arith, ltb, leb, ◌==◌, if◌then◌else◌, length, get_or, set, take, Bool-cases, leb→le,
}
use unix_v7_c.Base.Int.{negsuc}
use unix_v7_c.Libc.Time.{dysize, dmsize, years_up, years_down, month_of}

-- The days of the n years from y on.
abbrev pub span : ℕ → ℕ → ℕ
span y zero = 0
span y (suc n) = dysize y + span (suc y) n

abbrev pub total : List ℕ → ℕ
total [] = 0
total (n ∷ ns) = n + total ns

abbrev pub months : ℕ → List ℕ
months y = if dysize y == 366 then set dmsize 1 29 else dmsize

pub dysize_period : (y c : ℕ) → dysize (y + 400 * c) ≡ dysize y
unfolding dysize
dysize_period y c =
    let a : (y + 400 * c) % 4 ≡ y % 4 = omega arith in
    let b : (y + 400 * c) % 100 ≡ y % 100 = omega arith in
    let d : (y + 400 * c) % 400 ≡ y % 400 = omega arith in rw (a, b, d) refl

pub dysize_two : (y : ℕ) → (365 ≤ dysize y) × (dysize y ≤ 366)
unfolding dysize
dysize_two y = ground arith

pub span-add : (y a b : ℕ) → span y (a + b) ≡ span y a + span (y + a) b
span-add y zero b =
    let e : y + 0 ≡ y = omega arith in let f : 0 + b ≡ b = omega arith in rw (e, f) (omega arith)
span-add y (suc a) b =
    let e : y + suc a ≡ suc y + a = omega arith in
    let f : suc a + b ≡ suc (a + b) = omega arith in rw (e, f) (omega (arith, span-add (suc y) a b))

pub span-period : (y n c : ℕ) → span (y + 400 * c) n ≡ span y n
span-period y zero c = refl
span-period y (suc n) c =
    let s : suc y + 400 * c ≡ suc (y + 400 * c) = omega arith in
    let rest : span (suc (y + 400 * c)) n ≡ span (suc y) n = rw s at (span-period (suc y) n c) in
    omega (arith, dysize_period y c, rest)

pub cycle_days : span 1970 400 ≡ 146097
unfolding dysize
cycle_days = refl

cycles_days : (y n c : ℕ) → n ≡ 400 → span y n ≡ 146097 → span y (400 * c) ≡ 146097 * c
cycles_days y n zero e h = refl
cycles_days y n (suc c) e h =
    let split : 400 * suc c ≡ 400 * c + n = omega (arith, e) in
    rw split (omega (arith, span-add y (400 * c) n, span-period y n c, cycles_days y n c e h, h))

-- The days from 1970 to k years behind c times 400 years.
pub days_since : (c k : ℕ) → span 1970 (400 * c + k) ≡ 146097 * c + span 1970 k
days_since c k =
    span-add 1970 (400 * c) k
    ∙ (ap (λ d. d + span (1970 + 400 * c) k) (cycles_days 1970 400 c refl cycle_days)
        ∙ ap (λ d. 146097 * c + d) (span-period 1970 k c))

-- The loop up from 1970 ends in the year in which the day falls.
pub years_up_finds :
    (n d1 day : ℕ)
    → day < span d1 n
    → (k : ℕ) × (rest : ℕ) × (years_up n d1 day ≡ some (d1 + k, rest))
      × (day ≡ span d1 k + rest)
      × (rest < dysize (d1 + k))
unfolding years_up
years_up_finds zero d1 day h = absurd (omega (arith, h))
years_up_finds (suc n) d1 day h = elim (Bool-cases (ltb day (dysize d1))) [
  | inl e ↦
      let z : d1 + 0 ≡ d1 = omega arith in
      (0, day, rw (e, z) refl, omega arith, rw z (ground (arith, e)))
  | inr e ↦
      let (k, rest, found, sum, small) =
        years_up_finds n (d1 + 1) (day - dysize d1) (ground (arith, e, h)) in
      let z : d1 + suc k ≡ d1 + 1 + k = omega arith in
      let s : suc d1 ≡ d1 + 1 = omega arith in
      (suc k, rest, rw (e, z) found, rw s (ground (arith, e, sum)), rw z small)
]

span-last : (y n : ℕ) → span y (suc n) ≡ span y n + dysize (y + n)
span-last y zero = let e : y + 0 ≡ y = omega arith in rw e (omega arith)
span-last y (suc n) =
    let e : y + suc n ≡ suc y + n = omega arith in rw e (omega (arith, span-last (suc y) n))

leb_gt : (a b : ℕ) → leb a b ≡ false → b < a
leb_gt a b h = ground arith

-- The loop down from 1970, m + 1 days before the year d1.
pub years_down_finds :
    (n d1 m : ℕ)
    → n ≤ d1
    → suc m ≤ span (d1 - n) n
    → (k : ℕ) × (rest : ℕ) × (years_down (suc n) d1 (negsuc m) ≡ some (d1 - k, rest))
      × (rest + suc m ≡ span (d1 - k) k)
      × (rest < dysize (d1 - k))
      × (k ≤ n)
unfolding years_down
years_down_finds zero d1 m h less = absurd (omega (arith, less))
years_down_finds (suc n) d1 m h less = elim (Bool-cases (leb (suc m) (dysize (d1 - 1)))) [
  | inl e ↦ (
    1,
    dysize (d1 - 1) - suc m,
    rw (years_down, e) refl,
    omega (arith, leb→le _ _ e),
    omega (arith, leb→le _ _ e),
    omega arith,
  )
  | inr e ↦
      let m' = suc m - dysize (d1 - 1) - 1 in
      let back : d1 - 1 - n ≡ d1 - suc n = omega arith in
      let top : d1 - suc n + n ≡ d1 - 1 = omega (arith, h) in
      let last = span-last (d1 - suc n) n in
      let before : suc m' ≤ span (d1 - 1 - n) n =
        rw back (
          omega (arith, leb_gt _ _ e, less, last ∙ ap (λ v. span (d1 - suc n) n + dysize v) top)) in
      let (k, rest, found, sum, small, few) =
        years_down_finds n (d1 - 1) m' (omega (arith, h)) before in
      let y : d1 - suc k ≡ d1 - 1 - k = omega arith in
      let end = span-last (d1 - 1 - k) k in
      let up : d1 - 1 - k + k ≡ d1 - 1 = omega (arith, few, h) in
      let end' : span (d1 - 1 - k) (suc k) ≡ span (d1 - 1 - k) k + dysize (d1 - 1) =
        end ∙ ap (λ v. span (d1 - 1 - k) k + dysize v) up in
      let days : rest + suc m ≡ span (d1 - 1 - k) k + dysize (d1 - 1) =
        omega (arith, sum, leb_gt _ _ e) in
      (
        suc k,
        rest,
        rw (years_down, e, y) found,
        rw y (days ∙ sym end'),
        rw y small,
        omega (arith, few),
      )
]

-- The loop over the months ends in the month in which the day falls.
pub month_of_finds :
    (sizes : List ℕ) (d1 d0 : ℕ)
    → d0 < total sizes
    → (k : ℕ) × (rest : ℕ) × (month_of sizes d1 d0 ≡ some (d1 + k, rest))
      × (d0 ≡ total (take k sizes) + rest)
      × (rest < get_or sizes k 0)
      × (k < length sizes)
unfolding month_of
month_of_finds [] d1 d0 h = absurd (omega (arith, h))
month_of_finds (size ∷ sizes) d1 d0 h = elim (Bool-cases (ltb d0 size)) [
  | inl e ↦
      let z : d1 + 0 ≡ d1 = omega arith in
      (0, d0, rw (e, z) refl, omega arith, ground (arith, e), omega arith)
  | inr e ↦
      let (k, rest, found, sum, small, few) =
        month_of_finds sizes (d1 + 1) (d0 - size) (ground (arith, e, h)) in
      let z : d1 + suc k ≡ d1 + 1 + k = omega arith in
      (suc k, rest, rw (e, z) found, ground (arith, e, sum), small, omega (arith, few))
]

pub total-months : (y : ℕ) → total (months y) ≡ dysize y
unfolding dysize
total-months y = ground arith
