-- ===== src/Bmap/Numbers.antt =====
-- Which route a logical block has, written without the loop of `bmap`.
use unix_v7_c.Base.{
  ℕ, ◌+◌, ◌-◌, ◌*◌, ◌/◌, ◌%◌, ◌≤◌, ◌<◌, ◌≡◌, refl, ap, sym, ◌∙◌, true, false, ◌⊎◌, inl, inr, List,
  [], ◌∷◌, arith, ltb, if◌then◌else◌, Bool-cases,
}
use unix_v7_c.Bmap.{levels}
use unix_v7_c.Bmap.Node.{room, Route}
use unix_v7_c.Bmap.Reach.{Above, whole, part}
use unix_v7_c.Bmap.Walk.{target}
use unix_v7_c.Base.{subst}

-- How many blocks a file can have.
abbrev pub capacity : ℕ
capacity = 10 + 128 + 16384 + 2097152

-- 10 direct blocks, 128 behind address 10, 128 * 128 behind 11 and 128 * 128 * 128 behind 12.
abbrev pub route : ℕ → List ℕ
route bn =
    if ltb bn 10
    then bn ∷ []
    else if ltb (bn - 10) 128
    then (bn - 10) ∷ (10 ∷ [])
    else if ltb (bn - 138) 16384
    then (bn - 138) % 128 ∷ ((bn - 138) / 128 ∷ (11 ∷ []))
    else (bn - 16522) % 128 ∷ ((bn - 16522) / 128 % 128 ∷ ((bn - 16522) / 16384 ∷ (12 ∷ [])))

-- Where a logical block lies.
pub data Zone (bn : ℕ) : Type 0 where
  direct : bn < 10 → Zone bn
  single : (x : ℕ) → bn ≡ 10 + x → x < 128 → Zone bn
  double : (x : ℕ) → bn ≡ 138 + x → x < 16384 → Zone bn
  triple : (x : ℕ) → bn ≡ 16522 + x → x < 2097152 → Zone bn

pub zone : (bn : ℕ) → bn < capacity → Zone bn
zone bn h = elim (Bool-cases (ltb bn 10)) [
  | inl a ↦ direct (ground (arith, a))
  | inr a ↦ elim (Bool-cases (ltb (bn - 10) 128)) [
    | inl b ↦ single (bn - 10) (ground (arith, a)) (ground (arith, b))
    | inr b ↦ elim (Bool-cases (ltb (bn - 138) 16384)) [
      | inl c ↦ double (bn - 138) (ground (arith, a, b)) (ground (arith, c))
      | inr c ↦ triple (bn - 16522) (ground (arith, a, b, c)) (ground (arith, a, b, c, h))
    ]
  ]
]

pub route_direct : (bn : ℕ) → bn < 10 → route bn ≡ bn ∷ []
route_direct bn h = let e : ltb bn 10 ≡ true = ground (arith, h) in rw e refl

pub route_single : (bn x : ℕ) → bn ≡ 10 + x → x < 128 → route bn ≡ x ∷ (10 ∷ [])
route_single bn x e h =
    let far : ltb bn 10 ≡ false = ground (arith, e) in
    let sub : bn - 10 ≡ x = omega (arith, e) in
    let near : ltb x 128 ≡ true = ground (arith, h) in rw (far, sub, near) refl

pub route_double :
    (bn x : ℕ) → bn ≡ 138 + x → x < 16384 → route bn ≡ x % 128 ∷ (x / 128 ∷ (11 ∷ []))
route_double bn x e h =
    let far : ltb bn 10 ≡ false = ground (arith, e) in
    let far' : ltb (bn - 10) 128 ≡ false = ground (arith, e) in
    let sub : bn - 138 ≡ x = omega (arith, e) in
    let near : ltb x 16384 ≡ true = ground (arith, h) in rw (far, far', sub, near) refl

pub route_triple :
    (bn x : ℕ)
    → bn ≡ 16522 + x
    → x < 2097152
    → route bn ≡ x % 128 ∷ (x / 128 % 128 ∷ (x / 16384 ∷ (12 ∷ [])))
route_triple bn x e h =
    let far : ltb bn 10 ≡ false = ground (arith, e) in
    let far' : ltb (bn - 10) 128 ≡ false = ground (arith, e) in
    let far'' : ltb (bn - 138) 16384 ≡ false = ground (arith, e) in
    let sub : bn - 16522 ≡ x = omega (arith, e) in rw (far, far', far'', sub) refl

-- What the loop over the levels finds.
pub levels_single : (x : ℕ) → x < 128 → levels 3 0 1 x ≡ (3, 7, x)
unfolding levels
levels_single x h = let e : ltb x 128 ≡ true = ground (arith, h) in rw e refl

pub levels_double : (x : ℕ) → x < 16384 → levels 3 0 1 (128 + x) ≡ (2, 14, x)
unfolding levels
levels_double x h =
    let e : ltb (128 + x) 128 ≡ false = ground arith in
    let s : 128 + x - 128 ≡ x = omega arith in
    let f : ltb x 16384 ≡ true = ground (arith, h) in rw (e, s, f) refl

pub levels_triple : (x : ℕ) → x < 2097152 → levels 3 0 1 (16512 + x) ≡ (1, 21, x)
unfolding levels
levels_triple x h =
    let e : ltb (16512 + x) 128 ≡ false = ground arith in
    let s : 16512 + x - 128 ≡ 16384 + x = omega arith in
    let f : ltb (16384 + x) 16384 ≡ false = ground arith in
    let s' : 16384 + x - 16384 ≡ x = omega arith in
    let g : ltb x 2097152 ≡ true = ground (arith, h) in rw (e, s, f, s', g) refl

pub target_single : (x : ℕ) → x < 128 → target 1 x 7 (10 ∷ []) ≡ x ∷ (10 ∷ [])
target_single x h = let e : x / 1 % 128 ≡ x = omega (arith, h) in ap (λ i. i ∷ (10 ∷ [])) e

pub target_double : (x : ℕ) → x < 16384 → target 2 x 14 (11 ∷ []) ≡ x % 128 ∷ (x / 128 ∷ (11 ∷ []))
target_double x h =
    let e : x / 128 % 128 ≡ x / 128 = omega (arith, h) in
    let f : x / 1 % 128 ≡ x % 128 = omega (arith, h) in rw (e, f) refl

pub target_triple :
    (x : ℕ)
    → x < 2097152
    → target 3 x 21 (12 ∷ []) ≡ x % 128 ∷ (x / 128 % 128 ∷ (x / 16384 ∷ (12 ∷ [])))
target_triple x h =
    let e : x / 16384 % 128 ≡ x / 16384 = omega (arith, h) in
    let f : x / 1 % 128 ≡ x % 128 = omega (arith, h) in rw (e, f) refl

-- The logical block that a route leads to.
abbrev number : List ℕ → ℕ
number [] = 0
number (i ∷ []) = i
number (i ∷ (j ∷ [])) = 10 + i
number (i ∷ (j ∷ (k ∷ []))) = 138 + j * 128 + i
number (i ∷ (j ∷ (k ∷ (m ∷ q)))) = 16522 + k * 16384 + j * 128 + i

number-route : (bn : ℕ) → bn < capacity → number (route bn) ≡ bn
number-route bn h = elim (zone bn h) [
  | direct l ↦ rw (route_direct bn l) refl
  | single x e l ↦ rw (route_single bn x e l) (sym e)
  | double x e l ↦ rw (route_double bn x e l) (omega (arith, e))
  | triple x e l ↦ rw (route_triple bn x e l) (omega (arith, e))
]

-- The route of a logical block is one that the file has, and ends at a block of data.
pub route-Route : (bn : ℕ) → bn < capacity → Route (route bn) × (room (route bn) ≡ 0)
route-Route bn h = elim (zone bn h) [
  | direct l ↦ rw (route_direct bn l) (omega arith, omega arith)
  | single x e l ↦ rw (route_single bn x e l) ((omega arith, omega arith, l), refl)
  | double x e l ↦
      rw (route_double bn x e l)
        (((omega arith, omega arith, omega arith), omega arith, omega arith), refl)
  | triple x e l ↦ rw (route_triple bn x e l) (
    (((omega arith, omega arith, omega arith), omega arith, omega arith), omega arith, omega arith),
    refl,
  )
]

proper_part : (p q : List ℕ) → Above p q → Route p → Route q → (p ≡ q) ⊎ (1 ≤ room p)
proper_part p q (whole _) s r = inl refl
proper_part p (i ∷ []) (part _ (whole _)) s r = absurd (omega (arith, s))
proper_part p (i ∷ (k ∷ q)) (part _ h) s r = elim (proper_part p (k ∷ q) h s r.0) [
  | inl e ↦ inr (subst (λ x. 1 ≤ room x) (sym e) r.1)
  | inr e ↦ inr e
]

pub apart_routes : (a b : ℕ) → a < capacity → b < capacity → Above (route a) (route b) → a ≡ b
apart_routes a b ha hb h = elim (proper_part _ _ h (route-Route a ha).0 (route-Route b hb).0) [
  | inl e ↦ sym (number-route a ha) ∙ (ap number e ∙ number-route b hb)
  | inr e ↦ absurd (omega (arith, e, (route-Route a ha).1))
]
