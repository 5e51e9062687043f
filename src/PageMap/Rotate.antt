-- ===== src/PageMap/Rotate.antt =====
-- `maprev` turns a stretch of the entries around, and `maprot` rotates one.
use unix_v7_c.Base.{
  ℕ, zero, suc, ◌+◌, ◌-◌, ◌≤◌, ◌<◌, ◌≡◌, refl, ◌∙◌, true, false, ◌&&◌, arith, ltb, leb, ◌==◌,
  if◌then◌else◌, Bool-cases, inl, inr,
}
use unix_v7_c.PageMap.{Memory, entry, exchange, maprev, maprot}
use unix_v7_c.PageMap.Entries.{IsTable, IsTable-root, SameRoot, root-exchange, entry-exchange}

-- f with its values from a to c (and not c) in the opposite order
abbrev pub turned : (ℕ → ℕ) → ℕ → ℕ → ℕ → ℕ
turned f a c j = if leb a j && ltb j c then f (a + c - 1 - j) else f j

-- f with its values from b to c before those from a to b
abbrev pub rotated : (ℕ → ℕ) → ℕ → ℕ → ℕ → ℕ → ℕ
rotated f a b c j =
    if leb a j && ltb j c
    then (if ltb j (a + (c - b)) then f (b + (j - a)) else f (j - (c - b)))
    else f j

turned_short : (f : ℕ → ℕ) (a c j : ℕ) → c ≤ a + 1 → f j ≡ turned f a c j
turned_short f a c j h = elim (Bool-cases (leb a j && ltb j c)) [
  | inl hit ↦ let e : a + c - 1 - j ≡ j = ground arith in rw (hit, e)
  | inr out ↦ rw out
]

-- Exchanging the ends and turning the inside turns the whole.
turned_step :
    (f g : ℕ → ℕ) (a c n j : ℕ)
    → a < c - 1
    → c ≤ n
    → ((i : ℕ) → i < n → g i ≡ (if c - 1 == i then f a else if a == i then f (c - 1) else f i))
    → j < n
    → turned g (a + 1) (c - 1) j ≡ turned f a c j
turned_step f g a c n j h hc swap hj = elim (Bool-cases (leb (a + 1) j && ltb j (c - 1))) [
  | inl inside ↦
      let out : (leb a j && ltb j c) ≡ true = ground arith in
      let e : a + 1 + (c - 1) - 1 - j ≡ a + c - 1 - j = ground arith in
      let ne : (c - 1 == a + c - 1 - j) ≡ false = ground arith in
      let ne' : (a == a + c - 1 - j) ≡ false = ground arith in
      rw (inside, out, e, swap (a + c - 1 - j) (ground arith)) (rw (ne, ne'))
  | inr outside ↦ rw (outside, swap j hj) (ends j outside)
]
  where
    ends :
        (j : ℕ)
        → (leb (a + 1) j && ltb j (c - 1)) ≡ false
        → (if c - 1 == j then f a else if a == j then f (c - 1) else f j) ≡ turned f a c j
    ends j o = elim (Bool-cases (c - 1 == j)) [
      | inl last ↦
          let out : (leb a j && ltb j c) ≡ true = ground arith in
          let e : a + c - 1 - j ≡ a = ground arith in rw (last, out, e)
      | inr not_last ↦ elim (Bool-cases (a == j)) [
        | inl first ↦
            let out : (leb a j && ltb j c) ≡ true = ground arith in
            let e : a + c - 1 - j ≡ c - 1 = ground arith in rw (not_last, first, out, e)
        | inr other ↦
            let out : (leb a j && ltb j c) ≡ false = ground arith in rw (not_last, other, out)
      ]
    ]

-- What the loop leaves: the same list pages, and the entries in their new order.
pub record Turns (n map a c : ℕ) (m m' : Memory) : Type 0 where
  pub root : SameRoot map m m'
  pub entries : (j : ℕ) → j < n → entry m' map j ≡ turned (entry m map) a c j

maprev-Turns :
    (fuel n map a c : ℕ) (m : Memory)
    → IsTable n map m
    → c ≤ n
    → c ≤ a + fuel
    → Turns n map a c m (maprev fuel map a c m)
unfolding maprev
maprev-Turns zero n map a c m t hc f = record { root = λ k. refl; entries = λ j hj. ground arith }
maprev-Turns (suc fuel) n map a c m t hc f = elim (Bool-cases (ltb a (c - 1))) [
  | inl go ↦
      let ha : a < n = ground arith in
      let hc' : c - 1 < n = ground arith in
      let r = root-exchange n map m t a (c - 1) ha hc' in
      let m' = exchange map a (c - 1) m in
      let ih =
        maprev-Turns fuel n map (a + 1) (c - 1) m' (IsTable-root n map m m' r t) (omega arith)
          (omega arith) in
      rw go (record {
        root = λ k. ih.root k ∙ r k;
        entries = λ j hj.
            ih.entries j hj
            ∙ turned_step (entry m map) (entry m' map) a c n j (ground arith) hc
                (entry-exchange n map m t a (c - 1) ha hc') hj;
      })
  | inr stop ↦ rw stop (record {
    root = λ k. refl;
    entries = λ j hj. turned_short (entry m map) a c j (ground arith);
  })
]

rotated-turned :
    (f : ℕ → ℕ) (a b c j : ℕ)
    → a ≤ b
    → b ≤ c
    → turned (turned (turned f a b) b c) a c j ≡ rotated f a b c j
rotated-turned f a b c j h k = elim (Bool-cases (leb a j && ltb j c)) [
  | inl inside ↦ elim (Bool-cases (ltb j (a + (c - b)))) [
    | inl front ↦
        let second : (leb b (a + c - 1 - j) && ltb (a + c - 1 - j) c) ≡ true = ground arith in
        let y : b + c - 1 - (a + c - 1 - j) ≡ b + (j - a) = ground arith in
        let first : (leb a (b + (j - a)) && ltb (b + (j - a)) b) ≡ false = ground arith in
        rw (inside, front, second, y, first)
    | inr back ↦
        let second : (leb b (a + c - 1 - j) && ltb (a + c - 1 - j) c) ≡ false = ground arith in
        let first : (leb a (a + c - 1 - j) && ltb (a + c - 1 - j) b) ≡ true = ground arith in
        let y : a + b - 1 - (a + c - 1 - j) ≡ j - (c - b) = ground arith in
        rw (inside, back, second, first, y)
  ]
  | inr outside ↦
      let second : (leb b j && ltb j c) ≡ false = ground arith in
      let first : (leb a j && ltb j b) ≡ false = ground arith in rw (outside, second, first)
]

turned_ext :
    (f g : ℕ → ℕ) (a c n j : ℕ)
    → ((i : ℕ) → i < n → f i ≡ g i)
    → c ≤ n
    → j < n
    → turned f a c j ≡ turned g a c j
turned_ext f g a c n j same hc hj = elim (Bool-cases (leb a j && ltb j c)) [
  | inl inside ↦ rw inside (same (a + c - 1 - j) (ground arith))
  | inr outside ↦ rw outside (same j hj)
]

-- `maprot` of a map whose list pages are different pages puts the entries from b to c before those
-- from a to b, each group in its order, and changes no other entry and no list page.
pub maprot_rotates :
    (n map a b c : ℕ) (m : Memory)
    → IsTable n map m
    → a ≤ b
    → b ≤ c
    → c ≤ n
    → SameRoot map m (maprot map a b c m)
      × ((j : ℕ) → j < n → entry (maprot map a b c m) map j ≡ rotated (entry m map) a b c j)
unfolding maprot
maprot_rotates n map a b c m t h k hc =
    let m₁ = maprev b map a b m in
    let m₂ = maprev c map b c m₁ in
    let r₁ = maprev-Turns b n map a b m t (omega arith) (omega arith) in
    let t₁ = IsTable-root n map m m₁ r₁.root t in
    let r₂ = maprev-Turns c n map b c m₁ t₁ hc (omega arith) in
    let t₂ = IsTable-root n map m₁ m₂ r₂.root t₁ in
    let r₃ = maprev-Turns c n map a c m₂ t₂ hc (omega arith) in
    (
      λ i. r₃.root i ∙ r₂.root i ∙ r₁.root i,
      λ j hj.
          r₃.entries j hj
          ∙ turned_ext (entry m₂ map) (turned (entry m₁ map) b c) a c n j r₂.entries hc hj
          ∙ turned_ext (turned (entry m₁ map) b c) (turned (turned (entry m map) a b) b c) a c n j
              (λ i hi.
                turned_ext (entry m₁ map) (turned (entry m map) a b) b c n i r₁.entries hc hi)
              hc hj
          ∙ rotated-turned (entry m map) a b c j h k,
    )
