-- ===== src/Rotor/Search.antt =====
-- The search of `setup` ends.
use unix_v7_c.Base.{
  ℕ, zero, suc, ◌+◌, ◌-◌, ◌%◌, ◌<◌, ◌≡◌, ◌≢◌, refl, ap, inl, inr, List, some, arith, ltb, ◌==◌,
  if◌then◌else◌, get_or, Bool-cases,
}
use native.Mathlib.Nat.{mod-eq_of_lt, mod_self}
use unix_v7_c.Rotor.{search}

next_small : (ic k : ℕ) → ic + 1 < k → (ic + 1) % k ≡ ic + 1
next_small ic k h = mod-eq_of_lt h

next_wrap : (ic k : ℕ) → ic + 1 ≡ k → (ic + 1) % k ≡ 0
next_wrap ic k h = rw h (mod_self k)

-- The places from ic on, around the end, up to j.
abbrev pub distance : ℕ → ℕ → ℕ → ℕ
distance ic j k = if ltb j ic then k - ic + j else j - ic

-- A search among k places of which one is free ends at a free place.
pub search_finds :
    (n : ℕ) (t : List ℕ) (k ic j : ℕ)
    → ic < k
    → j < k
    → get_or t j 0 ≡ 0
    → distance ic j k < n
    → (r : ℕ) × (search n t k ic ≡ some r) × (r < k) × (get_or t r 0 ≡ 0)
unfolding search
search_finds zero t k ic j h hj free d = absurd (omega (arith, d))
search_finds (suc n) t k ic j h hj free d = elim (Bool-cases (get_or t ic 0 == 0)) [
  | inl z ↦ (ic, rw z refl, h, ground (arith, z))
  | inr z ↦
      let other : ic ≢ j = λ e. absurd (ground (arith, z, free, ap (λ i. get_or t i 0) e)) in
      elim (Bool-cases (ltb (ic + 1) k)) [
        | inl s ↦
            let s' : ic + 1 < k = ground (arith, s) in
            let (r, e, inside, blank) =
              search_finds n t k (ic + 1) j s' hj free (ground (arith, other, d)) in
            (r, rw (z, next_small ic k s') e, inside, blank)
        | inr s ↦
            let s' : ic + 1 ≡ k = ground (arith, s, h) in
            let (r, e, inside, blank) =
              search_finds n t k 0 j (omega (arith, h)) hj free (ground (arith, other, d, s')) in
            (r, rw (z, next_wrap ic k s') e, inside, blank)
      ]
]

pub distance_lt : (ic j k : ℕ) → ic < k → j < k → distance ic j k < k
distance_lt ic j k h hj = ground (arith, h, hj)
