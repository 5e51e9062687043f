-- ===== src/Libc/Str/Find.antt =====
-- `index` finds the first and `rindex` the last place of a byte.
use unix_v7_c.Base.{
  ℕ, suc, ◌+◌, ◌≡◌, ◌≢◌, refl, ap, false, [], ◌∷◌, ◌++◌, ◌==◌, arith, length, has, Bool-cases, inl,
  inr,
}
use unix_v7_c.Libc.Str.{Bytes, Pointer, null, at, next, index, rindex, rindex_from}
use unix_v7_c.Libc.Str.Text.{IsText, string, ne_zero}

-- The first place of c in t.
pub data FirstOf (c : ℕ) (t : Bytes) : Pointer → Type 0 where
  absent : has c t ≡ false → FirstOf c t null
  first : (u v : Bytes) → t ≡ u ++ (c ∷ v) → has c u ≡ false → FirstOf c t (at (length u))

FirstOf-next :
    (c x : ℕ) {t : Bytes} {p : Pointer}
    → (x == c) ≡ false
    → FirstOf c t p
    → FirstOf c (x ∷ t) (next p)
FirstOf-next c x ne (absent h) = absent (ground arith)
FirstOf-next c x ne (first u v e h) = first (x ∷ u) v (ap (◌∷◌ x) e) (ground arith)

-- `index` of a byte other than 0 returns its first place in the text, or NULL if it is not there.
pub index-FirstOf :
    (c : ℕ) (t rest : Bytes) → c ≢ 0 → IsText t → FirstOf c t (index (string t rest) c)
unfolding index
index-FirstOf c [] rest nz h = let ne : (0 == c) ≡ false = ground arith in rw ne (absent refl)
index-FirstOf c (x ∷ t) rest nz h = elim (Bool-cases (x == c)) [
  | inl hit ↦ let e : x ≡ c = ground arith in rw hit (first [] t (ap (λ y. y ∷ t) e) refl)
  | inr miss ↦ rw (miss, ne_zero x h.0) (FirstOf-next c x miss (index-FirstOf c t rest nz h.1))
]

-- The last place of c in t, counted from i; r is the answer if there is none.
pub data LastOf (c i : ℕ) (t : Bytes) (r : Pointer) : Pointer → Type 0 where
  absent : has c t ≡ false → LastOf c i t r r
  last : (u v : Bytes) → t ≡ u ++ (c ∷ v) → has c v ≡ false → LastOf c i t r (at (i + length u))

LastOf-miss :
    (c x i : ℕ) {t : Bytes} {r p : Pointer}
    → (x == c) ≡ false
    → LastOf c (i + 1) t r p
    → LastOf c i (x ∷ t) r p
LastOf-miss c x i ne (absent h) = absent (ground arith)
LastOf-miss c x i ne (last u v e h) =
    let n : i + 1 + length u ≡ i + suc (length u) = omega arith in
    rw n (last (x ∷ u) v (ap (◌∷◌ x) e) h)

LastOf-hit :
    (c i : ℕ) {t : Bytes} {r p : Pointer} → LastOf c (i + 1) t (at i) p → LastOf c i (c ∷ t) r p
LastOf-hit c i {t} {r} (absent h) =
    let n : i + 0 ≡ i = omega arith in
    let here : LastOf c i (c ∷ t) r (at (i + 0)) = last [] t refl h in rw n at here
LastOf-hit c i (last u v e h) =
    let n : i + 1 + length u ≡ i + suc (length u) = omega arith in
    rw n (last (c ∷ u) v (ap (◌∷◌ c) e) h)

rindex_from-LastOf :
    (c i : ℕ) (r : Pointer) (t rest : Bytes)
    → c ≢ 0
    → IsText t
    → LastOf c i t r (rindex_from i r (string t rest) c)
unfolding rindex_from
rindex_from-LastOf c i r [] rest nz h =
    let ne : (0 == c) ≡ false = ground arith in rw ne (absent refl)
rindex_from-LastOf c i r (x ∷ t) rest nz h = elim (Bool-cases (x == c)) [
  | inl hit ↦
      let e : x ≡ c = ground arith in
      rw (hit, ne_zero x h.0)
        (rw e (LastOf-hit c i (rindex_from-LastOf c (i + 1) (at i) t rest nz h.1)))
  | inr miss ↦
      rw (miss, ne_zero x h.0)
        (LastOf-miss c x i miss (rindex_from-LastOf c (i + 1) r t rest nz h.1))
]

-- `rindex` of a byte other than 0 returns its last place in the text, or NULL if it is not there.
pub rindex-LastOf :
    (c : ℕ) (t rest : Bytes) → c ≢ 0 → IsText t → LastOf c 0 t null (rindex (string t rest) c)
unfolding rindex
rindex-LastOf c t rest nz h = rindex_from-LastOf c 0 null t rest nz h
