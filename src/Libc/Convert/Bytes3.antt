-- ===== src/Libc/Convert/Bytes3.antt =====
-- Disk addresses of three bytes, and the swapping of bytes.
use unix_v7_c.Base.{
  ℕ, zero, suc, ◌+◌, ◌*◌, ◌/◌, ◌%◌, ◌^◌, ◌≤◌, ◌≡◌, refl, some, List, [], ◌∷◌, ◌++◌, arith, length,
  take, drop,
}
use mathlib.Core.List.{map}
use unix_v7_c.Libc.Str.{Bytes}
use unix_v7_c.Libc.Convert.{ltol3, l3tol, swab, swab_pairs}

-- The 24 bits that three bytes hold.
abbrev pub low24 : ℕ → ℕ
low24 l = l % 2 ^ 24

-- `ltol3` of n longs writes three bytes for each, if the array has room, and `l3tol` reads from them
-- the low 24 bits of every long, whatever the longs; the longs behind are kept.
pub l3tol-ltol3 :
    (n : ℕ) (cp : Bytes) (lp dst : List ℕ)
    → length lp ≡ n
    → 3 * n ≤ length cp
    → n ≤ length dst
    → (s : Bytes) × (ltol3 cp lp n ≡ some s) × (l3tol dst s n ≡ some (map low24 lp ++ drop n dst))
unfolding ltol3 l3tol
l3tol-ltol3 zero cp [] dst len room room' = (cp, refl, refl)
l3tol-ltol3 zero cp (l ∷ lp) dst len room room' = absurd (omega arith)
l3tol-ltol3 (suc n) cp [] dst len room room' = absurd (omega arith)
l3tol-ltol3 (suc n) [] (l ∷ lp) dst len room room' = absurd (omega arith)
l3tol-ltol3 (suc n) (x ∷ []) (l ∷ lp) dst len room room' = absurd (omega arith)
l3tol-ltol3 (suc n) (x ∷ y ∷ []) (l ∷ lp) dst len room room' = absurd (omega arith)
l3tol-ltol3 (suc n) (x ∷ y ∷ z ∷ cp) (l ∷ lp) [] len room room' = absurd (omega arith)
l3tol-ltol3 (suc n) (x ∷ y ∷ z ∷ cp) (l ∷ lp) (k ∷ dst) len room room' =
    let (s, e, f) = l3tol-ltol3 n cp lp dst (omega arith) (omega arith) (omega arith) in
    let low : l % 256 + l / 256 % 256 * 256 + l / 65536 % 256 * 65536 ≡ low24 l = omega arith in
    ((l % 256) ∷ (l / 256 % 256) ∷ (l / 65536 % 256) ∷ s, rw e, rw (f, low))

swab_pairs-twice :
    (n : ℕ) (pf pt q : Bytes)
    → 2 * n ≤ length pf
    → 2 * n ≤ length pt
    → 2 * n ≤ length q
    → (r : Bytes) × (swab_pairs pf pt n ≡ some r)
      × (swab_pairs r q n ≡ some (take (2 * n) pf ++ drop (2 * n) q))
unfolding swab_pairs
swab_pairs-twice zero pf pt q a b c = (pt, refl, refl)
swab_pairs-twice (suc n) (x ∷ y ∷ pf) (u ∷ v ∷ pt) (k ∷ l ∷ q) a b c =
    let (r, e, f) = swab_pairs-twice n pf pt q (omega arith) (omega arith) (omega arith) in
    let m : 2 * suc n ≡ suc (suc (2 * n)) = omega arith in (y ∷ x ∷ r, rw e, rw (m, f))
swab_pairs-twice (suc n) [] pt q a b c = absurd (omega arith)
swab_pairs-twice (suc n) (x ∷ []) pt q a b c = absurd (omega arith)
swab_pairs-twice (suc n) (x ∷ y ∷ pf) [] q a b c = absurd (omega arith)
swab_pairs-twice (suc n) (x ∷ y ∷ pf) (u ∷ []) q a b c = absurd (omega arith)
swab_pairs-twice (suc n) (x ∷ y ∷ pf) (u ∷ v ∷ pt) [] a b c = absurd (omega arith)
swab_pairs-twice (suc n) (x ∷ y ∷ pf) (u ∷ v ∷ pt) (k ∷ []) a b c = absurd (omega arith)

-- Two calls of `swab` with an even count copy the bytes in their order, and keep those behind.
pub swab-swab :
    (n : ℕ) (pf pt q : Bytes)
    → 2 * n ≤ length pf
    → 2 * n ≤ length pt
    → 2 * n ≤ length q
    → (r : Bytes) × (swab pf pt (2 * n) ≡ some r)
      × (swab r q (2 * n) ≡ some (take (2 * n) pf ++ drop (2 * n) q))
unfolding swab
swab-swab n pf pt q a b c =
    let half : 2 * n / 2 ≡ n = omega arith in rw half (swab_pairs-twice n pf pt q a b c)
