-- ===== src/Inode/Table/Scan.antt =====
-- What the loop of `iget` over the table finds, from usr/sys/sys/iget.c.
use unix_v7_c.Base.{
  ℕ, ◌+◌, ◌≤◌, ◌<◌, ◌≡◌, ◌≢◌, zero, suc, ◌==◌, sym, ap, subst, inl, inr, true, false, arith,
  Bool-cases, Option, some, none,
}
use unix_v7_c.Inode.Table.{Inodes, hit, missing, is_it, scan, first_free}
use unix_v7_c.Base.{
  ℕ, ◌+◌, ◌≤◌, ◌<◌, ◌≡◌, ◌≢◌, zero, suc, ◌==◌, sym, ap, subst, inl, inr, true, false, arith,
  Bool-cases, Option, some, none,
}
use unix_v7_c.Base.{
  ℕ, ◌+◌, ◌≤◌, ◌<◌, ◌≡◌, ◌≢◌, zero, suc, ◌==◌, sym, ap, subst, inl, inr, true, false, arith,
  Bool-cases, Option, some, none,
}
use unix_v7_c.Base.{
  ℕ, ◌+◌, ◌≤◌, ◌<◌, ◌≡◌, ◌≢◌, zero, suc, ◌==◌, sym, ap, subst, inl, inr, true, false, arith,
  Bool-cases, Option, some, none,
}
use unix_v7_c.Base.{
  ℕ, ◌+◌, ◌≤◌, ◌<◌, ◌≡◌, ◌≢◌, zero, suc, ◌==◌, sym, ap, subst, inl, inr, true, false, arith,
  Bool-cases, Option, some, none,
}
use unix_v7_c.Base.{
  ℕ, ◌+◌, ◌≤◌, ◌<◌, ◌≡◌, ◌≢◌, zero, suc, ◌==◌, sym, ap, subst, inl, inr, true, false, arith,
  Bool-cases, Option, some, none,
}
use unix_v7_c.Base.{
  ℕ, ◌+◌, ◌≤◌, ◌<◌, ◌≡◌, ◌≢◌, zero, suc, ◌==◌, sym, ap, subst, inl, inr, true, false, arith,
  Bool-cases, Option, some, none,
}
use unix_v7_c.Base.{
  ℕ, ◌+◌, ◌≤◌, ◌<◌, ◌≡◌, ◌≢◌, zero, suc, ◌==◌, sym, ap, subst, inl, inr, true, false, arith,
  Bool-cases, Option, some, none,
}
use unix_v7_c.Base.{
  ℕ, ◌+◌, ◌≤◌, ◌<◌, ◌≡◌, ◌≢◌, zero, suc, ◌==◌, sym, ap, subst, inl, inr, true, false, arith,
  Bool-cases, Option, some, none,
}
use unix_v7_c.Base.{
  ℕ, ◌+◌, ◌≤◌, ◌<◌, ◌≡◌, ◌≢◌, zero, suc, ◌==◌, sym, ap, subst, inl, inr, true, false, arith,
  Bool-cases, Option, some, none,
}
use unix_v7_c.Base.{
  ℕ, ◌+◌, ◌≤◌, ◌<◌, ◌≡◌, ◌≢◌, zero, suc, ◌==◌, sym, ap, subst, inl, inr, true, false, arith,
  Bool-cases, Option, some, none,
}
use unix_v7_c.Base.{
  ℕ, ◌+◌, ◌≤◌, ◌<◌, ◌≡◌, ◌≢◌, zero, suc, ◌==◌, sym, ap, subst, inl, inr, true, false, arith,
  Bool-cases, Option, some, none,
}
use unix_v7_c.Base.{
  ℕ, ◌+◌, ◌≤◌, ◌<◌, ◌≡◌, ◌≢◌, zero, suc, ◌==◌, sym, ap, subst, inl, inr, true, false, arith,
  Bool-cases, Option, some, none,
}
use unix_v7_c.Base.{
  ℕ, ◌+◌, ◌≤◌, ◌<◌, ◌≡◌, ◌≢◌, zero, suc, ◌==◌, sym, ap, subst, inl, inr, true, false, arith,
  Bool-cases, Option, some, none,
}
use unix_v7_c.Base.{
  ℕ, ◌+◌, ◌≤◌, ◌<◌, ◌≡◌, ◌≢◌, zero, suc, ◌==◌, sym, ap, subst, inl, inr, true, false, arith,
  Bool-cases, Option, some, none,
}
use unix_v7_c.Base.{
  ℕ, ◌+◌, ◌≤◌, ◌<◌, ◌≡◌, ◌≢◌, zero, suc, ◌==◌, sym, ap, subst, inl, inr, true, false, arith,
  Bool-cases, Option, some, none,
}
use unix_v7_c.Base.{
  ℕ, ◌+◌, ◌≤◌, ◌<◌, ◌≡◌, ◌≢◌, zero, suc, ◌==◌, sym, ap, subst, inl, inr, true, false, arith,
  Bool-cases, Option, some, none,
}
use unix_v7_c.Base.{
  ℕ, ◌+◌, ◌≤◌, ◌<◌, ◌≡◌, ◌≢◌, zero, suc, ◌==◌, sym, ap, subst, inl, inr, true, false, arith,
  Bool-cases, Option, some, none,
}
use unix_v7_c.Base.{
  ℕ, ◌+◌, ◌≤◌, ◌<◌, ◌≡◌, ◌≢◌, zero, suc, ◌==◌, sym, ap, subst, inl, inr, true, false, arith,
  Bool-cases, Option, some, none,
}
use unix_v7_c.Base.{
  ℕ, ◌+◌, ◌≤◌, ◌<◌, ◌≡◌, ◌≢◌, zero, suc, ◌==◌, sym, ap, subst, inl, inr, true, false, arith,
  Bool-cases, Option, some, none,
}
use unix_v7_c.Base.{
  ℕ, ◌+◌, ◌≤◌, ◌<◌, ◌≡◌, ◌≢◌, zero, suc, ◌==◌, sym, ap, subst, inl, inr, true, false, arith,
  Bool-cases, Option, some, none,
}

pub Found-hit : (x y : ℕ) → hit x ≡ hit y → x ≡ y
Found-hit x y h = ap (λ f. elim f [ hit a ↦ a | missing o ↦ x ]) h

pub hit-missing : (x : ℕ) (o : Option ℕ) → hit x ≢ missing o
hit-missing x o h = ground (arith, h)

pub Found-missing : (a b : Option ℕ) → missing a ≡ missing b → a ≡ b
Found-missing a b h = ap (λ f. elim f [ hit x ↦ a | missing o ↦ o ]) h

module _ (dev ino : ℕ) (t : Inodes) where
  -- What the loop hits is the i-node.
  pub scan-hit :
      (n k : ℕ) (oip : Option ℕ) (x : ℕ)
      → scan n k dev ino oip t ≡ hit x
      → (is_it dev ino (t x) ≡ true) × (x < k + n)
  unfolding scan
  scan-hit zero k oip x h = absurd (hit-missing x oip (sym h))
  scan-hit (suc n) k oip x h = elim (Bool-cases (is_it dev ino (t k))) [
    | inl e ↦
        let h' : hit k ≡ hit x = rw e at h in
        let same = Found-hit k x h' in
        (subst (λ y. is_it dev ino (t y) ≡ true) same e, omega (arith, same))
    | inr e ↦
        let h' : scan n (k + 1) dev ino (first_free oip k (t k)) t ≡ hit x = rw e at h in
        let rest = scan-hit n (k + 1) (first_free oip k (t k)) x h' in
        (rest.0, omega (arith, rest.1))
  ]

  -- Where the loop misses, the i-node is not in the table.
  pub scan-unmatched :
      (n k : ℕ) (oip r : Option ℕ)
      → scan n k dev ino oip t ≡ missing r
      → (x : ℕ) → k ≤ x
      → x < k + n
      → is_it dev ino (t x) ≡ false
  unfolding scan
  scan-unmatched zero k oip r h x ge lt = absurd (omega (arith, ge, lt))
  scan-unmatched (suc n) k oip r h x ge lt = elim (Bool-cases (is_it dev ino (t k))) [
    | inl e ↦ let h' : hit k ≡ missing r = rw e at h in absurd (hit-missing k r h')
    | inr e ↦
        let h' : scan n (k + 1) dev ino (first_free oip k (t k)) t ≡ missing r = rw e at h in
        elim (Bool-cases (x == k)) [
          | inl f ↦
              let f' : k ≡ x = ground (arith, f) in subst (λ y. is_it dev ino (t y) ≡ false) f' e
          | inr f ↦
              scan-unmatched n (k + 1) (first_free oip k (t k)) r h' x (ground (arith, f))
                (omega (arith, lt))
        ]
  ]

  -- A place that the loop takes is free.
  pub first_free-place :
      (k : ℕ) (oip : Option ℕ)
      → ((x : ℕ) → oip ≡ some x → ((t x).i_count ≡ 0) × (x < k))
      → (x : ℕ) → first_free oip k (t k) ≡ some x
      → ((t x).i_count ≡ 0) × (x < k + 1)
  first_free-place k (some o) ok x h = let f = ok x h in (f.0, omega (arith, f.1))
  first_free-place k none ok x h = elim (Bool-cases ((t k).i_count == 0)) [
    | inl e ↦
        let h' : some k ≡ some x = rw e at h in
        let same : k ≡ x = ground (arith, h') in
        (subst (λ y. (t y).i_count ≡ 0) same (ground (arith, e)), omega (arith, same))
    | inr e ↦ let h' : none ≡ some x = rw e at h in absurd (ground (arith, h'))
  ]

  -- So is the one it keeps.
  pub scan-place :
      (n k : ℕ) (oip : Option ℕ) (o : ℕ)
      → ((x : ℕ) → oip ≡ some x → ((t x).i_count ≡ 0) × (x < k))
      → scan n k dev ino oip t ≡ missing (some o)
      → ((t o).i_count ≡ 0) × (o < k + n)
  unfolding scan
  scan-place zero k oip o ok h =
      let found = ok o (Found-missing oip (some o) h) in (found.0, omega (arith, found.1))
  scan-place (suc n) k oip o ok h = elim (Bool-cases (is_it dev ino (t k))) [
    | inl e ↦ let h' : hit k ≡ missing (some o) = rw e at h in absurd (hit-missing k (some o) h')
    | inr e ↦
        let h' : scan n (k + 1) dev ino (first_free oip k (t k)) t ≡ missing (some o) = rw e at h in
        let rest = scan-place n (k + 1) (first_free oip k (t k)) o (first_free-place k oip ok) h' in
        (rest.0, omega (arith, rest.1))
  ]

  pub scan-kept : (n k o : ℕ) → scan n k dev ino (some o) t ≢ missing none
  unfolding scan
  scan-kept zero k o h = absurd (ground (arith, Found-missing (some o) none h))
  scan-kept (suc n) k o h = elim (Bool-cases (is_it dev ino (t k))) [
    | inl e ↦ let h' : hit k ≡ missing none = rw e at h in hit-missing k none h'
    | inr e ↦
        let h' : scan n (k + 1) dev ino (some o) t ≡ missing none = rw e at h in
        scan-kept n (k + 1) o h'
  ]

  -- Where it has no place, all entries are taken.
  pub scan-full :
      (n k : ℕ)
      → scan n k dev ino none t ≡ missing none
      → (x : ℕ) → k ≤ x
      → x < k + n
      → (t x).i_count ≢ 0
  unfolding scan
  scan-full zero k h x ge lt z = absurd (omega (arith, ge, lt))
  scan-full (suc n) k h x ge lt z = elim (Bool-cases (is_it dev ino (t k))) [
    | inl e ↦ let h' : hit k ≡ missing none = rw e at h in hit-missing k none h'
    | inr e ↦ elim (Bool-cases ((t k).i_count == 0)) [
      | inl f ↦
          let h' : scan n (k + 1) dev ino (some k) t ≡ missing none = rw (e, f) at h in
          scan-kept n (k + 1) k h'
      | inr f ↦
          let h' : scan n (k + 1) dev ino none t ≡ missing none = rw (e, f) at h in
          elim (Bool-cases (x == k)) [
            | inl g ↦
                let g' : x ≡ k = ground (arith, g) in
                let z' = subst (λ y. (t y).i_count ≡ 0) g' z in ground (arith, f, z')
            | inr g ↦ scan-full n (k + 1) h' x (ground (arith, g)) (omega (arith, lt)) z
          ]
    ]
  ]
