-- ===== src/Libc/Sort/Loop.antt =====
-- The loop of `qs1`, branch by branch.
use unix_v7_c.Base.{ℕ, suc, ◌+◌, ◌-◌, ◌≡◌, refl, true, false, Option, some, ltb, ◌==◌}
use unix_v7_c.Libc.Sort.{Sign, below, equal, above, qsexc, qstexc, part}

module _ {E : Type 0} (compare : E → E → Sign) (n i j lp hp : ℕ) (a : ℕ → E) where
  abbrev Result : Type 0
  Result = Option (ℕ × ℕ × (ℕ → E))

  pub step_outer_equal :
      ltb i lp ≡ true
      → compare (a i) (a lp) ≡ equal
      → part compare (suc n) true i j lp hp a
        ≡ part compare n true i j (lp - 1) hp (qsexc a i (lp - 1))
  unfolding part
  step_outer_equal h e = rw (part, h, e) refl

  pub step_outer_below :
      ltb i lp ≡ true
      → compare (a i) (a lp) ≡ below
      → part compare (suc n) true i j lp hp a ≡ part compare n true (i + 1) j lp hp a
  unfolding part
  step_outer_below h e = rw (part, h, e) refl

  pub step_outer_above :
      ltb i lp ≡ true
      → compare (a i) (a lp) ≡ above
      → part compare (suc n) true i j lp hp a ≡ part compare n false i j lp hp a
  unfolding part
  step_outer_above h e = rw (part, h, e) refl

  pub step_outer_done :
      ltb i lp ≡ false → part compare (suc n) true i j lp hp a ≡ part compare n false i j lp hp a
  unfolding part
  step_outer_done h = rw (part, h) refl

  pub step_inner_equal :
      ltb hp j ≡ true
      → compare (a hp) (a j) ≡ equal
      → part compare (suc n) false i j lp hp a
        ≡ part compare n false i j lp (hp + 1) (qsexc a (hp + 1) j)
  unfolding part
  step_inner_equal h e = rw (part, h, e) refl

  pub step_inner_below :
      ltb hp j ≡ true
      → compare (a hp) (a j) ≡ below
      → part compare (suc n) false i j lp hp a ≡ part compare n false i (j - 1) lp hp a
  unfolding part
  step_inner_below h e = rw (part, h, e) refl

  pub step_inner_full :
      ltb hp j ≡ true
      → compare (a hp) (a j) ≡ above
      → (i == lp) ≡ true
      → part compare (suc n) false i j lp hp a
        ≡ part compare n false (lp + 1) j (lp + 1) (hp + 1) (qstexc a i (hp + 1) j)
  unfolding part
  step_inner_full h e f = rw (part, h, e, f) refl

  pub step_inner_swap :
      ltb hp j ≡ true
      → compare (a hp) (a j) ≡ above
      → (i == lp) ≡ false
      → part compare (suc n) false i j lp hp a
        ≡ part compare n true (i + 1) (j - 1) lp hp (qsexc a i j)
  unfolding part
  step_inner_swap h e f = rw (part, h, e, f) refl

  pub step_last :
      ltb hp j ≡ false
      → (i == lp) ≡ false
      → part compare (suc n) false i j lp hp a
        ≡ part compare n true i (hp - 1) (lp - 1) (hp - 1) (qstexc a j (lp - 1) i)
  unfolding part
  step_last h f = rw (part, h, f) refl

  pub step_end :
      ltb hp j ≡ false
      → (i == lp) ≡ true
      → part compare (suc n) false i j lp hp a ≡ some (lp, hp, a)
  unfolding part
  step_end h f = rw (part, h, f) refl
