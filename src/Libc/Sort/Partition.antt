-- ===== src/Libc/Sort/Partition.antt =====
-- The loop of `qs1` ends, with the array in three parts.
use unix_v7_c.Base.{
  ℕ, zero, suc, ◌+◌, ◌-◌, ◌*◌, ◌<◌, ◌≡◌, refl, ◌∙◌, Bool, true, false, ◌⊎◌, inl, inr, arith, Option,
  some, ltb, ◌==◌, if◌then◌else◌, Bool-cases, subst,
}
use unix_v7_c.Libc.Sort.{Sign, below, equal, above, qsexc, qstexc, part}
use unix_v7_c.Libc.Sort.Exchange.{
  Permuted, unmoved, Permuted-trans, qsexc-Permuted, qstexc-Permuted, qsexc-else,
}
use unix_v7_c.Libc.Sort.Loop.{
  step_outer_equal, step_outer_below, step_outer_above, step_outer_done, step_inner_equal,
  step_inner_below, step_inner_full, step_inner_swap, step_last, step_end,
}
use unix_v7_c.Libc.Sort.Inner.{inner_equal, inner_below, inner_swap}
use unix_v7_c.Libc.Sort.Triple.{inner_full, last_step}
use unix_v7_c.Libc.Sort.Steps.{Preorder, Parts, Leq, outer_equal, outer_below, outer_above, at_up}

sign_cases : (c : Sign) → (c ≡ below) ⊎ ((c ≡ equal) ⊎ (c ≡ above))
sign_cases below = inl refl
sign_cases equal = inr (inl refl)
sign_cases above = inr (inr refl)

module _ {E : Type 0} (compare : E → E → Sign) (O : Preorder compare) (v : E) (s l : ℕ) where
  -- The loop ended with b in three parts, which holds the elements of a.
  abbrev pub Split : (ℕ → E) → Option (ℕ × ℕ × (ℕ → E)) → Type 0
  Split a o =
      (lp : ℕ) × (hp : ℕ) × (b : ℕ → E) × (o ≡ some (lp, hp, b))
      × Permuted s l a b
      × Parts compare v s l lp hp lp hp b

  after :
      (a a' : ℕ → E) (o o' : Option (ℕ × ℕ × (ℕ → E)))
      → o ≡ o'
      → Permuted s l a a'
      → Split a' o'
      → Split a o
  after a a' o o' e p (lp, hp, b, found, q, parts) =
      (lp, hp, b, e ∙ found, Permuted-trans s l a a' b p q, parts)

  abbrev measure : Bool → (i j lp hp : ℕ) → ℕ
  measure outer i j lp hp = 2 * (lp - i + (j - hp)) + (if outer then 1 else 0)

  pub part-Split :
      (n : ℕ) (outer : Bool) (i j lp hp : ℕ) (a : ℕ → E)
      → Parts compare v s l i j lp hp a
      → (outer ≡ false → i < lp → Leq compare v (a i))
      → measure outer i j lp hp < n
      → Split a (part compare n outer i j lp hp a)
  part-Split zero outer i j lp hp a p big few = absurd (omega (arith, few))
  part-Split (suc n) true i j lp hp a p big few = elim (Bool-cases (ltb i lp)) [
    | inr t ↦ after a a _ _ (step_outer_done compare n i j lp hp a t) (unmoved s l a) (
        part-Split n false i j lp hp a p (λ _ h. absurd (ground (arith, h, t)))
          (omega (arith, few)))
    | inl t ↦
        let h : i < lp = ground (arith, t) in
        elim (sign_cases (compare (a i) (a lp))) [
          | inl e ↦ after a a _ _ (step_outer_below compare n i j lp hp a t e) (unmoved s l a) (
              part-Split n true (i + 1) j lp hp a (outer_below compare O v s l i j lp hp a p h e)
                (λ z. absurd (ground (arith, z))) (omega (arith, few, h)))
          | inr (inl e) ↦
              after a _ _ _ (step_outer_equal compare n i j lp hp a t e)
                (qsexc-Permuted a i (lp - 1) s l p.si (omega (arith, h, p.lphp, p.hpj, p.jl))
                  (omega (arith, p.si, h)) (omega (arith, h, p.lphp, p.hpj, p.jl)))
                (part-Split n true i j (lp - 1) hp (qsexc a i (lp - 1))
                  (outer_equal compare O v s l i j lp hp a p h e) (λ z. absurd (ground (arith, z)))
                  (omega (arith, few, h)))
          | inr (inr e) ↦
              after a a _ _ (step_outer_above compare n i j lp hp a t e) (unmoved s l a) (
                part-Split n false i j lp hp a p
                  (λ _ _. outer_above compare O v s l i j lp hp a p e) (omega (arith, few)))
        ]
  ]
  part-Split (suc n) false i j lp hp a p big few = elim (Bool-cases (ltb hp j)) [
    | inl t ↦
        let h : hp < j = ground (arith, t) in
        elim (sign_cases (compare (a hp) (a j))) [
          | inl e ↦ after a a _ _ (step_inner_below compare n i j lp hp a t e) (unmoved s l a) (
              part-Split n false i (j - 1) lp hp a (inner_below compare O v s l i j lp hp a p h e)
                big (omega (arith, few, h)))
          | inr (inl e) ↦
              after a _ _ _ (step_inner_equal compare n i j lp hp a t e)
                (qsexc-Permuted a (hp + 1) j s l (omega (arith, p.si, p.ilp, p.lphp))
                  (omega (arith, h, p.jl)) (omega (arith, p.si, p.ilp, p.lphp, p.hpj)) p.jl)
                (part-Split n false i j lp (hp + 1) (qsexc a (hp + 1) j)
                  (inner_equal compare O v s l i j lp hp a p h e)
                  (λ f hi.
                    at_up compare v _ (a i)
                      (qsexc-else a (hp + 1) j i (λ z. absurd (omega (arith, z, hi, p.lphp)))
                        (λ z. absurd (omega (arith, z, hi, p.lphp, h))))
                      (big f hi))
                  (omega (arith, few, h)))
          | inr (inr e) ↦ elim (Bool-cases (i == lp)) [
            | inl f ↦
                let full : i ≡ lp = ground (arith, f) in
                after a _ _ _ (step_inner_full compare n i j lp hp a t e f)
                  (qstexc-Permuted a i (hp + 1) j (λ z. absurd (omega (arith, z, full, p.lphp)))
                    (λ z. absurd (omega (arith, z, full, p.lphp, h))) s l p.si
                    (omega (arith, full, p.lphp, p.hpj, p.jl)) (omega (arith, p.si, p.ilp, p.lphp))
                    (omega (arith, h, p.jl)) (omega (arith, p.si, p.ilp, p.lphp, p.hpj)) p.jl)
                  (part-Split n false (lp + 1) j (lp + 1) (hp + 1) (qstexc a i (hp + 1) j)
                    (inner_full compare O v s l i j lp hp a p h full e)
                    (λ _ z. absurd (omega (arith, z))) (omega (arith, few, h)))
            | inr f ↦
                let hi : i < lp = ground (arith, f, p.ilp) in
                after a _ _ _ (step_inner_swap compare n i j lp hp a t e f)
                  (qsexc-Permuted a i j s l p.si (omega (arith, hi, p.lphp, p.hpj, p.jl))
                    (omega (arith, p.si, p.ilp, p.lphp, p.hpj)) p.jl)
                  (part-Split n true (i + 1) (j - 1) lp hp (qsexc a i j)
                    (inner_swap compare O v s l i j lp hp a p h hi (big refl hi) e)
                    (λ z. absurd (ground (arith, z))) (omega (arith, few, h, hi)))
          ]
        ]
    | inr t ↦
        let same : j ≡ hp = ground (arith, t, p.hpj) in
        elim (Bool-cases (i == lp)) [
          | inl f ↦
              let full : i ≡ lp = ground (arith, f) in
              (
                lp,
                hp,
                a,
                step_end compare n i j lp hp a t f,
                unmoved s l a,
                subst (λ y. Parts compare v s l lp y lp hp a) same
                    (subst (λ y. Parts compare v s l y j lp hp a) full p),
              )
          | inr f ↦
              let hi : i < lp = ground (arith, f, p.ilp) in
              after a _ _ _ (step_last compare n i j lp hp a t f)
                (qstexc-Permuted a j (lp - 1) i (λ z. absurd (omega (arith, z, same, hi, p.lphp)))
                  (λ z. absurd (omega (arith, z, same, hi, p.lphp))) s l
                  (omega (arith, p.si, p.ilp, p.lphp, p.hpj)) p.jl (omega (arith, p.si, hi))
                  (omega (arith, hi, p.lphp, p.hpj, p.jl)) p.si
                  (omega (arith, hi, p.lphp, p.hpj, p.jl)))
                (part-Split n true i (hp - 1) (lp - 1) (hp - 1) (qstexc a j (lp - 1) i)
                  (last_step compare O v s l i j lp hp a p same hi (big refl hi))
                  (λ z. absurd (ground (arith, z))) (omega (arith, few, hi, same)))
        ]
  ]
