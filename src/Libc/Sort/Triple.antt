-- ===== src/Libc/Sort/Triple.antt =====
-- The steps of the loop of `qs1` that exchange three elements.
use unix_v7_c.Base.{ℕ, ◌+◌, ◌-◌, ◌≤◌, ◌<◌, ◌≡◌, ◌≢◌, inl, inr, arith, ◌==◌, Bool-cases, subst}
use unix_v7_c.Libc.Sort.{Sign, above, qstexc}
use unix_v7_c.Libc.Sort.Exchange.{qstexc-second, qstexc-first, qstexc-else}
use unix_v7_c.Libc.Sort.Steps.{Leq, Preorder, Parts, at_low, at_up, at_mid}
use unix_v7_c.Libc.Sort.Inner.{inner_low}

module _ {E : Type 0} (compare : E → E → Sign) where
  module _ (O : Preorder compare) (v : E) (s l i j lp hp : ℕ) (a : ℕ → E)
      (p : Parts compare v s l i j lp hp a) where
    pub inner_full :
        hp < j
        → i ≡ lp
        → compare (a hp) (a j) ≡ above
        → Parts compare v s l (lp + 1) j (lp + 1) (hp + 1) (qstexc a i (hp + 1) j)
    inner_full h full e = record {
      si = omega (arith, p.si, p.ilp);
      ilp = omega arith;
      lphp = omega (arith, p.lphp);
      hpj = omega (arith, h);
      jl = p.jl;
      low = λ x sx xi. elim (Bool-cases (i == x)) [
        | inl c ↦
            let c' : i ≡ x = ground (arith, c) in
            subst (λ y. Leq compare (qstexc a i (hp + 1) j y) v) c'
              (at_low compare v _ (a j) (qstexc-first a i (hp + 1) j ij ik)
                (inner_low compare O v s l i j lp hp a p h e))
        | inr c ↦
            let less : x < i = ground (arith, c, xi, full) in
            at_low compare v _ (a x)
              (qstexc-else a i (hp + 1) j ij ik x (λ z. absurd (omega (arith, z, less)))
                (λ z. absurd (omega (arith, z, less, full, p.lphp)))
                (λ z. absurd (omega (arith, z, less, full, p.lphp, h))))
              (p.low x sx less)
      ];
      mid = λ x lx xh. elim (Bool-cases (hp + 1 == x)) [
        | inl c ↦
            let c' : hp + 1 ≡ x = ground (arith, c) in
            subst
              (λ y.
                Leq compare (qstexc a i (hp + 1) j y) v × Leq compare v (qstexc a i (hp + 1) j y))
              c'
              (at_mid compare v _ (a i) (qstexc-second a i (hp + 1) j ij ik)
                (p.mid i (omega (arith, full)) (omega (arith, full, p.lphp))))
        | inr c ↦
            let near : x ≤ hp = ground (arith, c, xh) in
            at_mid compare v _ (a x)
              (qstexc-else a i (hp + 1) j ij ik x (λ z. absurd (omega (arith, z, lx, full)))
                (λ z. absurd (omega (arith, z, near))) (λ z. absurd (omega (arith, z, near, h))))
              (p.mid x (omega (arith, lx)) near)
      ];
      up = λ x jx xl.
          at_up compare v _ (a x)
            (qstexc-else a i (hp + 1) j ij ik x
              (λ z. absurd (omega (arith, z, jx, h, full, p.lphp)))
              (λ z. absurd (omega (arith, z, jx, h))) (λ z. absurd (omega (arith, z, jx))))
            (p.up x jx xl);
    }
      where
        ij : i ≢ hp + 1
        ij z = absurd (omega (arith, z, full, p.lphp))

        ik : i ≢ j
        ik z = absurd (omega (arith, z, full, p.lphp, h))

    pub last_step :
        j ≡ hp
        → i < lp
        → Leq compare v (a i)
        → Parts compare v s l i (hp - 1) (lp - 1) (hp - 1) (qstexc a j (lp - 1) i)
    last_step h hi big = record {
      si = p.si;
      ilp = omega (arith, hi);
      lphp = omega (arith, p.lphp);
      hpj = omega arith;
      jl = omega (arith, p.jl, h);
      low = λ x sx xi.
          at_low compare v _ (a x)
            (qstexc-else a j (lp - 1) i jk ji x (λ z. absurd (omega (arith, z, xi, hi, h, p.lphp)))
              (λ z. absurd (omega (arith, z, xi, hi))) (λ z. absurd (omega (arith, z, xi))))
            (p.low x sx xi);
      mid = λ x lx xh. elim (Bool-cases (lp - 1 == x)) [
        | inl c ↦
            let c' : lp - 1 ≡ x = ground (arith, c) in
            subst
              (λ y.
                Leq compare (qstexc a j (lp - 1) i y) v × Leq compare v (qstexc a j (lp - 1) i y))
              c'
              (at_mid compare v _ (a j) (qstexc-second a j (lp - 1) i jk ji)
                (p.mid j (omega (arith, h, p.lphp)) (omega (arith, h))))
        | inr c ↦
            let far : lp ≤ x = ground (arith, c, lx, hi) in
            at_mid compare v _ (a x)
              (qstexc-else a j (lp - 1) i jk ji x
                (λ z. absurd (omega (arith, z, xh, h, hi, p.lphp)))
                (λ z. absurd (omega (arith, z, far, hi))) (λ z. absurd (omega (arith, z, far, hi))))
              (p.mid x far (omega (arith, xh)))
      ];
      up = λ x jx xl. elim (Bool-cases (j == x)) [
        | inl c ↦
            let c' : j ≡ x = ground (arith, c) in
            subst (λ y. Leq compare v (qstexc a j (lp - 1) i y)) c'
              (at_up compare v _ (a i) (qstexc-first a j (lp - 1) i jk ji) big)
        | inr c ↦
            let more : j < x = ground (arith, c, jx, h, hi, p.lphp) in
            at_up compare v _ (a x)
              (qstexc-else a j (lp - 1) i jk ji x (λ z. absurd (omega (arith, z, more)))
                (λ z. absurd (omega (arith, z, more, h, p.lphp, hi)))
                (λ z. absurd (omega (arith, z, more, h, p.lphp, hi))))
              (p.up x more xl)
      ];
    }
      where
        jk : j ≢ lp - 1
        jk z = absurd (omega (arith, z, h, hi, p.lphp))

        ji : j ≢ i
        ji z = absurd (omega (arith, z, h, hi, p.lphp))
