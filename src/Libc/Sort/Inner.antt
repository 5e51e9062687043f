-- ===== src/Libc/Sort/Inner.antt =====
-- The steps of the loop of `qs1` at the label `loop` that exchange two elements or none.
use unix_v7_c.Base.{ℕ, ◌+◌, ◌-◌, ◌≤◌, ◌<◌, ◌≡◌, ap, inl, inr, arith, ◌==◌, Bool-cases, subst}
use unix_v7_c.Libc.Sort.{Sign, below, equal, above, qsexc}
use unix_v7_c.Libc.Sort.Exchange.{qsexc-right, qsexc-left, qsexc-else}
use unix_v7_c.Libc.Sort.Steps.{not_above, Leq, Preorder, Parts, at_low, at_up, at_mid}

module _ {E : Type 0} (compare : E → E → Sign) where
  module _ (O : Preorder compare) (v : E) (s l i j lp hp : ℕ) (a : ℕ → E)
      (p : Parts compare v s l i j lp hp a) where
    pub inner_equal :
        hp < j
        → compare (a hp) (a j) ≡ equal
        → Parts compare v s l i j lp (hp + 1) (qsexc a (hp + 1) j)
    inner_equal h e =
        let pivot = p.mid hp p.lphp (omega arith) in
        let as_v : Leq compare (a j) v × Leq compare v (a j) = (
          O.trans (a j) (a hp) v (O.flip_equal (a hp) (a j) e) pivot.0,
          O.trans v (a hp) (a j) pivot.1 (ap not_above e),
        ) in
        record {
          si = p.si;
          ilp = p.ilp;
          lphp = omega (arith, p.lphp);
          hpj = omega (arith, h);
          jl = p.jl;
          low = λ x sx xi.
              at_low compare v _ (a x)
                (qsexc-else a (hp + 1) j x (λ z. absurd (omega (arith, z, xi, p.ilp, p.lphp)))
                  (λ z. absurd (omega (arith, z, xi, p.ilp, p.lphp, h))))
                (p.low x sx xi);
          mid = λ x lx xh. elim (Bool-cases (hp + 1 == x)) [
            | inl c ↦
                let c' : hp + 1 ≡ x = ground (arith, c) in
                subst
                  (λ y. Leq compare (qsexc a (hp + 1) j y) v × Leq compare v (qsexc a (hp + 1) j y))
                  c' (at_mid compare v _ (a j) (qsexc-left a (hp + 1) j) as_v)
            | inr c ↦
                let near : x ≤ hp = ground (arith, c, xh) in
                at_mid compare v _ (a x)
                  (qsexc-else a (hp + 1) j x (λ z. absurd (omega (arith, z, near)))
                    (λ z. absurd (omega (arith, z, near, h))))
                  (p.mid x lx near)
          ];
          up = λ x jx xl.
              at_up compare v _ (a x)
                (qsexc-else a (hp + 1) j x (λ z. absurd (omega (arith, z, jx, h)))
                  (λ z. absurd (omega (arith, z, jx))))
                (p.up x jx xl);
        }

    pub inner_below : hp < j → compare (a hp) (a j) ≡ below → Parts compare v s l i (j - 1) lp hp a
    inner_below h e = record {
      si = p.si;
      ilp = p.ilp;
      lphp = p.lphp;
      hpj = omega (arith, h);
      jl = omega (arith, p.jl);
      low = p.low;
      mid = p.mid;
      up = λ x jx xl. elim (Bool-cases (j == x)) [
        | inl c ↦
            let c' : j ≡ x = ground (arith, c) in
            subst (λ y. Leq compare v (a y)) c'
              (O.trans v (a hp) (a j) (p.mid hp p.lphp (omega arith)).1 (ap not_above e))
        | inr c ↦ p.up x (ground (arith, c, jx, h)) xl
      ];
    }

    pub inner_low : hp < j → compare (a hp) (a j) ≡ above → Leq compare (a j) v
    inner_low h e =
        O.trans (a j) (a hp) v (O.flip_above (a hp) (a j) e) (p.mid hp p.lphp (omega arith)).0

    pub inner_swap :
        hp < j
        → i < lp
        → Leq compare v (a i)
        → compare (a hp) (a j) ≡ above
        → Parts compare v s l (i + 1) (j - 1) lp hp (qsexc a i j)
    inner_swap h hi big e = record {
      si = omega (arith, p.si);
      ilp = omega (arith, hi);
      lphp = p.lphp;
      hpj = omega (arith, h);
      jl = omega (arith, p.jl);
      low = λ x sx xi. elim (Bool-cases (i == x)) [
        | inl c ↦
            let c' : i ≡ x = ground (arith, c) in
            subst (λ y. Leq compare (qsexc a i j y) v) c'
              (at_low compare v _ (a j) (qsexc-left a i j) (inner_low h e))
        | inr c ↦
            let less : x < i = ground (arith, c, xi) in
            at_low compare v _ (a x)
              (qsexc-else a i j x (λ z. absurd (omega (arith, z, less)))
                (λ z. absurd (omega (arith, z, less, hi, h, p.lphp))))
              (p.low x sx less)
      ];
      mid = λ x lx xh.
          at_mid compare v _ (a x)
            (qsexc-else a i j x (λ z. absurd (omega (arith, z, lx, hi)))
              (λ z. absurd (omega (arith, z, xh, h))))
            (p.mid x lx xh);
      up = λ x jx xl. elim (Bool-cases (j == x)) [
        | inl c ↦
            let c' : j ≡ x = ground (arith, c) in
            subst (λ y. Leq compare v (qsexc a i j y)) c'
              (at_up compare v _ (a i) (qsexc-right a i j) big)
        | inr c ↦
            let more : j < x = ground (arith, c, jx, h) in
            at_up compare v _ (a x)
              (qsexc-else a i j x (λ z. absurd (omega (arith, z, more, hi, h, p.lphp)))
                (λ z. absurd (omega (arith, z, more))))
              (p.up x more xl)
      ];
    }
