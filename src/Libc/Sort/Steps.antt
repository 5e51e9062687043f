-- ===== src/Libc/Sort/Steps.antt =====
-- Each step of the loop of `qs1` keeps the parts of the array that it has made.
use unix_v7_c.Base.{
  ℕ, ◌+◌, ◌-◌, ◌≤◌, ◌<◌, ◌≡◌, ap, sym, Bool, true, false, inl, inr, arith, ◌==◌, Bool-cases, subst,
}
use unix_v7_c.Libc.Sort.{Sign, below, equal, above, qsexc}
use unix_v7_c.Libc.Sort.Exchange.{qsexc-right, qsexc-else}

abbrev pub not_above : Sign → Bool
not_above below = true
not_above equal = true
not_above above = false

module _ {E : Type 0} (compare : E → E → Sign) where
  abbrev pub Leq : E → E → Type 0
  Leq x y = not_above (compare x y) ≡ true

  -- What `qsort` relies on: the caller's routine compares as a total preorder does.
  pub record Preorder : Type 0 where
    pub same : (x : E) → Leq x x
    pub trans : (x y z : E) → Leq x y → Leq y z → Leq x z
    pub flip_above : (x y : E) → compare x y ≡ above → Leq y x
    pub flip_equal : (x y : E) → compare x y ≡ equal → Leq y x

  -- Below i and above j all is on its side of v; from lp to hp all is as v.
  pub record Parts (v : E) (s l i j lp hp : ℕ) (a : ℕ → E) : Type 0 where
    pub si : s ≤ i
    pub ilp : i ≤ lp
    pub lphp : lp ≤ hp
    pub hpj : hp ≤ j
    pub jl : j < l
    pub low : (x : ℕ) → s ≤ x → x < i → Leq (a x) v
    pub mid : (x : ℕ) → lp ≤ x → x ≤ hp → Leq (a x) v × Leq v (a x)
    pub up : (x : ℕ) → j < x → x < l → Leq v (a x)

  pub at_low : (v : E) (x y : E) → x ≡ y → Leq y v → Leq x v
  at_low v x y e h = subst (λ w. Leq w v) (sym e) h

  pub at_up : (v : E) (x y : E) → x ≡ y → Leq v y → Leq v x
  at_up v x y e h = subst (λ w. Leq v w) (sym e) h

  pub at_mid : (v : E) (x y : E) → x ≡ y → Leq y v × Leq v y → Leq x v × Leq v x
  at_mid v x y e h = subst (λ w. Leq w v × Leq v w) (sym e) h

  module _ (O : Preorder) (v : E) (s l i j lp hp : ℕ) (a : ℕ → E)
      (p : Parts v s l i j lp hp a) where
    pub outer_equal :
        i < lp → compare (a i) (a lp) ≡ equal → Parts v s l i j (lp - 1) hp (qsexc a i (lp - 1))
    outer_equal h e =
        let pivot = p.mid lp (omega arith) p.lphp in
        let as_v : Leq (a i) v × Leq v (a i) = (
          O.trans (a i) (a lp) v (ap not_above e) pivot.0,
          O.trans v (a lp) (a i) pivot.1 (O.flip_equal (a i) (a lp) e),
        ) in
        record {
          si = p.si;
          ilp = omega (arith, h);
          lphp = omega (arith, p.lphp);
          hpj = p.hpj;
          jl = p.jl;
          low = λ x sx xi.
              at_low v _ (a x)
                (qsexc-else a i (lp - 1) x (λ z. absurd (omega (arith, z, xi)))
                  (λ z. absurd (omega (arith, z, xi, h))))
                (p.low x sx xi);
          mid = λ x lx xh. elim (Bool-cases (lp - 1 == x)) [
            | inl c ↦
                let c' : lp - 1 ≡ x = ground (arith, c) in
                subst (λ y. Leq (qsexc a i (lp - 1) y) v × Leq v (qsexc a i (lp - 1) y)) c'
                  (at_mid v _ (a i) (qsexc-right a i (lp - 1)) as_v)
            | inr c ↦
                let far : lp ≤ x = ground (arith, c, lx, h) in
                at_mid v _ (a x)
                  (qsexc-else a i (lp - 1) x (λ z. absurd (omega (arith, z, far, h)))
                    (λ z. absurd (omega (arith, z, far, h))))
                  (p.mid x far xh)
          ];
          up = λ x jx xl.
              at_up v _ (a x)
                (qsexc-else a i (lp - 1) x (λ z. absurd (omega (arith, z, jx, h, p.lphp, p.hpj)))
                  (λ z. absurd (omega (arith, z, jx, h, p.lphp, p.hpj))))
                (p.up x jx xl);
        }

    pub outer_below : i < lp → compare (a i) (a lp) ≡ below → Parts v s l (i + 1) j lp hp a
    outer_below h e = record {
      si = omega (arith, p.si);
      ilp = omega (arith, h);
      lphp = p.lphp;
      hpj = p.hpj;
      jl = p.jl;
      low = λ x sx xi. elim (Bool-cases (i == x)) [
        | inl c ↦
            let c' : i ≡ x = ground (arith, c) in
            subst (λ y. Leq (a y) v) c'
              (O.trans (a i) (a lp) v (ap not_above e) (p.mid lp (omega arith) p.lphp).0)
        | inr c ↦ p.low x sx (ground (arith, c, xi))
      ];
      mid = p.mid;
      up = p.up;
    }

    -- What the loop knows when it leaves a[i] where it is.
    pub outer_above : compare (a i) (a lp) ≡ above → Leq v (a i)
    outer_above e =
        O.trans v (a lp) (a i) (p.mid lp (omega arith) p.lphp).1 (O.flip_above (a i) (a lp) e)
