-- ===== src/Libc/Sort/Whole.antt =====
-- `qsort` sorts.
use unix_v7_c.Base.{
  ℕ, zero, suc, ◌+◌, ◌-◌, ◌*◌, ◌/◌, ◌≤◌, ◌<◌, ◌≡◌, refl, ap, sym, ◌∙◌, true, false, inl, inr, arith,
  Option, some, ◌>>=◌, leb, Bool-cases, subst,
}
use unix_v7_c.Libc.Sort.{Sign, part, qs1, qsort}
use unix_v7_c.Libc.Sort.Exchange.{Permuted, unmoved, Permuted-trans, Permuted-widen}
use unix_v7_c.Libc.Sort.Steps.{Preorder, Leq}
use unix_v7_c.Libc.Sort.Partition.{Split, part-Split}
use unix_v7_c.Libc.Sort.Sorted.{IsSorted, right_left, left_right}

module _ {E : Type 0} (compare : E → E → Sign) where
  -- The array b is that part of a in order.
  abbrev pub Sorts : (s l : ℕ) → (ℕ → E) → Option (ℕ → E) → Type 0
  Sorts s l a o = (b : ℕ → E) × (o ≡ some b) × Permuted s l a b × IsSorted compare s l b

  qs1_short : (n s l : ℕ) (a : ℕ → E) → leb (l - s) 1 ≡ true → qs1 compare (suc n) s l a ≡ some a
  unfolding qs1
  qs1_short n s l a h = rw (qs1, h) refl

  module _ (n s l lp hp : ℕ) (a b : ℕ → E) (long : leb (l - s) 1 ≡ false)
      (found : part compare (2 * (l - s) + 2) true s (l - 1) (s + (l - s) / 2) (s + (l - s) / 2) a
        ≡ some (lp, hp, b)) where
    qs1_right_left :
        leb (l - hp) (lp - s) ≡ true
        → qs1 compare (suc n) s l a ≡ (qs1 compare n (hp + 1) l b >>= (λ c. qs1 compare n s lp c))
    unfolding qs1
    qs1_right_left h = rw (qs1, long, found, h) refl

    qs1_left_right :
        leb (l - hp) (lp - s) ≡ false
        → qs1 compare (suc n) s l a ≡ (qs1 compare n s lp b >>= (λ c. qs1 compare n (hp + 1) l c))
    unfolding qs1
    qs1_left_right h = rw (qs1, long, found, h) refl

  then_some :
      (o : Option (ℕ → E)) (f : (ℕ → E) → Option (ℕ → E)) (c d : ℕ → E)
      → o ≡ some c
      → f c ≡ some d
      → (o >>= f) ≡ some d
  then_some o f c d e g = ap (λ p. p >>= f) e ∙ g

  module _ (O : Preorder compare) where
    first_split :
        (s l : ℕ) (a : ℕ → E)
        → leb (l - s) 1 ≡ false
        → Split compare O
            (a (s + (l - s) / 2))
            s
            l
            a
            (part compare (2 * (l - s) + 2) true s (l - 1) (s + (l - s) / 2) (s + (l - s) / 2) a)
    first_split s l a long =
        let more : 2 ≤ l - s = ground (arith, long) in
        let mid = s + (l - s) / 2 in
        part-Split compare O (a mid) s l (2 * (l - s) + 2) true s (l - 1) mid mid a
          (record {
            si = omega arith;
            ilp = omega arith;
            lphp = omega arith;
            hpj = omega (arith, more);
            jl = omega (arith, more);
            low = λ x g h. absurd (omega (arith, g, h));
            mid = λ x g h.
                let e : x ≡ mid = omega (arith, g, h) in
                subst (λ y. Leq compare (a y) (a mid) × Leq compare (a mid) (a y)) (sym e)
                  (O.same (a mid), O.same (a mid));
            up = λ x g h. absurd (omega (arith, g, h));
          })
          (λ z. absurd (ground (arith, z))) (omega (arith, more))

    qs1-Sorts : (n s l : ℕ) (a : ℕ → E) → l - s < n → Sorts s l a (qs1 compare n s l a)
    qs1-Sorts zero s l a h = absurd (omega (arith, h))
    qs1-Sorts (suc n) s l a h = elim (Bool-cases (leb (l - s) 1)) [
      | inl t ↦ (
        a,
        qs1_short n s l a t,
        unmoved s l a,
        λ x y g k m.
            let e : x ≡ y = ground (arith, t, g, k, m) in
            subst (λ z. Leq compare (a x) (a z)) e (O.same (a x)),
      )
      | inr t ↦
          let (lp, hp, b, found, perm, parts) = first_split s l a t in
          elim (Bool-cases (leb (l - hp) (lp - s))) [
            | inl u ↦
                let (c, e, p, sorted) =
                  qs1-Sorts n (hp + 1) l b (omega (arith, h, parts.si, parts.lphp, parts.jl)) in
                let (d, e', p', sorted') =
                  qs1-Sorts n s lp c (omega (arith, h, parts.si, parts.lphp, parts.jl)) in
                (
                  d,
                  qs1_right_left n s l lp hp a b t found u ∙ then_some _ _ c d e e',
                  Permuted-trans s l a b d perm (
                      Permuted-trans s l b c d
                        (Permuted-widen (hp + 1) l s l b c (omega (arith, parts.si, parts.lphp))
                          (omega arith) p)
                        (Permuted-widen s lp s l c d (omega arith)
                          (omega (arith, parts.lphp, parts.jl)) p')),
                  right_left compare O (a (s + (l - s) / 2)) s l lp hp b parts c d p sorted p'
                      sorted',
                )
            | inr u ↦
                let (c, e, p, sorted) =
                  qs1-Sorts n s lp b (omega (arith, h, parts.si, parts.lphp, parts.jl)) in
                let (d, e', p', sorted') =
                  qs1-Sorts n (hp + 1) l c (omega (arith, h, parts.si, parts.lphp, parts.jl)) in
                (
                  d,
                  qs1_left_right n s l lp hp a b t found u ∙ then_some _ _ c d e e',
                  Permuted-trans s l a b d perm (
                      Permuted-trans s l b c d
                        (Permuted-widen s lp s l b c (omega arith)
                          (omega (arith, parts.lphp, parts.jl)) p)
                        (Permuted-widen (hp + 1) l s l c d (omega (arith, parts.si, parts.lphp))
                          (omega arith) p')),
                  left_right compare O (a (s + (l - s) / 2)) s l lp hp b parts c d p sorted p'
                      sorted',
                )
          ]
    ]

    -- If the caller's routine compares as a total preorder does, `qsort` of n elements ends, with the
    -- same elements in ascending order, and touches none behind them.
    pub qsort-Sorts : (a : ℕ → E) (n : ℕ) → Sorts 0 n a (qsort compare a n)
    unfolding qsort
    qsort-Sorts a n = qs1-Sorts (suc n) 0 n a (omega arith)
