-- ===== src/Libc/Sort/Sorted.antt =====
-- Three parts, the outer ones sorted, are sorted.
use unix_v7_c.Base.{
  ℕ, ◌+◌, ◌≤◌, ◌<◌, ◌≡◌, ap, sym, ◌∙◌, ◌⊎◌, inl, inr, arith, ltb, leb, Bool-cases, subst,
}
use unix_v7_c.Libc.Sort.{Sign}
use unix_v7_c.Libc.Sort.Exchange.{Permuted}
use unix_v7_c.Libc.Sort.Steps.{Preorder, Parts, Leq}

module _ {E : Type 0} (compare : E → E → Sign) where
  -- The elements from s up to l ascend.
  abbrev pub IsSorted : (s l : ℕ) → (ℕ → E) → Type 0
  IsSorted s l a = (x y : ℕ) → s ≤ x → x ≤ y → y < l → Leq compare (a x) (a y)

  same_outside :
      (s l : ℕ) (a b : ℕ → E) → Permuted s l a b → (x : ℕ) → (x < s) ⊎ (l ≤ x) → b x ≡ a x
  same_outside s l a b p x h = p.moved x ∙ ap a (p.outside x h)

  module _ (O : Preorder compare) (v : E) (s l lp hp : ℕ) (b : ℕ → E)
      (p : Parts compare v s l lp hp lp hp b) where
    -- The parts of d hold what those of b do, and the outer ones are sorted.
    joined :
        (d : ℕ → E)
        → IsSorted s lp d
        → IsSorted (hp + 1) l d
        → ((x : ℕ) → s ≤ x → x < lp → Leq compare (d x) v)
        → ((x : ℕ) → lp ≤ x → x ≤ hp → d x ≡ b x)
        → ((x : ℕ) → hp < x → x < l → Leq compare v (d x))
        → IsSorted s l d
    joined d left right low mid up x y sx xy yl = elim (Bool-cases (ltb y lp)) [
      | inl e ↦ left x y sx xy (ground (arith, e))
      | inr e ↦ elim (Bool-cases (leb x hp)) [
        | inr f ↦ right x y (ground (arith, f)) xy yl
        | inl f ↦
            let below_v : Leq compare (d x) v = by_low x sx (ground (arith, f)) in
            O.trans (d x) v (d y) below_v (by_up y (ground (arith, e)) yl)
      ]
    ]
      where
        by_low : (x : ℕ) → s ≤ x → x ≤ hp → Leq compare (d x) v
        by_low x g h = elim (Bool-cases (ltb x lp)) [
          | inl e ↦ low x g (ground (arith, e))
          | inr e ↦
              let far : lp ≤ x = ground (arith, e) in
              subst (λ w. Leq compare w v) (sym (mid x far h)) (p.mid x far h).0
        ]

        by_up : (y : ℕ) → lp ≤ y → y < l → Leq compare v (d y)
        by_up y g h = elim (Bool-cases (leb y hp)) [
          | inl e ↦
              let near : y ≤ hp = ground (arith, e) in
              subst (λ w. Leq compare v w) (sym (mid y g near)) (p.mid y g near).1
          | inr e ↦ up y (ground (arith, e)) h
        ]

    -- First the right part was sorted, then the left one.
    pub right_left :
        (c d : ℕ → E)
        → Permuted (hp + 1) l b c
        → IsSorted (hp + 1) l c
        → Permuted s lp c d
        → IsSorted s lp d
        → IsSorted s l d
    right_left c d q sorted q' sorted' =
        joined d sorted'
          (λ x y g h k.
            subst (λ w. Leq compare w (d y)) (sym (from_c x (omega (arith, g, p.lphp))))
              (subst (λ w. Leq compare (c x) w) (sym (from_c y (omega (arith, g, h, p.lphp))))
                (sorted x y g h k)))
          (λ x g h.
            let (u, w) = q'.inside x g h in
            subst (λ z. Leq compare z v)
              (sym (
                q'.moved x
                ∙ same_outside (hp + 1) l b c q (q'.to x) (inl (omega (arith, w, p.lphp)))))
              (p.low (q'.to x) u w))
          (λ x g h. from_c x g ∙ same_outside (hp + 1) l b c q x (inl (omega (arith, h))))
          (λ x g h.
            let (u, w) = q.inside x (omega (arith, g)) h in
            subst (λ z. Leq compare v z) (sym (from_c x (omega (arith, g, p.lphp)) ∙ q.moved x))
              (p.up (q.to x) (omega (arith, u)) w))
      where
        from_c : (x : ℕ) → lp ≤ x → d x ≡ c x
        from_c x g = same_outside s lp c d q' x (inr g)

    -- First the left part was sorted, then the right one.
    pub left_right :
        (c d : ℕ → E)
        → Permuted s lp b c
        → IsSorted s lp c
        → Permuted (hp + 1) l c d
        → IsSorted (hp + 1) l d
        → IsSorted s l d
    left_right c d q sorted q' sorted' =
        joined d
          (λ x y g h k.
            subst (λ w. Leq compare w (d y)) (sym (from_c x (omega (arith, h, k, p.lphp))))
              (subst (λ w. Leq compare (c x) w) (sym (from_c y (omega (arith, k, p.lphp))))
                (sorted x y g h k)))
          sorted'
          (λ x g h.
            let (u, w) = q.inside x g h in
            subst (λ z. Leq compare z v) (sym (from_c x (omega (arith, h, p.lphp)) ∙ q.moved x))
              (p.low (q.to x) u w))
          (λ x g h. from_c x (omega (arith, h)) ∙ same_outside s lp b c q x (inr g))
          (λ x g h.
            let (u, w) = q'.inside x (omega (arith, g)) h in
            subst (λ z. Leq compare v z)
              (sym
                (q'.moved x ∙ same_outside s lp b c q (q'.to x) (inr (omega (arith, u, p.lphp)))))
              (p.up (q'.to x) (omega (arith, u)) w))
      where
        from_c : (x : ℕ) → x < hp + 1 → d x ≡ c x
        from_c x g = same_outside (hp + 1) l c d q' x (inl g)
