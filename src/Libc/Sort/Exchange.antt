-- ===== src/Libc/Sort/Exchange.antt =====
-- The routines that exchange elements permute a part of the array.
use unix_v7_c.Base.{
  ℕ, ◌≤◌, ◌<◌, ◌≡◌, ◌≢◌, refl, ap, sym, ◌∙◌, true, false, ◌⊎◌, inl, inr, arith, ltb, ◌==◌,
  if◌then◌else◌, Bool-cases, subst,
}
use unix_v7_c.Libc.Sort.{qsexc, qstexc}

-- The array b holds the elements of a from s up to l in another order, and the others as in a.
pub record Permuted {E : Type 0} (s l : ℕ) (a b : ℕ → E) : Type 0 where
  pub to : ℕ → ℕ
  pub from : ℕ → ℕ
  pub moved : (x : ℕ) → b x ≡ a (to x)
  pub back : (x : ℕ) → from (to x) ≡ x
  pub forth : (x : ℕ) → to (from x) ≡ x
  pub inside : (x : ℕ) → s ≤ x → x < l → (s ≤ to x) × (to x < l)
  pub outside : (x : ℕ) → (x < s) ⊎ (l ≤ x) → to x ≡ x

module _ {E : Type 0} where
  pub unmoved : (s l : ℕ) (a : ℕ → E) → Permuted s l a a
  unmoved s l a = record {
    to = λ x. x;
    from = λ x. x;
    moved = λ x. refl;
    back = λ x. refl;
    forth = λ x. refl;
    inside = λ x p q. (p, q);
    outside = λ x h. refl;
  }

  pub Permuted-trans :
      (s l : ℕ) (a b c : ℕ → E) → Permuted s l a b → Permuted s l b c → Permuted s l a c
  Permuted-trans s l a b c p q = record {
    to = λ x. p.to (q.to x);
    from = λ x. q.from (p.from x);
    moved = λ x. q.moved x ∙ p.moved (q.to x);
    back = λ x. ap q.from (p.back (q.to x)) ∙ q.back x;
    forth = λ x. ap p.to (q.forth (p.from x)) ∙ p.forth x;
    inside = λ x g h. p.inside (q.to x) (q.inside x g h).0 (q.inside x g h).1;
    outside = λ x h. ap p.to (q.outside x h) ∙ p.outside x h;
  }

  -- A part of a part.
  pub Permuted-widen :
      (s l s' l' : ℕ) (a b : ℕ → E) → s' ≤ s → l ≤ l' → Permuted s l a b → Permuted s' l' a b
  Permuted-widen s l s' l' a b hs hl p = record {
    to = p.to;
    from = p.from;
    moved = p.moved;
    back = p.back;
    forth = p.forth;
    inside = λ x g h. elim (Bool-cases (ltb x s)) [
      | inl e ↦
          let o = p.outside x (inl (ground (arith, e))) in
          (omega (arith, o, g), omega (arith, o, h))
      | inr e ↦ elim (Bool-cases (ltb x l)) [
        | inl f ↦
            let (u, v) = p.inside x (ground (arith, e)) (ground (arith, f)) in
            (omega (arith, u, hs), omega (arith, v, hl))
        | inr f ↦
            let o = p.outside x (inr (ground (arith, f))) in
            (omega (arith, o, g), omega (arith, o, h))
      ]
    ];
    outside = λ x h. p.outside x (wider x h);
  }
    where
      wider : (x : ℕ) → (x < s') ⊎ (l' ≤ x) → (x < s) ⊎ (l ≤ x)
      wider x (inl g) = inl (omega (arith, g, hs))
      wider x (inr g) = inr (omega (arith, g, hl))

  module _ (a : ℕ → E) (i j : ℕ) where
    pub qsexc-right : qsexc a i j j ≡ a i
    qsexc-right = let e : (j == j) ≡ true = ground arith in rw e refl

    pub qsexc-left : qsexc a i j i ≡ a j
    qsexc-left = elim (Bool-cases (j == i)) [
      | inl e ↦ rw e (ap a (ground (arith, e)))
      | inr e ↦ let f : (i == i) ≡ true = ground arith in rw (e, f) refl
    ]

    pub qsexc-else : (x : ℕ) → x ≢ i → x ≢ j → qsexc a i j x ≡ a x
    qsexc-else x ni nj =
        let e : (j == x) ≡ false = ground (arith, nj) in
        let f : (i == x) ≡ false = ground (arith, ni) in rw (e, f) refl

    abbrev other : ℕ → ℕ
    other x = if j == x then i else if i == x then j else x

    qsexc-other : (x : ℕ) → qsexc a i j x ≡ a (other x)
    qsexc-other x = elim (Bool-cases (j == x)) [
      | inl e ↦ rw e refl
      | inr e ↦ elim (Bool-cases (i == x)) [ inl f ↦ rw (e, f) refl | inr f ↦ rw (e, f) refl ]
    ]

    other_twice : (x : ℕ) → other (other x) ≡ x
    other_twice x = ground arith

    pub qsexc-Permuted : (s l : ℕ) → s ≤ i → i < l → s ≤ j → j < l → Permuted s l a (qsexc a i j)
    qsexc-Permuted s l si il sj jl = record {
      to = other;
      from = other;
      moved = qsexc-other;
      back = other_twice;
      forth = other_twice;
      inside = λ x p q. (ground (arith, p, si, sj), ground (arith, q, il, jl));
      outside = λ x h. ground (arith, h, si, il, sj, jl);
    }

-- The first of three gets the third, the third the second, and the second the first.
module _ {E : Type 0} (a : ℕ → E) (i j k : ℕ) (ij : i ≢ j) (ik : i ≢ k) where
  pub qstexc-second : qstexc a i j k j ≡ a i
  qstexc-second = let e : (j == j) ≡ true = ground arith in rw e refl

  pub qstexc-first : qstexc a i j k i ≡ a k
  qstexc-first =
      let e : (j == i) ≡ false = ground (arith, ij) in
      let f : (k == i) ≡ false = ground (arith, ik) in
      let g : (i == i) ≡ true = ground arith in rw (e, f, g) refl

  pub qstexc-third : k ≢ j → qstexc a i j k k ≡ a j
  qstexc-third kj =
      let e : (j == k) ≡ false = ground (arith, kj) in
      let f : (k == k) ≡ true = ground arith in
      let g : (i == j) ≡ false = ground (arith, ij) in rw (e, f, g) refl

  pub qstexc-else : (x : ℕ) → x ≢ i → x ≢ j → x ≢ k → qstexc a i j k x ≡ a x
  qstexc-else x ni nj nk =
      let e : (j == x) ≡ false = ground (arith, nj) in
      let f : (k == x) ≡ false = ground (arith, nk) in
      let g : (i == x) ≡ false = ground (arith, ni) in rw (e, f, g) refl

  -- It is two exchanges.
  twice : (x : ℕ) → qsexc (qsexc a i k) k j x ≡ qstexc a i j k x
  twice x = elim (Bool-cases (x == j)) [
    | inl e ↦
        let e' : j ≡ x = ground (arith, e) in
        subst (λ y. qsexc (qsexc a i k) k j y ≡ qstexc a i j k y) e'
          (qsexc-right (qsexc a i k) k j ∙ (qsexc-right a i k ∙ sym qstexc-second))
    | inr e ↦ elim (Bool-cases (x == k)) [
      | inl f ↦
          let f' : k ≡ x = ground (arith, f) in
          let kj : k ≢ j = ground (arith, e, f) in
          subst (λ y. qsexc (qsexc a i k) k j y ≡ qstexc a i j k y) f'
            (qsexc-left (qsexc a i k) k j
              ∙ (qsexc-else a i k j (λ z. ij (sym z)) (λ z. kj (sym z)) ∙ sym (qstexc-third kj)))
      | inr f ↦
          let out = qsexc-else (qsexc a i k) k j x (ground (arith, f)) (ground (arith, e)) in
          elim (Bool-cases (x == i)) [
            | inl g ↦
                let g' : i ≡ x = ground (arith, g) in
                out
                ∙ subst (λ y. qsexc a i k y ≡ qstexc a i j k y) g'
                    (qsexc-left a i k ∙ sym qstexc-first)
            | inr g ↦
                out
                ∙ (qsexc-else a i k x (ground (arith, g)) (ground (arith, f))
                    ∙ sym
                        (qstexc-else x (ground (arith, g)) (ground (arith, e)) (ground (arith, f))))
          ]
    ]
  ]

  pub qstexc-Permuted :
      (s l : ℕ) → s ≤ i → i < l → s ≤ j → j < l → s ≤ k → k < l → Permuted s l a (qstexc a i j k)
  qstexc-Permuted s l si il sj jl sk kl =
      let p =
        Permuted-trans s l a (qsexc a i k) (qsexc (qsexc a i k) k j)
          (qsexc-Permuted a i k s l si il sk kl)
          (qsexc-Permuted (qsexc a i k) k j s l sk kl sj jl) in
      record {
        to = p.to;
        from = p.from;
        moved = λ x. sym (twice x) ∙ p.moved x;
        back = p.back;
        forth = p.forth;
        inside = p.inside;
        outside = p.outside;
      }
