-- ===== src/Rotor/Pairs.antt =====
-- `setup` pairs the numbers up in t3, and its search ends.
use unix_v7_c.Base.{
  ℕ, zero, suc, ◌+◌, ◌-◌, ◌/◌, ◌%◌, ◌≤◌, ◌<◌, ◌≡◌, ◌≢◌, refl, ap, sym, ◌∙◌, true, false, ◌⊎◌, inl,
  inr, List, some, arith, ◌==◌, if◌then◌else◌, length, get_or, set, Bool-cases, get_or-set_self,
  get_or-set_ne, length-set,
}
use native.Mathlib.Nat.{mod-lt}
use unix_v7_c.Rotor.Search.{search_finds, distance_lt}
use unix_v7_c.Rotor.{search, pair_up, reflect, rotorsz}
use unix_v7_c.Base.{subst}

-- How many of the first m entries are 0.
abbrev pub zeros : ℕ → List ℕ → ℕ
zeros zero t = 0
zeros (suc m) t = (if get_or t m 0 == 0 then 1 else 0) + zeros m t

-- The rounds down to m have made pairs of the numbers from m on, and of some below m with these; an
-- even number is left.
pub record Pairing (m : ℕ) (t : List ℕ) : Type 0 where
  pub size : length t ≡ rotorsz
  pub bounded : (x : ℕ) → get_or t x 0 < rotorsz
  pub done : (x : ℕ) → m ≤ x → x < rotorsz → get_or t (get_or t x 0) 0 ≡ x
  pub below :
      (x : ℕ) → x < m → (get_or t x 0 ≡ 0) ⊎ ((m ≤ get_or t x 0) × (get_or t (get_or t x 0) 0 ≡ x))
  pub half : ℕ
  pub even : zeros m t ≡ half + half

zeros-set_above : (m : ℕ) (t : List ℕ) (k v : ℕ) → m ≤ k → zeros m (set t k v) ≡ zeros m t
zeros-set_above zero t k v h = refl
zeros-set_above (suc m) t k v h = rw (get_or-set_ne t k m v 0 (λ e. absurd (omega (arith, h, e)))) (
    ap (λ z. (if get_or t m 0 == 0 then 1 else 0) + z) (zeros-set_above m t k v (omega (arith, h))))

zeros-set :
    (m : ℕ) (t : List ℕ) (r v : ℕ)
    → r < m
    → r < length t
    → get_or t r 0 ≡ 0
    → v ≢ 0
    → zeros m t ≡ suc (zeros m (set t r v))
zeros-set zero t r v h inside z nz = absurd (omega (arith, h))
zeros-set (suc m) t r v h inside z nz = elim (Bool-cases (r == m)) [
  | inl e ↦
      let e' : m ≡ r = ground (arith, e) in
      let now : get_or (set t r v) r 0 ≡ v = get_or-set_self t r v 0 inside in
      let same : zeros r (set t r v) ≡ zeros r t = zeros-set_above r t r v (omega arith) in
      let nv : (v == 0) ≡ false = ground (arith, nz) in rw (e', now, z, same, nv) (omega arith)
  | inr e ↦
      let ne : r ≢ m = ground (arith, e) in
      let rest = zeros-set m t r v (ground (arith, h, e)) inside z nz in
      rw (get_or-set_ne t r m v 0 ne) (omega (arith, rest))
]

-- Among an odd number there is one.
zeros_find : (m : ℕ) (t : List ℕ) → 1 ≤ zeros m t → (j : ℕ) × (j < m) × (get_or t j 0 ≡ 0)
zeros_find zero t h = absurd (omega (arith, h))
zeros_find (suc m) t h = elim (Bool-cases (get_or t m 0 == 0)) [
  | inl e ↦ (m, omega arith, ground (arith, e))
  | inr e ↦ let (j, lt, z) = zeros_find m t (ground (arith, e, h)) in (j, omega (arith, lt), z)
]

module _ (k r : ℕ) (t : List ℕ) (h : k < rotorsz) (lt : r < k) (p : Pairing (suc k) t)
    (zk : get_or t k 0 ≡ 0) (zr : get_or t r 0 ≡ 0) where
  at_k : get_or (pair_up t k r) k 0 ≡ r
  at_k =
      get_or-set_ne (set t k r) r k k 0 (λ e. absurd (omega (arith, lt, e)))
      ∙ get_or-set_self t k r 0 (omega (arith, p.size, h))

  at_r : get_or (pair_up t k r) r 0 ≡ k
  at_r = get_or-set_self (set t k r) r k 0 (omega (arith, p.size, h, lt, length-set t k r))

  elsewhere : (x : ℕ) → k ≢ x → r ≢ x → get_or (pair_up t k r) x 0 ≡ get_or t x 0
  elsewhere x nk nr = get_or-set_ne (set t k r) r x k 0 nr ∙ get_or-set_ne t k x r 0 nk

  -- The number x, and its partner in t, are neither k nor r.
  kept :
      (x : ℕ)
      → k ≢ x
      → r ≢ x
      → get_or t (get_or t x 0) 0 ≡ x
      → x ≢ 0
      → get_or (pair_up t k r) (get_or (pair_up t k r) x 0) 0 ≡ x
  kept x nk nr back nz =
      let yk : k ≢ get_or t x 0 = λ e. nz (sym back ∙ (ap (λ i. get_or t i 0) (sym e) ∙ zk)) in
      let yr : r ≢ get_or t x 0 = λ e. nz (sym back ∙ (ap (λ i. get_or t i 0) (sym e) ∙ zr)) in
      rw (elsewhere x nk nr) (elsewhere (get_or t x 0) yk yr ∙ back)

  pair_up-Pairing : Pairing k (pair_up t k r)
  pair_up-Pairing = record {
    size = length-set (set t k r) r k ∙ (length-set t k r ∙ p.size);
    bounded = small;
    done = λ x ge l. elim (Bool-cases (k == x)) [
      | inl e ↦
          let e' : k ≡ x = ground (arith, e) in
          subst (λ y. get_or (pair_up t k r) (get_or (pair_up t k r) y 0) 0 ≡ y) e'
            (ap (λ y. get_or (pair_up t k r) y 0) at_k ∙ at_r)
      | inr e ↦
          kept x (ground (arith, e)) (λ f. absurd (omega (arith, f, lt, ge)))
            (p.done x (ground (arith, e, ge)) l) (λ f. absurd (omega (arith, f, lt, ge)))
    ];
    below = λ x l. elim (Bool-cases (r == x)) [
      | inl e ↦
          let e' : r ≡ x = ground (arith, e) in
          inr (
            subst
              (λ y.
                (k ≤ get_or (pair_up t k r) y 0)
                × (get_or (pair_up t k r) (get_or (pair_up t k r) y 0) 0 ≡ y))
              e' (omega (arith, at_r), ap (λ y. get_or (pair_up t k r) y 0) at_r ∙ at_k))
      | inr e ↦ lower x l (ground (arith, e)) (p.below x (omega (arith, l)))
    ];
    half = p.half - 1;
    even =
        let first : zeros (suc k) t ≡ suc (zeros k t) = ground (arith, zk) in
        let mid = zeros-set_above k t k r (omega arith) in
        let u_r : get_or (set t k r) r 0 ≡ 0 =
          get_or-set_ne t k r r 0 (λ e. absurd (omega (arith, e, lt))) ∙ zr in
        let last =
          zeros-set k (set t k r) r k lt (omega (arith, length-set t k r, p.size, h, lt)) u_r
            (λ e. absurd (omega (arith, e, lt))) in
        omega (arith, first, mid, last, p.even);
  }
    where
      small : (x : ℕ) → get_or (pair_up t k r) x 0 < rotorsz
      small x = elim (Bool-cases (k == x)) [
        | inl e ↦ let e' : x ≡ k = ground (arith, e) in rw e' (omega (arith, at_k, h, lt))
        | inr e ↦ elim (Bool-cases (r == x)) [
          | inl f ↦ let f' : x ≡ r = ground (arith, f) in rw f' (omega (arith, at_r, h))
          | inr f ↦ omega (arith, elsewhere x (ground (arith, e)) (ground (arith, f)), p.bounded x)
        ]
      ]

      lower :
          (x : ℕ)
          → x < k
          → r ≢ x
          → (get_or t x 0 ≡ 0) ⊎ ((suc k ≤ get_or t x 0) × (get_or t (get_or t x 0) 0 ≡ x))
          → (get_or (pair_up t k r) x 0 ≡ 0)
            ⊎ ((k ≤ get_or (pair_up t k r) x 0)
                × (get_or (pair_up t k r) (get_or (pair_up t k r) x 0) 0 ≡ x))
      lower x l nr (inl z) = inl (elsewhere x (λ e. absurd (omega (arith, e, l))) nr ∙ z)
      lower x l nr (inr (ge, back)) =
          let nk : k ≢ x = λ e. absurd (omega (arith, e, l)) in
          let yk : k ≢ get_or t x 0 = λ e. absurd (omega (arith, e, ge)) in
          let yr : r ≢ get_or t x 0 = λ e. absurd (omega (arith, e, ge, lt)) in
          let same = elsewhere x nk nr in
          inr (
            omega (arith, same, ge),
            ap (λ y. get_or (pair_up t k r) y 0) same ∙ (elsewhere (get_or t x 0) yk yr ∙ back),
          )

reflect_found :
    (k number r : ℕ) (t : List ℕ)
    → (get_or t k 0 == 0) ≡ true
    → (k == 0) ≡ false
    → search k t k (number / 256 % 256 % k) ≡ some r
    → reflect k number t ≡ some (pair_up t k r)
unfolding reflect
reflect_found k number r t z nk e = rw (z, nk, e) refl

-- What one round leaves.
pub reflect-Pairing :
    (k number : ℕ) (t : List ℕ)
    → k < rotorsz
    → Pairing (suc k) t
    → (t' : List ℕ) × (reflect k number t ≡ some t') × Pairing k t'
unfolding reflect
reflect-Pairing k number t h p = elim (Bool-cases (get_or t k 0 == 0)) [
  | inl z ↦
      let zk : get_or t k 0 ≡ 0 = ground (arith, z) in
      let some_left : 1 ≤ zeros k t = ground (arith, p.even, z) in
      let (j, lt, zj) = zeros_find k t some_left in
      let nk : (k == 0) ≡ false = ground (arith, lt) in
      let ic = number / 256 % 256 % k in
      let inside : ic < k = mod-lt (number / 256 % 256) (omega (arith, lt)) in
      let (r, e, lr, zr) = search_finds k t k ic j inside lt zj (distance_lt ic j k inside lt) in
      (pair_up t k r, reflect_found k number r t z nk e, pair_up-Pairing k r t h lr p zk zr)
  | inr z ↦ (t, rw z refl, skipped (ground (arith, z)))
]
  where
    skipped : get_or t k 0 ≢ 0 → Pairing k t
    skipped nz = record {
      size = p.size;
      bounded = p.bounded;
      done = λ x ge lt. elim (Bool-cases (k == x)) [
        | inl e ↦
            let e' : k ≡ x = ground (arith, e) in
            subst (λ y. get_or t (get_or t y 0) 0 ≡ y) e' (partner (p.below k (omega arith)))
        | inr e ↦ p.done x (ground (arith, e, ge)) lt
      ];
      below = λ x lt. lower x (p.below x (omega (arith, lt)));
      half = p.half;
      even = ground (arith, p.even, nz);
    }
      where
        partner :
            (get_or t k 0 ≡ 0) ⊎ ((suc k ≤ get_or t k 0) × (get_or t (get_or t k 0) 0 ≡ k))
            → get_or t (get_or t k 0) 0 ≡ k
        partner (inl e) = absurd (nz e)
        partner (inr (_, e)) = e

        lower :
            (x : ℕ)
            → (get_or t x 0 ≡ 0) ⊎ ((suc k ≤ get_or t x 0) × (get_or t (get_or t x 0) 0 ≡ x))
            → (get_or t x 0 ≡ 0) ⊎ ((k ≤ get_or t x 0) × (get_or t (get_or t x 0) 0 ≡ x))
        lower x (inl e) = inl e
        lower x (inr (ge, e)) = inr (omega (arith, ge), e)
