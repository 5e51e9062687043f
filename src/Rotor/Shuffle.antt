-- ===== src/Rotor/Shuffle.antt =====
-- `setup` shuffles t1, and t2 is its inverse.
use unix_v7_c.Base.{
  ℕ, zero, suc, ◌+◌, ◌-◌, ◌%◌, ◌≤◌, ◌<◌, ◌≡◌, ◌≢◌, refl, ap, sym, ◌∙◌, true, ◌⊎◌, inl, inr, List,
  some, arith, ◌==◌, if◌then◌else◌, length, get_or, set, Bool-cases, get_or-set_self, get_or-set_ne,
  length-set,
}
use native.Mathlib.Nat.{mod-lt}
use unix_v7_c.Rotor.{exchange, reflect, rounds, next_seed, random, invert, count_up, rotorsz}
use unix_v7_c.Rotor.Pairs.{Pairing, reflect-Pairing}
use unix_v7_c.Base.{subst}

-- The table takes each number below 256 once; `back` is where.
pub record Permutes (t : List ℕ) : Type 0 where
  pub size : length t ≡ rotorsz
  pub into : (x : ℕ) → x < rotorsz → get_or t x 0 < rotorsz
  pub back : ℕ → ℕ
  pub inside : (y : ℕ) → y < rotorsz → back y < rotorsz
  pub there : (y : ℕ) → y < rotorsz → get_or t (back y) 0 ≡ y
  pub again : (x : ℕ) → x < rotorsz → back (get_or t x 0) ≡ x

abbrev swapped : ℕ → ℕ → ℕ → ℕ
swapped k ic x = if ic == x then k else if k == x then ic else x

module _ (t : List ℕ) (k ic : ℕ) (hk : k < rotorsz) (hic : ic < rotorsz) (p : Permutes t) where
  swapped_lt : (x : ℕ) → x < rotorsz → swapped k ic x < rotorsz
  swapped_lt x h = ground (arith, h, hk, hic)

  swapped_twice : (x : ℕ) → swapped k ic (swapped k ic x) ≡ x
  swapped_twice x = ground arith

  get_or-exchange : (x : ℕ) → get_or (exchange t k ic) x 0 ≡ get_or t (swapped k ic x) 0
  get_or-exchange x = elim (Bool-cases (ic == x)) [
    | inl e ↦
        let e' : x ≡ ic = ground (arith, e) in
        let at : (ic == ic) ≡ true = ground arith in
        rw (e', at)
          (get_or-set_self (set t k (get_or t ic 0)) ic (get_or t k 0) 0
            (omega (arith, length-set t k (get_or t ic 0), p.size, hic)))
    | inr e ↦
        let first =
          get_or-set_ne (set t k (get_or t ic 0)) ic x (get_or t k 0) 0 (ground (arith, e)) in
        elim (Bool-cases (k == x)) [
          | inl f ↦
              let f' : k ≡ x = ground (arith, f) in
              rw (e, f)
                (first
                  ∙ subst (λ y. get_or (set t k (get_or t ic 0)) y 0 ≡ get_or t ic 0) f'
                      (get_or-set_self t k (get_or t ic 0) 0 (omega (arith, p.size, hk))))
          | inr f ↦ rw (e, f) (first ∙ get_or-set_ne t k x (get_or t ic 0) 0 (ground (arith, f)))
        ]
  ]

  exchange-Permutes : Permutes (exchange t k ic)
  exchange-Permutes = record {
    size =
        length-set (set t k (get_or t ic 0)) ic (get_or t k 0)
        ∙ (length-set t k (get_or t ic 0) ∙ p.size);
    into = λ x h. rw (get_or-exchange x) (p.into (swapped k ic x) (swapped_lt x h));
    back = λ y. swapped k ic (p.back y);
    inside = λ y h. swapped_lt (p.back y) (p.inside y h);
    there = λ y h.
        get_or-exchange (swapped k ic (p.back y))
        ∙ (ap (λ i. get_or t i 0) (swapped_twice (p.back y)) ∙ p.there y h);
    again = λ x h.
        ap (λ v. swapped k ic (p.back v)) (get_or-exchange x)
        ∙ (ap (swapped k ic) (p.again (swapped k ic x) (swapped_lt x h)) ∙ swapped_twice x);
  }

get_or-count_up : (n i x : ℕ) → x < n → get_or (count_up n i) x 0 ≡ i + x
unfolding count_up
get_or-count_up zero i x h = absurd (omega (arith, h))
get_or-count_up (suc n) i zero h = omega arith
get_or-count_up (suc n) i (suc x) h = omega (arith, get_or-count_up n (suc i) x (omega (arith, h)))

length-count_up : (n i : ℕ) → length (count_up n i) ≡ n
unfolding count_up
length-count_up zero i = refl
length-count_up (suc n) i = ap suc (length-count_up n (suc i))

pub count_up-Permutes : Permutes (count_up rotorsz 0)
count_up-Permutes = record {
  size = length-count_up rotorsz 0;
  into = λ x h. omega (arith, get_or-count_up rotorsz 0 x h, h);
  back = λ y. y;
  inside = λ y h. h;
  there = λ y h. omega (arith, get_or-count_up rotorsz 0 y h);
  again = λ x h. omega (arith, get_or-count_up rotorsz 0 x h);
}

rounds_next :
    (k seed : ℕ) (buf t1 t3 t3' : List ℕ)
    → reflect k (random (next_seed buf (rotorsz - 1 - k) seed)) t3 ≡ some t3'
    → rounds (suc k) buf seed t1 t3
      ≡ rounds k buf
          (next_seed buf (rotorsz - 1 - k) seed)
          (exchange t1 k (random (next_seed buf (rotorsz - 1 - k) seed) % 256 % (k + 1)))
          t3'
unfolding rounds
rounds_next k seed buf t1 t3 t3' e = rw e refl

-- The rounds of `setup` run to their end, whatever the characters of the key are.
pub rounds-Permutes :
    (m seed : ℕ) (buf t1 t3 : List ℕ)
    → m ≤ rotorsz
    → Permutes t1
    → Pairing m t3
    → (t1' : List ℕ) × (t3' : List ℕ) × (rounds m buf seed t1 t3 ≡ some (t1', t3'))
      × Permutes t1'
      × Pairing 0 t3'
unfolding rounds
rounds-Permutes zero seed buf t1 t3 h p q = (t1, t3, refl, p, q)
rounds-Permutes (suc k) seed buf t1 t3 h p q =
    let number = random (next_seed buf (rotorsz - 1 - k) seed) in
    let (t, e, q') = reflect-Pairing k number t3 (omega (arith, h)) q in
    let ic = number % 256 % (k + 1) in
    let small : ic < k + 1 = mod-lt (number % 256) (omega arith) in
    let p' = exchange-Permutes t1 k ic (omega (arith, h)) (omega (arith, h, small)) p in
    let (t1', t3', e', shuffled, paired) =
      rounds-Permutes k (next_seed buf (rotorsz - 1 - k) seed) buf (exchange t1 k ic) t
        (omega (arith, h)) p' q' in
    (t1', t3', rounds_next k seed buf t1 t3 t e ∙ e', shuffled, paired)

module _ (t1 : List ℕ) (p : Permutes t1) where
  different : (x y : ℕ) → x < rotorsz → y < rotorsz → x ≢ y → get_or t1 x 0 ≢ get_or t1 y 0
  different x y hx hy ne e = ne (sym (p.again x hx) ∙ (ap p.back e ∙ p.again y hy))

  pub invert-again :
      (n i : ℕ) (t2 : List ℕ)
      → i + n ≡ rotorsz
      → length t2 ≡ rotorsz
      → (x : ℕ) → x < rotorsz
      → (i ≤ x) ⊎ (get_or t2 (get_or t1 x 0) 0 ≡ x)
      → get_or (invert n i t1 t2) (get_or t1 x 0) 0 ≡ x
  unfolding invert
  invert-again zero i t2 e size x h (inl ge) = absurd (omega (arith, e, h, ge))
  invert-again zero i t2 e size x h (inr found) = found
  invert-again (suc n) i t2 e size x h before =
      invert-again n (suc i) (set t2 (get_or t1 i 0) i) (omega (arith, e))
        (length-set t2 (get_or t1 i 0) i ∙ size) x h
        (elim (Bool-cases (i == x)) [
          | inl f ↦
              let f' : i ≡ x = ground (arith, f) in
              inr (
                subst (λ y. get_or (set t2 (get_or t1 i 0) i) (get_or t1 y 0) 0 ≡ y) f'
                  (get_or-set_self t2 (get_or t1 i 0) i 0
                    (omega (arith, size, p.into i (omega (arith, e))))))
          | inr f ↦ go (ground (arith, f)) before
        ])
    where
      go :
          i ≢ x
          → (i ≤ x) ⊎ (get_or t2 (get_or t1 x 0) 0 ≡ x)
          → (suc i ≤ x) ⊎ (get_or (set t2 (get_or t1 i 0) i) (get_or t1 x 0) 0 ≡ x)
      go ne (inl ge) = inl (ground (arith, ge, ne))
      go ne (inr found) = inr (
          get_or-set_ne t2 (get_or t1 i 0) (get_or t1 x 0) i 0
            (different i x (omega (arith, e)) h ne)
          ∙ found)
