-- ===== src/Rotor/Machine.antt =====
-- The machine run twice with one key gives the text back.
use unix_v7_c.Base.{
  ℕ, zero, suc, ◌+◌, ◌-◌, ◌%◌, ◌<◌, ◌≡◌, refl, ap, sym, ◌∙◌, inl, List, [], ◌∷◌, some, arith,
  get_or, replicate,
}
use unix_v7_c.Rotor.{
  Rotors, key_seed, count_up, invert, setup, turn, crypt, rotorsz, next_n1, next_n2,
}
use unix_v7_c.Rotor.Pairs.{Pairing}
use unix_v7_c.Rotor.Shuffle.{Permutes, count_up-Permutes, rounds-Permutes, invert-again}

-- t1 and t2 are inverse to each other, and t3 to itself.
pub record Reciprocal (r : Rotors) : Type 0 where
  pub into1 : (x : ℕ) → x < rotorsz → get_or r.t1 x 0 < rotorsz
  pub into2 : (x : ℕ) → x < rotorsz → get_or r.t2 x 0 < rotorsz
  pub into3 : (x : ℕ) → get_or r.t3 x 0 < rotorsz
  pub forward : (x : ℕ) → x < rotorsz → get_or r.t2 (get_or r.t1 x 0) 0 ≡ x
  pub backward : (y : ℕ) → y < rotorsz → get_or r.t1 (get_or r.t2 y 0) 0 ≡ y
  pub twice : (x : ℕ) → x < rotorsz → get_or r.t3 (get_or r.t3 x 0) 0 ≡ x

no_pairs : Pairing rotorsz (replicate rotorsz 0)
no_pairs = record {
  size = refl;
  bounded = λ x. omega (arith, blank rotorsz x);
  done = λ x ge lt. absurd (omega (arith, ge, lt));
  below = λ x lt. inl (blank rotorsz x);
  half = 128;
  even = refl;
}
  where
    blank : (n x : ℕ) → ◌≡◌ {A = ℕ} (get_or (replicate n 0) x 0) 0
    blank zero x = refl
    blank (suc n) zero = refl
    blank (suc n) (suc x) = blank n x

built :
    (t1 t3 : List ℕ)
    → Permutes t1
    → Pairing 0 t3
    → Reciprocal (record { t1 = t1; t2 = invert rotorsz 0 t1 (replicate rotorsz 0); t3 = t3 })
built t1 t3 p q = record {
  into1 = p.into;
  into2 = λ y h. omega (arith, at y h, p.inside y h);
  into3 = q.bounded;
  forward = again;
  backward = λ y h. ap (λ i. get_or t1 i 0) (at y h) ∙ p.there y h;
  twice = λ x h. q.done x (omega arith) h;
}
  where
    again :
        (x : ℕ)
        → x < rotorsz
        → get_or (invert rotorsz 0 t1 (replicate rotorsz 0)) (get_or t1 x 0) 0 ≡ x
    again x h = invert-again t1 p rotorsz 0 (replicate rotorsz 0) refl refl x h (inl (omega arith))

    at : (y : ℕ) → y < rotorsz → get_or (invert rotorsz 0 t1 (replicate rotorsz 0)) y 0 ≡ p.back y
    at y h =
        ap (λ v. get_or (invert rotorsz 0 t1 (replicate rotorsz 0)) v 0) (sym (p.there y h))
        ∙ again (p.back y) (p.inside y h)

-- `setup` ends whatever the 13 characters are: it neither divides by 0 nor searches for ever. Then
-- t1 and t2 are inverse to each other, and t3 to itself.
pub setup-Reciprocal : (buf : List ℕ) → (r : Rotors) × (setup buf ≡ some r) × Reciprocal r
unfolding setup
setup-Reciprocal buf =
    let (t1, t3, e, p, q) =
      rounds-Permutes rotorsz (key_seed 123 0 buf) buf (count_up rotorsz 0) (replicate rotorsz 0)
        (omega arith) count_up-Permutes no_pairs in
    (
      record { t1 = t1; t2 = invert rotorsz 0 t1 (replicate rotorsz 0); t3 = t3 },
      rw e refl,
      built t1 t3 p q,
    )

-- Each character of a text is a byte.
abbrev pub Bytes : List ℕ → Type 0
Bytes [] = Unit {0}
Bytes (i ∷ text) = (i < 256) × Bytes text

module _ (r : Rotors) (g : Reciprocal r) where
  -- Adding n and taking it off again, on a ring of 256.
  off_on : (x n : ℕ) → x < 256 → n < 256 → ((x + 256 - n) % 256 + n) % 256 ≡ x
  off_on x n h hn = omega arith

  on_off : (x n : ℕ) → x < 256 → n < 256 → ((x + n) % 256 + 256 - n) % 256 ≡ x
  on_off x n h hn = omega arith

  turn-turn :
      (n1 n2 i : ℕ)
      → n1 < 256
      → n2 < 256
      → i < 256
      → (turn r n1 n2 (turn r n1 n2 i) ≡ i) × (turn r n1 n2 i < 256)
  unfolding turn
  turn-turn n1 n2 i h1 h2 hi =
      let x = (i + n1) % 256 in
      let x_lt : x < 256 = omega arith in
      let a = get_or r.t1 x 0 in
      let a_lt : a < 256 = g.into1 x x_lt in
      let y = (a + n2) % 256 in
      let y_lt : y < 256 = omega arith in
      let b = get_or r.t3 y 0 in
      let b_lt : b < 256 = g.into3 y in
      let w = (b + 256 - n2) % 256 in
      let w_lt : w < 256 = omega arith in
      let c = get_or r.t2 w 0 in
      let c_lt : c < 256 = g.into2 w w_lt in
      (
        rw
            (
              off_on c n1 c_lt h1,
              g.backward w w_lt,
              off_on b n2 b_lt h2,
              g.twice y y_lt,
              on_off a n2 a_lt h2,
              g.forward x x_lt,
              on_off i n1 hi h1,
            )
            refl,
        omega arith,
      )

  crypt-twice :
      (n1 n2 : ℕ) (text : List ℕ)
      → n1 < 256
      → n2 < 256
      → Bytes text
      → crypt r n1 n2 (crypt r n1 n2 text) ≡ text
  unfolding crypt
  crypt-twice n1 n2 [] h1 h2 ok = refl
  crypt-twice n1 n2 (i ∷ text) h1 h2 ok = rw ((turn-turn n1 n2 i h1 h2 ok.0).0) (
      ap (◌∷◌ i) (
        crypt-twice (next_n1 n1) (next_n2 n1 n2) text (ground (arith, h1)) (ground (arith, h2))
          ok.1))

-- With any key, `setup` gives rotors with which the loop of `main` turns what it has written for a
-- text back into the text.
pub crypt-crypt :
    (buf text : List ℕ)
    → Bytes text
    → (r : Rotors) × (setup buf ≡ some r) × (crypt r 0 0 (crypt r 0 0 text) ≡ text)
crypt-crypt buf text ok =
    let (r, e, g) = setup-Reciprocal buf in
    (r, e, crypt-twice r g 0 0 text (omega arith) (omega arith) ok)
