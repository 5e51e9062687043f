-- ===== src/Libc/Crypt/Feistel.antt =====
-- The rounds of the cipher, backwards, undo the rounds.
use unix_v7_c.Base.{
  ◌==◌, ◌&&◌, Bool, leb, arith, ℕ, suc, ◌≡◌, refl, ap, ◌∙◌, true, false, List, [], ◌∷◌, length,
}
use unix_v7_c.Libc.Crypt.{Bits, xor, mix, round, rounds, rounds_back}
use unix_v7_c.Libc.Crypt.{expand}
use unix_v7_c.Base.{Bool}
use unix_v7_c.Base.{leb}
use unix_v7_c.Base.{◌&&◌}

xor-xor : (xs ys : Bits) → xor (xor xs ys) ys ≡ xs
unfolding xor
xor-xor [] ys = refl
xor-xor (x ∷ xs) [] = refl
xor-xor (true ∷ xs) (true ∷ ys) = ap (◌∷◌ true) (xor-xor xs ys)
xor-xor (true ∷ xs) (false ∷ ys) = ap (◌∷◌ true) (xor-xor xs ys)
xor-xor (false ∷ xs) (true ∷ ys) = ap (◌∷◌ false) (xor-xor xs ys)
xor-xor (false ∷ xs) (false ∷ ys) = ap (◌∷◌ false) (xor-xor xs ys)

length-xor : (xs ys : Bits) → length (xor xs ys) ≡ length xs
unfolding xor
length-xor [] ys = refl
length-xor (x ∷ xs) [] = refl
length-xor (x ∷ xs) (y ∷ ys) = ap suc (length-xor xs ys)

abbrev pub swap : Bits × Bits → Bits × Bits
swap (l, r) = (r, l)

-- The entries count from 1 to n.
abbrev pub in_range : ℕ → List ℕ → Bool
in_range n [] = true
in_range n (i ∷ is) = (leb 1 i && leb i n) && in_range n is

-- A table without 0 reads only the right half.
expand_right :
    (table : List ℕ) (l l' r : Bits)
    → in_range 32 table ≡ true
    → expand table (l, r) ≡ expand table (l', r)
unfolding expand
expand_right [] l l' r h = refl
expand_right (e ∷ table) l l' r h =
    let right : (e == 0) ≡ false = ground (arith, h) in
    let rest = expand_right table l l' r (ground (arith, h)) in rw (right, rest) refl

mix_right :
    (table : List ℕ) (k l l' r : Bits)
    → in_range 32 table ≡ true
    → mix table (l, r) k ≡ mix table (l', r) k
unfolding mix
mix_right table k l l' r h = rw (expand_right table l l' r h) refl

round-round :
    (table : List ℕ) (k : Bits) (s : Bits × Bits)
    → in_range 32 table ≡ true
    → round table k (swap (round table k s)) ≡ swap s
unfolding round
round-round table k (l, r) h =
    let f = mix table (l, r) k in
    ap (λ g. (r, xor (xor l f) g)) (mix_right table k (xor l f) l r h)
    ∙ ap (λ x. (r, x)) (xor-xor l f)

pub rounds_back-rounds :
    (table : List ℕ) (ks : List Bits) (s : Bits × Bits)
    → in_range 32 table ≡ true
    → rounds_back table ks (swap (rounds table ks s)) ≡ swap s
unfolding rounds rounds_back
rounds_back-rounds table [] s h = refl
rounds_back-rounds table (k ∷ ks) s h =
    ap (round table k) (rounds_back-rounds table ks (round table k s) h) ∙ round-round table k s h

-- Both halves keep their length.
abbrev pub Halves : Bits × Bits → Type 0
Halves (l, r) = (length l ≡ 32) × (length r ≡ 32)

pub rounds-Halves :
    (table : List ℕ) (ks : List Bits) (s : Bits × Bits) → Halves s → Halves (rounds table ks s)
unfolding rounds round
rounds-Halves table [] s h = h
rounds-Halves table (k ∷ ks) (l, r) (hl, hr) =
    rounds-Halves table ks (r, xor l (mix table (l, r) k))
      (hr, length-xor l (mix table (l, r) k) ∙ hl)
