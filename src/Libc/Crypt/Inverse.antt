-- ===== src/Libc/Crypt/Inverse.antt =====
-- The final permutation is the inverse of the initial one, and `encrypt` decrypts.
use unix_v7_c.Base.{
  ℕ, zero, suc, ◌+◌, ◌-◌, ◌<◌, ◌≡◌, refl, sym, ap, ◌∙◌, Bool, true, false, List, [], ◌∷◌, ◌++◌,
  length, arith, get_or, take, drop, length-append,
}
use unix_v7_c.Libc.Crypt.{Bits, pick, rounds, rounds_back, encrypt}
use unix_v7_c.Libc.Crypt.Tables.{initial, final}
use unix_v7_c.Libc.Crypt.Feistel.{in_range, swap, rounds_back-rounds, Halves, rounds-Halves}

-- The table that picks as two tables do, one after the other.
abbrev compose : List ℕ → List ℕ → List ℕ
compose [] js = []
compose (i ∷ is) js = get_or js (i - 1) 0 ∷ compose is js

get_or-pick :
    (i : ℕ) (js : List ℕ) (xs : Bits)
    → i < length js
    → get_or (pick js xs) i false ≡ get_or xs (get_or js i 0 - 1) false
unfolding pick
get_or-pick i [] xs h = absurd (omega (arith, h))
get_or-pick zero (j ∷ js) xs h = refl
get_or-pick (suc i) (j ∷ js) xs h = get_or-pick i js xs (omega (arith, h))

pick-pick :
    (is js : List ℕ) (xs : Bits)
    → in_range (length js) is ≡ true
    → pick is (pick js xs) ≡ pick (compose is js) xs
unfolding pick
pick-pick [] js xs h = refl
pick-pick (i ∷ is) js xs h =
    let here = get_or-pick (i - 1) js xs (ground (arith, h)) in
    let rest = pick-pick is js xs (ground (arith, h)) in
    ap (λ b. b ∷ pick is (pick js xs)) here
    ∙ ap (◌∷◌ (get_or xs (get_or js (i - 1) 0 - 1) false)) rest

-- The numbers from k on, n of them.
abbrev count_up : ℕ → ℕ → List ℕ
count_up zero k = []
count_up (suc n) k = k ∷ count_up n (suc k)

get_or-append : (xs ys : Bits) (y : Bool) → get_or (xs ++ (y ∷ ys)) (length xs) false ≡ y
get_or-append [] ys y = refl
get_or-append (x ∷ xs) ys y = get_or-append xs ys y

append_assoc_one : (xs ys : Bits) (y : Bool) → (xs ++ (y ∷ [])) ++ ys ≡ xs ++ (y ∷ ys)
append_assoc_one [] ys y = refl
append_assoc_one (x ∷ xs) ys y = ap (◌∷◌ x) (append_assoc_one xs ys y)

pick-count_up : (xs ys : Bits) → pick (count_up (length ys) (suc (length xs))) (xs ++ ys) ≡ ys
unfolding pick
pick-count_up xs [] = refl
pick-count_up xs (y ∷ ys) =
    let at : suc (length xs) - 1 ≡ length xs = omega arith in
    let next : suc (suc (length xs)) ≡ suc (length (xs ++ (y ∷ []))) =
      omega (arith, length-append xs (y ∷ [])) in
    let rest = pick-count_up (xs ++ (y ∷ [])) ys in
    ap (λ b. b ∷ pick (count_up (length ys) (suc (suc (length xs)))) (xs ++ (y ∷ ys)))
      (ap (λ i. get_or (xs ++ (y ∷ ys)) i false) at ∙ get_or-append xs ys y)
    ∙ ap (◌∷◌ y) (
        ap (λ k. pick (count_up (length ys) k) (xs ++ (y ∷ ys))) next
        ∙ (ap (pick (count_up (length ys) (suc (length (xs ++ (y ∷ []))))))
              (sym (append_assoc_one xs ys y))
            ∙ rest))

pick_all : (xs : Bits) → length xs ≡ 64 → pick (count_up 64 1) xs ≡ xs
pick_all xs h = ap (λ n. pick (count_up n 1) xs) (sym h) ∙ pick-count_up [] xs

length-pick : (is : List ℕ) (xs : Bits) → length (pick is xs) ≡ length is
unfolding pick
length-pick [] xs = refl
length-pick (i ∷ is) xs = ap suc (length-pick is xs)

final-initial : (xs : Bits) → length xs ≡ 64 → pick final (pick initial xs) ≡ xs
final-initial xs h = pick-pick final initial xs refl ∙ pick_all xs h

initial-final : (xs : Bits) → length xs ≡ 64 → pick initial (pick final xs) ≡ xs
initial-final xs h = pick-pick initial final xs refl ∙ pick_all xs h

take-append : (n : ℕ) (xs ys : Bits) → length xs ≡ n → take n (xs ++ ys) ≡ xs
take-append zero [] ys h = refl
take-append zero (x ∷ xs) ys h = absurd (omega (arith, h))
take-append (suc n) [] ys h = absurd (omega (arith, h))
take-append (suc n) (x ∷ xs) ys h = ap (◌∷◌ x) (take-append n xs ys (omega (arith, h)))

drop-append : (n : ℕ) (xs ys : Bits) → length xs ≡ n → drop n (xs ++ ys) ≡ ys
drop-append zero [] ys h = refl
drop-append zero (x ∷ xs) ys h = absurd (omega (arith, h))
drop-append (suc n) [] ys h = absurd (omega (arith, h))
drop-append (suc n) (x ∷ xs) ys h = drop-append n xs ys (omega (arith, h))

append-split : (n : ℕ) (xs : Bits) → take n xs ++ drop n xs ≡ xs
append-split zero xs = refl
append-split (suc n) [] = refl
append-split (suc n) (x ∷ xs) = ap (◌∷◌ x) (append-split n xs)

length-take : (n m : ℕ) (xs : Bits) → length xs ≡ n + m → length (take n xs) ≡ n
length-take zero m xs h = refl
length-take (suc n) m [] h = absurd (omega (arith, h))
length-take (suc n) m (x ∷ xs) h = ap suc (length-take n m xs (omega (arith, h)))

length-drop : (n m : ℕ) (xs : Bits) → length xs ≡ n + m → length (drop n xs) ≡ m
length-drop zero m xs h = omega (arith, h)
length-drop (suc n) m [] h = absurd (omega (arith, h))
length-drop (suc n) m (x ∷ xs) h = length-drop n m xs (omega (arith, h))

-- The two halves in which the rounds work.
abbrev halves : Bits → Bits × Bits
halves x = (take 32 x, drop 32 x)

abbrev joined : Bits × Bits → Bits
joined (l, r) = r ++ l

encrypt-forward :
    (table : List ℕ) (ks : List Bits) (block : Bits)
    → encrypt table ks block false
      ≡ pick final (joined (rounds table ks (halves (pick initial block))))
unfolding encrypt
encrypt-forward table ks block = refl

encrypt-back :
    (table : List ℕ) (ks : List Bits) (block : Bits)
    → encrypt table ks block true
      ≡ pick final (joined (rounds_back table ks (halves (pick initial block))))
unfolding encrypt
encrypt-back table ks block = refl

halves-joined : (s : Bits × Bits) → Halves s → halves (joined s) ≡ swap s
halves-joined (l, r) (hl, hr) =
    ap (λ a. (a, drop 32 (r ++ l))) (take-append 32 r l hr)
    ∙ ap (λ b. (r, b)) (drop-append 32 r l hr)

length-joined : (s : Bits × Bits) → Halves s → length (joined s) ≡ 64
length-joined (l, r) (hl, hr) = omega (arith, length-append r l, hl, hr)

-- With a table E of which each entry is from 1 to 32, and any key schedule, `encrypt` with the flag
-- set turns back what `encrypt` without it has made of a block of 64 bits.
pub encrypt-encrypt :
    (table : List ℕ) (ks : List Bits) (block : Bits)
    → in_range 32 table ≡ true
    → length block ≡ 64
    → encrypt table ks (encrypt table ks block false) true ≡ block
encrypt-encrypt table ks block ok h =
    let x = pick initial block in
    let len : length x ≡ 64 = length-pick initial block in
    let s = halves x in
    let good : Halves s = (length-take 32 32 x len, length-drop 32 32 x len) in
    let done = rounds table ks s in
    let kept : Halves done = rounds-Halves table ks s good in
    let inner = ap (λ b. encrypt table ks b true) (encrypt-forward table ks block) in
    let back = encrypt-back table ks (pick final (joined done)) in
    let again : pick initial (pick final (joined done)) ≡ joined done =
      initial-final (joined done) (length-joined done kept) in
    inner
    ∙ (back
        ∙ (ap (λ b. pick final (joined (rounds_back table ks (halves b)))) again
            ∙ (ap (λ b. pick final (joined (rounds_back table ks b))) (halves-joined done kept)
                ∙ (ap (λ b. pick final (joined b)) (rounds_back-rounds table ks s ok)
                    ∙ (ap (pick final) (append-split 32 x) ∙ final-initial block h)))))
