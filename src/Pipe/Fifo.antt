-- ===== src/Pipe/Fifo.antt =====
-- Bytes taken out of a file at an offset, and put behind its end.
use unix_v7_c.Base.{
  ℕ, zero, suc, ◌+◌, ◌≤◌, ◌≡◌, refl, ap, List, [], ◌∷◌, ◌++◌, length, take, drop, arith,
}
use mathlib.Core.List.{append-nil}
use unix_v7_c.Pipe.{store}

pub drop-end : (n : ℕ) (xs : List ℕ) → length xs ≤ n → drop n xs ≡ []
drop-end zero [] h = refl
drop-end zero (x ∷ xs) h = absurd (omega arith)
drop-end (suc n) [] h = refl
drop-end (suc n) (x ∷ xs) h = drop-end n xs (omega arith)

take-end : (xs : List ℕ) → take (length xs) xs ≡ xs
take-end [] = refl
take-end (x ∷ xs) = ap (◌∷◌ x) (take-end xs)

-- What is taken from the offset o on, and what stays behind it.
pub take-drop :
    (n o : ℕ) (xs : List ℕ)
    → o ≤ length xs
    → let got = take n (drop o xs) in
      (o + length got ≤ length xs) × (got ++ drop (o + length got) xs ≡ drop o xs)
take-drop zero o xs h = (omega arith, ap (λ i. drop i xs) (omega arith))
take-drop (suc n) zero [] h = (omega arith, refl)
take-drop (suc n) zero (x ∷ xs) h =
    let (le, eq) = take-drop n zero xs (omega arith) in
    let shift : 0 + suc (length (take n xs)) ≡ suc (0 + length (take n xs)) = omega arith in
    (omega (arith, le), rw shift (ap (◌∷◌ x) eq))
take-drop (suc n) (suc o) [] h = absurd (omega arith)
take-drop (suc n) (suc o) (x ∷ xs) h =
    let (le, eq) = take-drop (suc n) o xs (omega arith) in
    let got = take (suc n) (drop o xs) in
    let shift : suc o + length got ≡ suc (o + length got) = omega arith in
    (omega (arith, le), rw shift eq)

pub drop-append : (o : ℕ) (xs ys : List ℕ) → o ≤ length xs → drop o (xs ++ ys) ≡ drop o xs ++ ys
drop-append zero xs ys h = refl
drop-append (suc o) [] ys h = absurd (omega arith)
drop-append (suc o) (x ∷ xs) ys h = drop-append o xs ys (omega arith)

-- A write at the end of a file.
pub store-end : (b file : List ℕ) → store (length file) b file ≡ file ++ b
unfolding store
store-end b file =
    rw (take-end file, drop-end (length file + length b) file (omega arith), append-nil b)

pub length-take_le : (n : ℕ) (xs : List ℕ) → length (take n xs) ≤ n
length-take_le zero xs = omega arith
length-take_le (suc n) [] = omega arith
length-take_le (suc n) (x ∷ xs) = omega (arith, length-take_le n xs)
