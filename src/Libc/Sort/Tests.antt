-- ===== src/Libc/Sort/Tests.antt =====
-- Sorting numbers.
use unix_v7_c.Base.{
  ℕ, ◌≤◌, ◌≡◌, refl, Option, some, ◌>>=◌, List, [], ◌∷◌, arith, ltb, get_or, ◌==◌, if◌then◌else◌,
}
use unix_v7_c.Libc.Sort.{Sign, below, equal, above, qsort}
use unix_v7_c.Libc.Sort.Steps.{Preorder, Leq}
use unix_v7_c.Libc.Sort.Whole.{Sorts, qsort-Sorts}

abbrev by_size : ℕ → ℕ → Sign
by_size x y = if ltb x y then below else if x == y then equal else above

abbrev seven : ℕ → ℕ
seven x = get_or (5 ∷ 3 ∷ 8 ∷ 5 ∷ 1 ∷ 9 ∷ 5 ∷ []) x 0

abbrev listed : Option (ℕ → ℕ) → Option (List ℕ)
listed o = o >>= (λ a. some (a 0 ∷ a 1 ∷ a 2 ∷ a 3 ∷ a 4 ∷ a 5 ∷ a 6 ∷ []))

qsort_run : listed (qsort by_size seven 7) ≡ some (1 ∷ 3 ∷ 5 ∷ 5 ∷ 5 ∷ 8 ∷ 9 ∷ [])
unfolding qsort
qsort_run = refl

Leq-le : (x y : ℕ) → Leq by_size x y → x ≤ y
Leq-le x y h = ground (arith, h)

le-Leq : (x y : ℕ) → x ≤ y → Leq by_size x y
le-Leq x y h = ground (arith, h)

by_size-Preorder : Preorder by_size
by_size-Preorder = record {
  same = λ x. le-Leq x x (omega arith);
  trans = λ x y z p q. le-Leq x z (omega (arith, Leq-le x y p, Leq-le y z q));
  flip_above = λ x y e. ground (arith, e);
  flip_equal = λ x y e. ground (arith, e);
}

qsort-Sorts_example : Sorts by_size 0 7 seven (qsort by_size seven 7)
qsort-Sorts_example = qsort-Sorts by_size by_size-Preorder seven 7
