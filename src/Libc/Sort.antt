-- ===== src/Libc/Sort.antt =====
-- Sorting: usr/src/libc/gen/qsort.c.
--
-- The array is a function from indices to elements, and a pointer into it is an index, so that the
-- size `es` of an element is 1 here. `compare` is the caller's routine, a parameter, seen as the
-- sign of what it returns.
pub mod Exchange
pub mod Steps
pub mod Inner
pub mod Triple
pub mod Loop
pub mod Partition
pub mod Sorted
pub mod Whole
mod Tests
use unix_v7_c.Base.{
  ℕ, zero, suc, ◌+◌, ◌-◌, ◌*◌, ◌/◌, Bool, true, false, Option, none, some, ◌>>=◌, ltb, leb, ◌==◌,
  if◌then◌else◌,
}

-- The sign of a comparison.
pub data Sign : Type 0 where
  below : Sign
  equal : Sign
  above : Sign

abbrev pub store : {E : Type 0} → (ℕ → E) → ℕ → E → ℕ → E
store a i v x = if i == x then v else a x

-- `qsexc`
abbrev pub qsexc : {E : Type 0} → (ℕ → E) → ℕ → ℕ → ℕ → E
qsexc a i j = store (store a i (a j)) j (a i)

-- `qstexc`
abbrev pub qstexc : {E : Type 0} → (ℕ → E) → ℕ → ℕ → ℕ → ℕ → E
qstexc a i j k = let b = store a i (a k) in let c = store b k (b j) in store c j (a i)

module _ {E : Type 0} (compare : E → E → Sign) where
  -- The for loop of `qs1`, on fuel; the flag is set at the head of the loop, and clear at the label
  -- `loop`. The result is lp, hp and the array.
  pub part : ℕ → Bool → (i j lp hp : ℕ) → (ℕ → E) → Option (ℕ × ℕ × (ℕ → E))
  part zero outer i j lp hp a = none
  part (suc n) true i j lp hp a = elim (ltb i lp) [
    | true ↦ elim (compare (a i) (a lp)) [
      | equal ↦ part n true i j (lp - 1) hp (qsexc a i (lp - 1))
      | below ↦ part n true (i + 1) j lp hp a
      | above ↦ part n false i j lp hp a
    ]
    | false ↦ part n false i j lp hp a
  ]
  part (suc n) false i j lp hp a = elim (ltb hp j) [
    | true ↦ elim (compare (a hp) (a j)) [
      | equal ↦ part n false i j lp (hp + 1) (qsexc a (hp + 1) j)
      | above ↦ elim (i == lp) [
        | true ↦ part n false (lp + 1) j (lp + 1) (hp + 1) (qstexc a i (hp + 1) j)
        | false ↦ part n true (i + 1) (j - 1) lp hp (qsexc a i j)
      ]
      | below ↦ part n false i (j - 1) lp hp a
    ]
    | false ↦ elim (i == lp) [
      | true ↦ some (lp, hp, a)
      | false ↦ part n true i (hp - 1) (lp - 1) (hp - 1) (qstexc a j (lp - 1) i)
    ]
  ]

  -- `qs1` on the elements from s up to l, with fuel for the parts that it sorts in turn.
  pub qs1 : ℕ → (s l : ℕ) → (ℕ → E) → Option (ℕ → E)
  unfolding part
  qs1 zero s l a = none
  qs1 (suc n) s l a = elim (leb (l - s) 1) [
    | true ↦ some a
    | false ↦
        let mid = s + (l - s) / 2 in
        elim (part (2 * (l - s) + 2) true s (l - 1) mid mid a) [
          | none ↦ none
          | some (lp, hp, b) ↦ elim (leb (l - hp) (lp - s)) [
            | true ↦ qs1 n (hp + 1) l b >>= (λ c. qs1 n s lp c)
            | false ↦ qs1 n s lp b >>= (λ c. qs1 n (hp + 1) l c)
          ]
        ]
  ]

  -- `qsort`
  pub qsort : (ℕ → E) → ℕ → Option (ℕ → E)
  unfolding qs1
  qsort a n = qs1 (suc n) 0 n a
