-- ===== src/Inode/Table/Unique.antt =====
-- No i-node is in the table of usr/sys/sys/iget.c twice.
use unix_v7_c.Base.{
  ℕ, ◌<◌, ◌≡◌, ◌≢◌, ◌==◌, sym, inl, inr, true, false, arith, Bool-cases, ◌∙◌, refl,
}
use unix_v7_c.Inode.Table.{Inodes, Entry, put, is_it}

-- Two entries that are in use are not of one i-node. An entry with the number 0 is not in use.
abbrev pub Unique : ℕ → Inodes → Type 0
Unique n t =
    (j k : ℕ)
    → j < n
    → k < n
    → (t j).i_number ≡ (t k).i_number
    → (t j).i_dev ≡ (t k).i_dev
    → (t k).i_number ≢ 0
    → j ≡ k

pub put_here : (t : Inodes) (k : ℕ) (e : Entry) (x : ℕ) → (x == k) ≡ true → put t k e x ≡ e
put_here t k e x a = rw a refl

pub put_self : (t : Inodes) (k : ℕ) (e : Entry) → put t k e k ≡ e
put_self t k e = put_here t k e k (ground arith)

pub put_there : (t : Inodes) (k : ℕ) (e : Entry) (x : ℕ) → (x == k) ≡ false → put t k e x ≡ t x
put_there t k e x a = rw a refl

-- A table stays so when no other entry is of the i-node of the new one.
pub put-Unique :
    (n k : ℕ) (e : Entry) (t : Inodes)
    → Unique n t
    → ((j : ℕ)
        → j < n
        → (j == k) ≡ false
        → e.i_number ≢ 0
        → (t j).i_number ≡ e.i_number
        → (t j).i_dev ≢ e.i_dev)
    → Unique n (put t k e)
put-Unique n k e t u new x y lx ly = elim (Bool-cases (x == k)) [
  | inl a ↦ elim (Bool-cases (y == k)) [
    | inl b ↦ λ _ _ _. ground (arith, a, b)
    | inr b ↦
        rw (put_here t k e x a, put_there t k e y b)
          (λ en ed nz. absurd (new y ly b (λ z. nz (sym en ∙ z)) (sym en) (sym ed)))
  ]
  | inr a ↦ elim (Bool-cases (y == k)) [
    | inl b ↦
        rw (put_there t k e x a, put_here t k e y b) (λ en ed nz. absurd (new x lx a nz en ed))
    | inr b ↦ rw (put_there t k e x a, put_there t k e y b) (u x y lx ly)
  ]
]

module _ (n k : ℕ) (e : Entry) (t : Inodes) (u : Unique n t) where
  -- A change of the flags or of the count.
  pub put-same : k < n → e.i_number ≡ (t k).i_number → e.i_dev ≡ (t k).i_dev → Unique n (put t k e)
  put-same lk en ed = put-Unique n k e t u (λ j lj ne nz num dev.
      let same = u j k lj lk (num ∙ en) (dev ∙ ed) (λ z. nz (en ∙ z)) in
      absurd (ground (arith, ne, same)))

  -- An entry that is taken out.
  pub put-free : e.i_number ≡ 0 → Unique n (put t k e)
  put-free z = put-Unique n k e t u (λ j lj ne nz num dev. nz z)

  -- An i-node that is not in the table.
  pub put-fresh : ((x : ℕ) → x < n → is_it e.i_dev e.i_number (t x) ≡ false) → Unique n (put t k e)
  put-fresh miss =
      put-Unique n k e t u (λ j lj ne nz num dev. let m = miss j lj in ground (arith, m, num, dev))
