-- ===== src/Clist/Apart.antt =====
-- Facts of two lists of blocks that have none in common.
use unix_v7_c.Base.{
  ℕ, ◌%◌, ◌≡◌, true, false, inl, inr, refl, ap, List, [], ◌∷◌, ◌++◌, arith, ◌==◌, has, Distinct,
  Bool-cases,
}
use unix_v7_c.Clist.{update}
use unix_v7_c.Clist.Chunks.{AreBlocks, has-append}
use unix_v7_c.Clist.Append.{last_block}

pub byte_at : (byte : ℕ → ℕ) (a c : ℕ) → update byte a (c % 256) a % 256 ≡ c % 256
byte_at byte a c = let same : (a == a) ≡ true = ground arith in rw same (omega arith)

pub append_block : (f : ℕ) (bs fs : List ℕ) → (bs ++ (f ∷ [])) ++ fs ≡ bs ++ (f ∷ fs)
append_block f [] fs = refl
append_block f (b ∷ bs) fs = ap (◌∷◌ b) (append_block f bs fs)

-- The facts of the list's own blocks.
pub AreBlocks-left : (xs ys : List ℕ) → AreBlocks (xs ++ ys) → AreBlocks xs
AreBlocks-left [] ys h = tt
AreBlocks-left (x ∷ xs) ys h = (h.0, h.1, AreBlocks-left xs ys h.2)

pub Distinct-left : (xs ys : List ℕ) → Distinct (xs ++ ys) → Distinct xs
Distinct-left [] ys h = tt
Distinct-left (x ∷ xs) ys h = ((has-append x xs ys h.0).0, Distinct-left xs ys h.1)

pub last_block-mod : (b : ℕ) (bs : List ℕ) → AreBlocks (b ∷ bs) → last_block b bs % 16 ≡ 0
last_block-mod b [] h = h.0
last_block-mod b (c ∷ bs) h = last_block-mod c bs h.2

-- Where two lists of blocks have none in common.
pub Distinct-out : (f : ℕ) (xs ys : List ℕ) → Distinct (xs ++ (f ∷ ys)) → has f xs ≡ false
Distinct-out f [] ys h = refl
Distinct-out f (x ∷ xs) ys h =
    let rest = Distinct-out f xs ys h.1 in
    let out = (has-append x xs (f ∷ ys) h.0).1 in ground arith

pub Distinct-has :
    (a : ℕ) (xs ys : List ℕ) → Distinct (xs ++ ys) → has a xs ≡ true → has a ys ≡ false
Distinct-has a [] ys h e = absurd (ground arith)
Distinct-has a (x ∷ xs) ys h e = elim (Bool-cases (a == x)) [
  | inl same ↦ let out = (has-append x xs ys h.0).1 in let eq : a ≡ x = ground arith in rw eq out
  | inr other ↦ Distinct-has a xs ys h.1 (ground arith)
]
