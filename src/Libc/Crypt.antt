-- ===== src/Libc/Crypt.antt =====
-- The cipher of usr/src/libc/gen/crypt.c: `setkey` and `encrypt`, with their tables.
--
-- A char that holds a bit is a Boolean. Tables count from 1, as in the code. `E` is an argument of
-- `encrypt`: before `crypt` has filled it from the table e its entries are 0, and then, with some
-- of them swapped, 1 to 32; no entry is above 32.
pub mod Tables
pub mod Feistel
pub mod Inverse
pub mod Password
mod Tests
use unix_v7_c.Base.{
  ℕ, zero, suc, ◌+◌, ◌-◌, ◌*◌, ◌/◌, ◌%◌, Bool, true, false, List, [], ◌∷◌, ◌++◌, ◌==◌,
  if◌then◌else◌, get_or, take, drop,
}
use unix_v7_c.Libc.Crypt.Tables.{
  initial, final, pc1_c, pc1_d, shifts, pc2_c, pc2_d, boxes, permutation,
}

abbrev pub Bits : Type 0
Bits = List Bool

-- The elements of an array that a table names.
pub pick : List ℕ → Bits → Bits
pick [] xs = []
pick (i ∷ is) xs = get_or xs (i - 1) false ∷ pick is xs

-- Exclusive or of two arrays, as long as the first.
pub xor : Bits → Bits → Bits
xor [] ys = []
xor (x ∷ xs) [] = x ∷ xs
xor (x ∷ xs) (y ∷ ys) = (if x then (if y then false else true) else y) ∷ xor xs ys

-- One step of the rotation of C or D.
abbrev pub rotate_once : Bits → Bits
rotate_once [] = []
rotate_once (x ∷ xs) = xs ++ (x ∷ [])

-- `for (k=0; k<shifts[i]; k++)`
abbrev pub rotate : ℕ → Bits → Bits
rotate zero xs = xs
rotate (suc k) xs = rotate k (rotate_once xs)

abbrev pub minus_28 : List ℕ → List ℕ
minus_28 [] = []
minus_28 (i ∷ is) = (i - 28) ∷ minus_28 is

-- The loop of `setkey`: the rows of KS that are left
pub schedule : List ℕ → Bits → Bits → List Bits
unfolding pick
schedule [] c d = []
schedule (n ∷ ns) c d =
    let c' = rotate n c in
    let d' = rotate n d in (pick pc2_c c' ++ pick (minus_28 pc2_d) d') ∷ schedule ns c' d'

-- `setkey`: KS
pub setkey : Bits → List Bits
unfolding schedule pick
setkey key = schedule shifts (pick pc1_c key) (pick pc1_d key)

abbrev pub num : Bool → ℕ
num true = 1
num false = 0

-- The four bits that the selection function j makes of six.
pub select_one : ℕ → (a b c d e f : Bool) → Bits
select_one j a b c d e f =
    let k =
      get_or boxes (j * 64 + num a * 32 + num b * 8 + num c * 4 + num d * 2 + num e + num f * 16)
        0 in
    (k / 8 % 2 == 1) ∷ (k / 4 % 2 == 1) ∷ (k / 2 % 2 == 1) ∷ (k % 2 == 1) ∷ []

-- The loop over the groups of preS, from j on.
pub select : ℕ → Bits → Bits
unfolding select_one
select j (a ∷ b ∷ c ∷ d ∷ e ∷ f ∷ rest) = select_one j a b c d e f ++ select (j + 1) rest
select j _ = []

-- R[E[j]-1] for the entries of E; R[-1] is L[31], since R is L+32.
pub expand : List ℕ → Bits × Bits → Bits
expand [] (l, r) = []
expand (e ∷ table) (l, r) =
    (if e == 0 then get_or l 31 false else get_or r (e - 1) false) ∷ expand table (l, r)

-- f(R, K), permuted
pub mix : List ℕ → Bits × Bits → Bits → Bits
unfolding pick expand xor select
mix table s k = pick permutation (select 0 (xor (expand table s) k))

-- One of the 16 rounds, on L and R.
pub round : List ℕ → Bits → Bits × Bits → Bits × Bits
unfolding mix xor
round table k (l, r) = (r, xor l (mix table (l, r) k))

-- The rounds with i = ii, and with i = 15-ii.
pub rounds : List ℕ → List Bits → Bits × Bits → Bits × Bits
unfolding round
rounds table [] s = s
rounds table (k ∷ ks) s = rounds table ks (round table k s)

pub rounds_back : List ℕ → List Bits → Bits × Bits → Bits × Bits
unfolding round
rounds_back table [] s = s
rounds_back table (k ∷ ks) s = round table k (rounds_back table ks s)

-- `encrypt`: the block afterwards
pub encrypt : List ℕ → List Bits → Bits → (edflag : Bool) → Bits
unfolding pick rounds rounds_back
encrypt table ks block edflag =
    let x = pick initial block in
    let s : Bits × Bits = (take 32 x, drop 32 x) in
    let (l, r) = if edflag then rounds_back table ks s else rounds table ks s in pick final (r ++ l)
