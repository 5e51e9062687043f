-- ===== src/Clist/Chunks.antt =====
-- The queue of characters that a `struct clist` and its blocks stand for, and the free blocks.
use unix_v7_c.Base.{
  ℕ, suc, ◌+◌, ◌%◌, ◌≤◌, ◌<◌, ◌≡◌, ◌≢◌, false, ◌⊎◌, refl, List, [], ◌∷◌, ◌++◌, arith, ◌==◌, length,
  has, Distinct,
}
use unix_v7_c.Clist.{Blocks, Clist, update}

-- From index k of the block b, with the blocks bs behind it, there are these characters, one or more,
-- and e is the address behind the last of them.
abbrev pub Reads : (ℕ → ℕ) → ℕ → ℕ → ℕ → List ℕ → List ℕ → Type 0
Reads byte e b k bs [] = ⊥
Reads byte e b k [] (x ∷ []) = (4 ≤ k) × (k < 16) × (byte (b + k) % 256 ≡ x) × (e ≡ b + k + 1)
Reads byte e b k (c ∷ bs) (x ∷ []) = ⊥
Reads byte e b k [] (x ∷ y ∷ ys) =
    (4 ≤ k) × (k < 15) × (byte (b + k) % 256 ≡ x) × Reads byte e b (k + 1) [] (y ∷ ys)
Reads byte e b k (c ∷ bs) (x ∷ y ∷ ys) =
    (4 ≤ k)
    × (k < 16)
    × (byte (b + k) % 256 ≡ x)
    × (((k < 15) × Reads byte e b (k + 1) (c ∷ bs) (y ∷ ys))
        ⊎ ((k ≡ 15) × Reads byte e c 4 bs (y ∷ ys)))

-- The links of b and the blocks behind it.
abbrev pub Linked : (ℕ → ℕ) → ℕ → List ℕ → Type 0
Linked next b [] = Unit {0}
Linked next b (c ∷ bs) = (next b ≡ c) × Linked next c bs

-- The list of free blocks.
abbrev pub IsFree : (ℕ → ℕ) → ℕ → List ℕ → Type 0
IsFree next b [] = b ≡ 0
IsFree next b (f ∷ fs) = (b ≡ f) × IsFree next (next f) fs

abbrev pub AreBlocks : List ℕ → Type 0
AreBlocks [] = Unit {0}
AreBlocks (b ∷ bs) = (b % 16 ≡ 0) × (b ≢ 0) × AreBlocks bs

-- The list p holds the characters xs, and the blocks fs are free.
pub data IsQueue (p : Clist) (m : Blocks) (fs : List ℕ) : List ℕ → Type 0 where
  nil :
      p.c_cc ≡ 0
      → p.c_cl ≡ 0
      → IsFree m.next m.cfreelist fs
      → AreBlocks fs
      → Distinct fs
      → IsQueue p m fs []
  cons :
      (b k : ℕ) (bs : List ℕ) (x : ℕ) (xs : List ℕ)
      → p.c_cc ≡ suc (length xs)
      → p.c_cf ≡ b + k
      → Linked m.next b bs
      → Reads m.byte p.c_cl b k bs (x ∷ xs)
      → IsFree m.next m.cfreelist fs
      → AreBlocks (b ∷ (bs ++ fs))
      → Distinct (b ∷ (bs ++ fs))
      → IsQueue p m fs (x ∷ xs)

-- The blocks that the list occupies.
abbrev pub blocks_of : {p : Clist} {m : Blocks} {fs xs : List ℕ} → IsQueue p m fs xs → List ℕ
blocks_of (nil cc cl free blocks distinct) = []
blocks_of (cons b k bs x xs cc cf links reads free blocks distinct) = b ∷ bs

-- The list bs of blocks and the free blocks fs become bs' and fs': all as they were, or the first
-- block of the list goes in front of the free blocks.
abbrev pub Frees : (bs fs bs' fs' : List ℕ) → Type 0
Frees bs fs bs' fs' = ((bs' ≡ bs) × (fs' ≡ fs)) ⊎ ((b : ℕ) × (bs ≡ b ∷ bs') × (fs' ≡ b ∷ fs))

-- The bounds on the first index.
pub Reads-bounds :
    (byte : ℕ → ℕ) (e b k : ℕ) (bs : List ℕ) (x : ℕ) (xs : List ℕ)
    → Reads byte e b k bs (x ∷ xs)
    → (4 ≤ k) × (k < 16) × (byte (b + k) % 256 ≡ x)
Reads-bounds byte e b k [] x [] h = (h.0, h.1, h.2)
Reads-bounds byte e b k (c ∷ bs) x [] h = absurd h
Reads-bounds byte e b k [] x (y ∷ ys) h = (h.0, omega arith, h.2)
Reads-bounds byte e b k (c ∷ bs) x (y ∷ ys) h = (h.0, h.1, h.2)

-- A link at another block does not matter.
pub Linked-update :
    (next : ℕ → ℕ) (a v b : ℕ) (bs : List ℕ)
    → has a (b ∷ bs) ≡ false
    → Linked next b bs
    → Linked (update next a v) b bs
Linked-update next a v b [] out h = h
Linked-update next a v b (c ∷ bs) out h =
    let ne : (a == b) ≡ false = ground arith in
    (rw ne h.0, Linked-update next a v c bs (ground arith) h.1)

pub IsFree-update :
    (next : ℕ → ℕ) (a v b : ℕ) (fs : List ℕ)
    → has a fs ≡ false
    → IsFree next b fs
    → IsFree (update next a v) b fs
IsFree-update next a v b [] out h = h
IsFree-update next a v b (f ∷ fs) out h =
    let ne : (a == f) ≡ false = ground arith in
    (h.0, rw ne (IsFree-update next a v (next f) fs (ground arith) h.1))

pub has-append :
    (a : ℕ) (xs ys : List ℕ) → has a (xs ++ ys) ≡ false → (has a xs ≡ false) × (has a ys ≡ false)
has-append a [] ys h = (refl, h)
has-append a (x ∷ xs) ys h =
    let (l, r) = has-append a xs ys (ground arith) in (ground (arith, l), r)

pub AreBlocks-right : (xs ys : List ℕ) → AreBlocks (xs ++ ys) → AreBlocks ys
AreBlocks-right [] ys h = h
AreBlocks-right (x ∷ xs) ys h = AreBlocks-right xs ys h.2

pub Distinct-right : (xs ys : List ℕ) → Distinct (xs ++ ys) → Distinct ys
Distinct-right [] ys h = h
Distinct-right (x ∷ xs) ys h = Distinct-right xs ys h.1

-- A block put between the lists.
pub AreBlocks-insert :
    (b : ℕ) (xs ys : List ℕ)
    → b % 16 ≡ 0
    → b ≢ 0
    → AreBlocks (xs ++ ys)
    → AreBlocks (xs ++ (b ∷ ys))
AreBlocks-insert b [] ys e ne h = (e, ne, h)
AreBlocks-insert b (x ∷ xs) ys e ne h = (h.0, h.1, AreBlocks-insert b xs ys e ne h.2)

has-insert :
    (a b : ℕ) (xs ys : List ℕ)
    → (a == b) ≡ false
    → has a (xs ++ ys) ≡ false
    → has a (xs ++ (b ∷ ys)) ≡ false
has-insert a b [] ys ne h = rw (ne, h)
has-insert a b (x ∷ xs) ys ne h =
    let rest : has a (xs ++ (b ∷ ys)) ≡ false = has-insert a b xs ys ne (ground arith) in
    let here : (a == x) ≡ false = ground arith in rw (here, rest)

pub Distinct-insert :
    (b : ℕ) (xs ys : List ℕ)
    → has b (xs ++ ys) ≡ false
    → Distinct (xs ++ ys)
    → Distinct (xs ++ (b ∷ ys))
Distinct-insert b [] ys out h = (out, h)
Distinct-insert b (x ∷ xs) ys out h =
    (has-insert x b xs ys (ground arith) h.0, Distinct-insert b xs ys (ground arith) h.1)
