-- ===== src/Clist/Get.antt =====
-- `getc` takes the first character.
use unix_v7_c.Base.{
  ℕ, zero, suc, ◌+◌, ◌-◌, ◌%◌, ◌<◌, ◌≡◌, true, false, ◌⊎◌, inl, inr, refl, ap, List, [], ◌∷◌, none,
  some, arith, leb, ◌==◌, length, has, take, drop,
}
use unix_v7_c.Clist.{Blocks, Clist, update, release, take_char, take_chars, getc, q_to_b, empty}
use unix_v7_c.Clist.Chunks.{
  IsFree, IsQueue, nil, cons, Linked-update, IsFree-update, has-append, AreBlocks-insert,
  Distinct-insert, blocks_of, Frees,
}
use unix_v7_c.Clist.{take_chars}
use unix_v7_c.Base.{take}
use unix_v7_c.Base.{drop}

take_char-last :
    (p : Clist) (m : Blocks) (b k : ℕ)
    → p.c_cc ≡ 1
    → p.c_cf ≡ b + k
    → b % 16 ≡ 0
    → k < 16
    → take_char p m ≡ (m.byte (b + k) % 256, empty, release b m)
unfolding take_char
take_char-last p m b k count cf block hi =
    let down : b + k + 1 - 1 - (b + k + 1 - 1) % 16 ≡ b = omega arith in rw (count, cf, down)

take_char-inside :
    (p : Clist) (m : Blocks) (b k n : ℕ)
    → p.c_cc ≡ suc (suc n)
    → p.c_cf ≡ b + k
    → b % 16 ≡ 0
    → k < 15
    → take_char p m ≡ (m.byte (b + k) % 256, record p { c_cc = suc n; c_cf = b + (k + 1) }, m)
unfolding take_char
take_char-inside p m b k n count cf block hi =
    let edge : ((b + k + 1) % 16 == 0) ≡ false = ground arith in
    let assoc : b + k + 1 ≡ b + (k + 1) = omega arith in
    let less : suc (suc n) - 1 ≡ suc n = omega arith in
    let more : leb (suc n) 0 ≡ false = ground arith in rw (count, cf, less, more, edge, assoc)

take_char-across :
    (p : Clist) (m : Blocks) (b k n : ℕ)
    → p.c_cc ≡ suc (suc n)
    → p.c_cf ≡ b + k
    → b % 16 ≡ 0
    → k ≡ 15
    → take_char p m
      ≡ (m.byte (b + k) % 256, record p { c_cc = suc n; c_cf = m.next b + 4 }, release b m)
unfolding take_char
take_char-across p m b k n count cf block hi =
    let edge : ((b + k + 1) % 16 == 0) ≡ true = ground arith in
    let back : b + k + 1 - 16 ≡ b = omega arith in
    let less : suc (suc n) - 1 ≡ suc n = omega arith in
    let more : leb (suc n) 0 ≡ false = ground arith in rw (count, cf, less, more, edge, back)

-- What the body of `getc` does to a queue.
abbrev pub Taken : Clist → Blocks → (bs fs : List ℕ) → ℕ → List ℕ → Type 0
Taken p m bs fs x xs =
    let (c, p', m') = take_char p m in
    (c ≡ x) × (fs' : List ℕ) × (q' : IsQueue p' m' fs' xs) × Frees bs fs (blocks_of q') fs'

IsFree-release :
    (m : Blocks) (b : ℕ) (fs : List ℕ)
    → has b fs ≡ false
    → IsFree m.next m.cfreelist fs
    → IsFree (update m.next b m.cfreelist) b (b ∷ fs)
IsFree-release m b fs out free =
    let same : (b == b) ≡ true = ground arith in
    (refl, rw same (IsFree-update m.next b m.cfreelist m.cfreelist fs out free))

pub take_char-IsQueue :
    (p : Clist) (m : Blocks) (fs : List ℕ) (x : ℕ) (xs : List ℕ)
    → (q : IsQueue p m fs (x ∷ xs)) → Taken p m (blocks_of q) fs x xs
unfolding release
take_char-IsQueue p m fs x xs (cons b k (c ∷ bs) _ [] cc cf links reads free blocks distinct) =
    absurd reads
take_char-IsQueue p m fs x xs (cons b k [] _ [] cc cf links reads free blocks distinct) =
    rw (take_char-last p m b k cc cf blocks.0 reads.1) (
      reads.2,
      b ∷ fs,
      nil refl refl (IsFree-release m b fs distinct.0 free) blocks distinct,
      inr (b, refl, refl),
    )
take_char-IsQueue p m fs x xs (cons b k [] _ (y ∷ ys) cc cf links reads free blocks distinct) =
    rw (take_char-inside p m b k (length ys) cc cf blocks.0 reads.1) (
      reads.2,
      fs,
      cons b (k + 1) [] y ys refl refl links reads.3 free blocks distinct,
      inl (refl, refl),
    )
take_char-IsQueue p m fs x xs
      (cons b k (c ∷ bs) _ (y ∷ ys) cc cf links reads free blocks distinct) =
    elim reads.3 [
      | inl (lt, rest) ↦ rw (take_char-inside p m b k (length ys) cc cf blocks.0 lt) (
        reads.2,
        fs,
        cons b (k + 1) (c ∷ bs) y ys refl refl links rest free blocks distinct,
        inl (refl, refl),
      )
      | inr (eq, rest) ↦ rw (take_char-across p m b k (length ys) cc cf blocks.0 eq) (
        reads.2,
        b ∷ fs,
        cons c 4 bs y ys refl (ap (λ n. n + 4) links.0)
            (Linked-update m.next b m.cfreelist c bs (has-append b (c ∷ bs) fs distinct.0).0
              links.1)
            rest (IsFree-release m b fs (has-append b (c ∷ bs) fs distinct.0).1 free)
            (AreBlocks-insert b (c ∷ bs) fs blocks.0 blocks.1 blocks.2)
            (Distinct-insert b (c ∷ bs) fs distinct.0 distinct.1),
        inr (b, refl, refl),
      )
    ]

IsQueue-count :
    (p : Clist) (m : Blocks) (fs : List ℕ) (x : ℕ) (xs : List ℕ)
    → IsQueue p m fs (x ∷ xs)
    → p.c_cc ≡ suc (length xs)
IsQueue-count p m fs x xs (cons b k bs _ _ count cf links reads free blocks distinct) = count

pub IsQueue-leb :
    (p : Clist) (m : Blocks) (fs : List ℕ) (x : ℕ) (xs : List ℕ)
    → IsQueue p m fs (x ∷ xs)
    → leb p.c_cc 0 ≡ false
IsQueue-leb p m fs x xs q = let count = IsQueue-count p m fs x xs q in ground arith

getc-none : (p : Clist) (m : Blocks) → p.c_cc ≡ 0 → getc p m ≡ (none, empty, m)
unfolding getc
getc-none p m h = rw h

getc-some :
    (p : Clist) (m : Blocks)
    → leb p.c_cc 0 ≡ false
    → getc p m ≡ (let (c, p', m') = take_char p m in (some c, p', m'))
unfolding getc
getc-some p m h = rw h

-- `getc` of a list that holds no character returns -1, leaves it without one and frees nothing; of a
-- list that holds some it returns the first and leaves the others. Either the list then occupies the
-- same blocks and the same blocks are free, or its first block is the first free one, in front of
-- those that were free, and the list occupies the others; a list without characters occupies none.
pub getc-IsQueue :
    (p : Clist) (m : Blocks) (fs xs : List ℕ)
    → (q : IsQueue p m fs xs)
    → (((getc p m).0 ≡ none) × (xs ≡ []) × IsQueue (getc p m).1 (getc p m).2 fs [])
      ⊎ ((x : ℕ) × (rest : List ℕ) × ((getc p m).0 ≡ some x)
          × (xs ≡ x ∷ rest)
          × (fs' : List ℕ) × (q' : IsQueue (getc p m).1 (getc p m).2 fs' rest) × Frees
              (blocks_of q)
              fs
              (blocks_of q')
              fs')
getc-IsQueue p m fs [] (nil cc cl free blocks distinct) =
    rw (getc-none p m cc) (inl (refl, refl, nil refl refl free blocks distinct))
getc-IsQueue p m fs (x ∷ xs) q =
    let (got, fs', left, frees) = take_char-IsQueue p m fs x xs q in
    rw (getc-some p m (IsQueue-leb p m fs x xs q))
      (inr (x, xs, ap some got, refl, fs', left, frees))

IsQueue-none : (p : Clist) (m : Blocks) (fs : List ℕ) → IsQueue p m fs [] → p.c_cc ≡ 0
IsQueue-none p m fs (nil count cl free blocks distinct) = count

take-nil : (n : ℕ) → take {A = ℕ} n [] ≡ []
take-nil zero = refl
take-nil (suc n) = refl

drop-nil : (n : ℕ) → drop {A = ℕ} n [] ≡ []
drop-nil zero = refl
drop-nil (suc n) = refl

-- The loop of `q_to_b`.
take_chars-IsQueue :
    (n : ℕ) (p : Clist) (m : Blocks) (fs : List ℕ) (x : ℕ) (xs : List ℕ)
    → IsQueue p m fs (x ∷ xs)
    → let (cs, p', m') = take_chars n p m in
      (cs ≡ take n (x ∷ xs)) × (fs' : List ℕ) × IsQueue p' m' fs' (drop n (x ∷ xs))
unfolding take_chars
take_chars-IsQueue zero p m fs x xs q = (refl, fs, q)
take_chars-IsQueue (suc n) p m fs x [] q =
    let (got, fs', left, frees) = take_char-IsQueue p m fs x [] q in
    rw (got, IsQueue-none (take_char p m).1 (take_char p m).2 fs' left, take-nil n, drop-nil n)
      (refl, fs', left)
take_chars-IsQueue (suc n) p m fs x (y ∷ ys) q =
    let (got, fs', left, frees) = take_char-IsQueue p m fs x (y ∷ ys) q in
    let (rest, fs'', end) =
      take_chars-IsQueue n (take_char p m).1 (take_char p m).2 fs' y ys left in
    rw (got, IsQueue-leb (take_char p m).1 (take_char p m).2 fs' y ys left, rest) (refl, fs'', end)

IsQueue-reset : (p : Clist) (m : Blocks) (fs : List ℕ) → IsQueue p m fs [] → IsQueue empty m fs []
IsQueue-reset p m fs (nil count cl free blocks distinct) = nil refl refl free blocks distinct

-- `q_to_b` copies the first n characters, or all that there are, in their order, and leaves the others.
pub q_to_b-IsQueue :
    (n : ℕ) (p : Clist) (m : Blocks) (fs xs : List ℕ)
    → IsQueue p m fs xs
    → ((q_to_b n p m).0 ≡ take n xs)
      × (fs' : List ℕ) × IsQueue (q_to_b n p m).1 (q_to_b n p m).2 fs' (drop n xs)
unfolding q_to_b
q_to_b-IsQueue zero p m fs xs q = (refl, fs, q)
q_to_b-IsQueue (suc n) p m fs [] q =
    let none = IsQueue-none p m fs q in
    let more : leb (suc n) 0 ≡ false = ground arith in
    let done : leb p.c_cc 0 ≡ true = ground arith in
    rw (more, done) (refl, fs, IsQueue-reset p m fs q)
q_to_b-IsQueue (suc n) p m fs (x ∷ xs) q =
    let more : leb (suc n) 0 ≡ false = ground arith in
    rw (more, IsQueue-leb p m fs x xs q) (take_chars-IsQueue (suc n) p m fs x xs q)
