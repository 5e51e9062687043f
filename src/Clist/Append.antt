-- ===== src/Clist/Append.antt =====
-- Characters behind the last one, in its block or in a new one.
use unix_v7_c.Base.{
  ℕ, ◌+◌, ◌%◌, ◌≤◌, ◌<◌, ◌≡◌, ◌≢◌, true, false, ◌⊎◌, inl, inr, refl, sym, ap, List, [], ◌∷◌, ◌++◌,
  arith, ◌==◌, length, has, Distinct, Bool-cases,
}
use unix_v7_c.Clist.{update}
use unix_v7_c.Clist.Chunks.{Reads, Linked, AreBlocks, Reads-bounds}
use unix_v7_c.Base.{◌∙◌}

-- The last block of a list.
abbrev pub last_block : ℕ → List ℕ → ℕ
last_block b [] = b
last_block b (c ∷ bs) = last_block c bs

pub has-last_block : (b : ℕ) (bs : List ℕ) → has (last_block b bs) (b ∷ bs) ≡ true
has-last_block b [] = ground arith
has-last_block b (c ∷ bs) = let h = has-last_block c bs in ground (arith, h)

-- The end stands in the last block, unless that is full.
pub Reads-last_block :
    (byte : ℕ → ℕ) (e b k : ℕ) (bs : List ℕ) (x : ℕ) (xs : List ℕ)
    → Reads byte e b k bs (x ∷ xs)
    → (j : ℕ) × (4 ≤ j) × (j < 16) × (e ≡ last_block b bs + j + 1) × ((length bs ≡ 0) → k ≤ j)
Reads-last_block byte e b k [] x [] h = (k, h.0, h.1, h.3, λ _. omega arith)
Reads-last_block byte e b k (c ∷ bs) x [] h = absurd h
Reads-last_block byte e b k [] x (y ∷ ys) h =
    let (j, lo, hi, end, le) = Reads-last_block byte e b (k + 1) [] y ys h.3 in
    (j, lo, hi, end, λ z. let l = le refl in omega arith)
Reads-last_block byte e b k (c ∷ bs) x (y ∷ ys) (lo, hi, read, inl (lt, rest)) =
    let (j, lo, hi, end, le) = Reads-last_block byte e b (k + 1) (c ∷ bs) y ys rest in
    (j, lo, hi, end, λ z. absurd (omega arith))
Reads-last_block byte e b k (c ∷ bs) x (y ∷ ys) (lo, hi, read, inr (lt, rest)) =
    let (j, lo, hi, end, le) = Reads-last_block byte e c 4 bs y ys rest in
    (j, lo, hi, end, λ z. absurd (omega arith))

has-ne : (a b : ℕ) (xs : List ℕ) → has a xs ≡ true → has b xs ≡ false → (a == b) ≡ false
has-ne a b [] h g = absurd (ground arith)
has-ne a b (x ∷ xs) h g = elim (Bool-cases (a == x)) [
  | inl e ↦ ground arith
  | inr e ↦ let rest = has-ne a b xs (ground arith) (ground arith) in rest
]

-- The address l + i holds no character of the list.
abbrev pub Unread : ℕ → ℕ → ℕ → ℕ → List ℕ → Type 0
Unread l i e b bs = (has l (b ∷ bs) ≡ false) ⊎ ((l ≡ last_block b bs) × (e ≤ l + i))

Unread-next : (l i e b c : ℕ) (bs : List ℕ) → Unread l i e b (c ∷ bs) → Unread l i e c bs
Unread-next l i e b c bs (inl out) = inl (ground arith)
Unread-next l i e b c bs (inr h) = inr h

not_read :
    (byte : ℕ → ℕ) (l i e b k : ℕ) (bs : List ℕ) (x : ℕ) (xs : List ℕ)
    → Reads byte e b k bs (x ∷ xs)
    → AreBlocks (b ∷ bs)
    → Distinct (b ∷ bs)
    → l % 16 ≡ 0
    → i < 16
    → Unread l i e b bs
    → (l + i == b + k) ≡ false
not_read byte l i e b k bs x xs h blocks distinct block hi (inl out) =
    let (lo, lt, _) = Reads-bounds byte e b k bs x xs h in
    let ne : (l == b) ≡ false = ground arith in let mult : b % 16 ≡ 0 = blocks.0 in ground arith
not_read byte l i e b k [] x xs h blocks distinct block hi (inr (eq, le)) =
    let (j, lo, lt, end, more) = Reads-last_block byte e b k [] x xs h in
    let m = more refl in ground arith
not_read byte l i e b k (c ∷ bs) x xs h blocks distinct block hi (inr (eq, le)) =
    let (lo, lt, _) = Reads-bounds byte e b k (c ∷ bs) x xs h in
    let ne : (last_block c bs == b) ≡ false =
      has-ne (last_block c bs) b (c ∷ bs) (has-last_block c bs) distinct.0 in
    let mult : b % 16 ≡ 0 = blocks.0 in ground arith

-- A byte that the list does not read.
pub Reads-update :
    (byte : ℕ → ℕ) (v l i e b k : ℕ) (bs : List ℕ) (x : ℕ) (xs : List ℕ)
    → Reads byte e b k bs (x ∷ xs)
    → AreBlocks (b ∷ bs)
    → Distinct (b ∷ bs)
    → l % 16 ≡ 0
    → i < 16
    → Unread l i e b bs
    → Reads (update byte (l + i) v) e b k bs (x ∷ xs)
Reads-update byte v l i e b k [] x [] h blocks distinct block hi out =
    let ne = not_read byte l i e b k [] x [] h blocks distinct block hi out in
    (h.0, h.1, rw ne h.2, h.3)
Reads-update byte v l i e b k (c ∷ bs) x [] h blocks distinct block hi out = h
Reads-update byte v l i e b k [] x (y ∷ ys) h blocks distinct block hi out =
    let ne = not_read byte l i e b k [] x (y ∷ ys) h blocks distinct block hi out in
    (
      h.0,
      h.1,
      rw ne h.2,
      Reads-update byte v l i e b (k + 1) [] y ys h.3 blocks distinct block hi out,
    )
Reads-update byte v l i e b k (c ∷ bs) x (y ∷ ys) h blocks distinct block hi out =
    let ne = not_read byte l i e b k (c ∷ bs) x (y ∷ ys) h blocks distinct block hi out in
    (
      h.0,
      h.1,
      rw ne h.2,
      elim h.3 [
        | inl (lt, rest) ↦ inl (
          lt,
          Reads-update byte v l i e b (k + 1) (c ∷ bs) y ys rest blocks distinct block hi out,
        )
        | inr (eq, rest) ↦ inr (
          eq,
          Reads-update byte v l i e c 4 bs y ys rest blocks.2 distinct.1 block hi
              (Unread-next l i e b c bs out),
        )
      ],
    )

-- The character that stands at the end.
pub Reads-snoc :
    (byte : ℕ → ℕ) (v e b k : ℕ) (bs : List ℕ) (x : ℕ) (xs : List ℕ)
    → Reads byte e b k bs (x ∷ xs)
    → AreBlocks (b ∷ bs)
    → e % 16 ≢ 0
    → byte e % 256 ≡ v
    → Reads byte (e + 1) b k bs (x ∷ (xs ++ (v ∷ [])))
Reads-snoc byte v e b k [] x [] h blocks room at =
    let e' : b + k + 1 ≡ b + (k + 1) = omega arith in
    let mult : b % 16 ≡ 0 = blocks.0 in
    let end : e ≡ b + (k + 1) = h.3 ∙ e' in
    let lt : k < 15 = omega (arith, h.1) in
    (
      h.0,
      lt,
      h.2,
      (omega arith, omega arith, ap (λ z. byte z % 256) (sym end) ∙ at, ap (λ z. z + 1) end),
    )
Reads-snoc byte v e b k (c ∷ bs) x [] h blocks room at = absurd h
Reads-snoc byte v e b k [] x (y ∷ ys) h blocks room at =
    (h.0, h.1, h.2, Reads-snoc byte v e b (k + 1) [] y ys h.3 blocks room at)
Reads-snoc byte v e b k (c ∷ bs) x (y ∷ ys) h blocks room at = (
  h.0,
  h.1,
  h.2,
  elim h.3 [
    | inl (lt, rest) ↦ inl (lt, Reads-snoc byte v e b (k + 1) (c ∷ bs) y ys rest blocks room at)
    | inr (eq, rest) ↦ inr (eq, Reads-snoc byte v e c 4 bs y ys rest blocks.2 room at)
  ],
)

-- The character that begins a new block.
pub Reads-block :
    (byte : ℕ → ℕ) (v e f b k : ℕ) (bs : List ℕ) (x : ℕ) (xs : List ℕ)
    → Reads byte e b k bs (x ∷ xs)
    → AreBlocks (b ∷ bs)
    → e % 16 ≡ 0
    → byte (f + 4) % 256 ≡ v
    → Reads byte (f + 4 + 1) b k (bs ++ (f ∷ [])) (x ∷ (xs ++ (v ∷ [])))
Reads-block byte v e f b k [] x [] h blocks full at =
    let mult : b % 16 ≡ 0 = blocks.0 in
    let eq : k ≡ 15 = omega (arith, h.1, h.3) in
    (h.0, h.1, h.2, inr (eq, (omega arith, omega arith, at, refl)))
Reads-block byte v e f b k (c ∷ bs) x [] h blocks full at = absurd h
Reads-block byte v e f b k [] x (y ∷ ys) h blocks full at = (
  h.0,
  omega (arith, h.1),
  h.2,
  inl (h.1, Reads-block byte v e f b (k + 1) [] y ys h.3 blocks full at),
)
Reads-block byte v e f b k (c ∷ bs) x (y ∷ ys) h blocks full at = (
  h.0,
  h.1,
  h.2,
  elim h.3 [
    | inl (lt, rest) ↦ inl (lt, Reads-block byte v e f b (k + 1) (c ∷ bs) y ys rest blocks full at)
    | inr (eq, rest) ↦ inr (eq, Reads-block byte v e f c 4 bs y ys rest blocks.2 full at)
  ],
)

-- The link of the last block does not matter.
pub Linked-last_block :
    (next : ℕ → ℕ) (v b : ℕ) (bs : List ℕ)
    → Distinct (b ∷ bs)
    → Linked next b bs
    → Linked (update next (last_block b bs) v) b bs
Linked-last_block next v b [] distinct h = h
Linked-last_block next v b (c ∷ bs) distinct h =
    let ne : (last_block c bs == b) ≡ false =
      has-ne (last_block c bs) b (c ∷ bs) (has-last_block c bs) distinct.0 in
    (rw ne h.0, Linked-last_block next v c bs distinct.1 h.1)

-- A block behind the last.
pub Linked-snoc :
    (next : ℕ → ℕ) (f b : ℕ) (bs : List ℕ)
    → next (last_block b bs) ≡ f
    → Linked next b bs
    → Linked next b (bs ++ (f ∷ []))
Linked-snoc next f b [] at h = (at, tt)
Linked-snoc next f b (c ∷ bs) at h = (h.0, Linked-snoc next f c bs at h.1)
