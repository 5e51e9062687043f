-- ===== src/Bmap/Node.antt =====
-- The blocks of a file as a tree: the index in the inode, then one index for each indirect block.
use unix_v7_c.Base.{
  ℕ, ◌-◌, ◌≤◌, ◌<◌, ◌≡◌, ◌≢◌, refl, ap, false, ◌⊎◌, inl, inr, List, [], ◌∷◌, arith, ◌==◌,
  if◌then◌else◌, length, get_or, has, Distinct, sym, Bool-cases, ◌∙◌,
}
use unix_v7_c.Bmap.{naddr, nindir}

-- The address at the end of a route, whose deepest index comes first; 0 for a hole.
abbrev pub node : List ℕ → (ℕ → List ℕ) → List ℕ → ℕ
node addr blocks [] = 0
node addr blocks (i ∷ []) = get_or addr i 0
node addr blocks (i ∷ (k ∷ q)) =
    if node addr blocks (k ∷ q) == 0 then 0 else get_or (blocks (node addr blocks (k ∷ q))) i 0

-- How many indirect blocks are left to go through.
abbrev pub room : List ℕ → ℕ
room [] = 0
room (i ∷ []) = i - 9
room (i ∷ (k ∷ q)) = room (k ∷ q) - 1

-- The routes that a file has.
abbrev pub Route : List ℕ → Type 0
Route [] = 1 ≤ 0
Route (i ∷ []) = i < naddr
Route (i ∷ (k ∷ q)) = Route (k ∷ q) × (1 ≤ room (k ∷ q)) × (i < nindir)

-- No block is in the file twice, or is in the file and free.
pub record Good (addr : List ℕ) (blocks : ℕ → List ℕ) (l : List ℕ) : Type 0 where
  pub addresses : length addr ≡ naddr
  pub tables : (c : ℕ) → length (blocks c) ≡ nindir
  pub once :
      (p q : List ℕ)
      → Route p
      → Route q
      → node addr blocks p ≢ 0
      → node addr blocks p ≡ node addr blocks q
      → p ≡ q
  pub not_free : (p : List ℕ) → Route p → has (node addr blocks p) l ≡ false
  pub nonzero : has 0 l ≡ false
  pub distinct : Distinct l

pub same_or_not : (p q : List ℕ) → (p ≡ q) ⊎ (p ≢ q)
same_or_not [] [] = inl refl
same_or_not [] (j ∷ q) = inr (λ e. absurd (omega (arith, ap length e)))
same_or_not (i ∷ p) [] = inr (λ e. absurd (omega (arith, ap length e)))
same_or_not (i ∷ p) (j ∷ q) = ground (arith, same_or_not p q)

pub cons_ne : (k : ℕ) (q : List ℕ) → q ≢ k ∷ q
cons_ne k q e = absurd (omega (arith, ap length e))

pub node-child :
    (addr : List ℕ) (blocks : ℕ → List ℕ) (i : ℕ) (p : List ℕ) (a : ℕ)
    → node addr blocks p ≡ a
    → a ≢ 0
    → node addr blocks (i ∷ p) ≡ get_or (blocks a) i 0
node-child addr blocks i [] a e h = absurd (h (sym e))
node-child addr blocks i (k ∷ p) a e h = rw e (ground (arith, h))

pub node-hole :
    (addr : List ℕ) (blocks : ℕ → List ℕ) (i k : ℕ) (p : List ℕ)
    → node addr blocks (k ∷ p) ≡ 0
    → node addr blocks (i ∷ (k ∷ p)) ≡ 0
node-hole addr blocks i k p e = rw e refl

-- The entries of two trees behind the same route.
module _ (addr : List ℕ) (blocks : ℕ → List ℕ) (addr' : List ℕ) (blocks' : ℕ → List ℕ) (k j : ℕ)
    (q : List ℕ) where
  pub same_child :
      node addr' blocks' (j ∷ q) ≡ node addr blocks (j ∷ q)
      → (node addr blocks (j ∷ q) ≢ 0
          → get_or (blocks' (node addr blocks (j ∷ q))) k 0
            ≡ get_or (blocks (node addr blocks (j ∷ q))) k 0)
      → node addr' blocks' (k ∷ (j ∷ q)) ≡ node addr blocks (k ∷ (j ∷ q))
  same_child same agree = elim (Bool-cases (node addr blocks (j ∷ q) == 0)) [
    | inl z ↦
        let z' : node addr blocks (j ∷ q) ≡ 0 = ground (arith, z) in
        node-hole addr' blocks' k j q (same ∙ z') ∙ sym (node-hole addr blocks k j q z')
    | inr z ↦
        let z' : node addr blocks (j ∷ q) ≢ 0 = ground (arith, z) in
        node-child addr' blocks' k (j ∷ q) (node addr blocks (j ∷ q)) same z'
        ∙ (agree z' ∙ sym (node-child addr blocks k (j ∷ q) (node addr blocks (j ∷ q)) refl z'))
  ]

  pub new_child :
      (b : ℕ)
      → b ≢ 0
      → node addr' blocks' (j ∷ q) ≡ b
      → get_or (blocks' b) k 0 ≡ 0
      → node addr blocks (j ∷ q) ≡ 0
      → node addr' blocks' (k ∷ (j ∷ q)) ≡ node addr blocks (k ∷ (j ∷ q))
  new_child b nz now blank old =
      node-child addr' blocks' k (j ∷ q) b now nz ∙ (blank ∙ sym (node-hole addr blocks k j q old))
