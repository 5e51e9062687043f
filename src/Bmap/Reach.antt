-- ===== src/Bmap/Reach.antt =====
-- One address of `bmap` that is fetched, or entered where there is none.
use unix_v7_c.Base.{
  ℕ, suc, ◌≤◌, ◌<◌, ◌≡◌, ◌≢◌, refl, ap, sym, ◌∙◌, true, false, ◌⊎◌, inl, inr, List, [], ◌∷◌, Option,
  some, arith, ◌==◌, length, get_or, set, Bool-cases, length-set, length-replicate, subst,
}
use unix_v7_c.Bmap.{State, new_block, inode_block, indirect_block, naddr, nindir}
use unix_v7_c.Bmap.Node.{node, Route, Good, node-child, same_or_not}
use unix_v7_c.Bmap.Grow.{Grown, Grown-Good, fresh, enter, root-Grown, table_Grown}

-- What `bmap` relies on when it calls `alloc`: the call takes the first of the free blocks.
pub record Allocator (S : Type 0) : Type 1 where
  pub alloc : S → Option ℕ × S
  pub Holds : S → List ℕ → Type 0
  pub takes :
      (s : S) (b : ℕ) (l : List ℕ)
      → Holds s (b ∷ l)
      → (s' : S) × (alloc s ≡ (some b, s')) × Holds s' l

-- The first route is a part of the second.
pub data Above : List ℕ → List ℕ → Type 0 where
  whole : (p : List ℕ) → Above p p
  part : {p q : List ℕ} (i : ℕ) → Above p q → Above p (i ∷ q)

pub Above-trans : {p q r : List ℕ} → Above p q → Above q r → Above p r
Above-trans h (whole _) = h
Above-trans h (part i g) = part i (Above-trans h g)

module _ {S : Type 0} where
  abbrev pub at : State S → List ℕ → ℕ
  at s p = node s.i_addr s.blocks p

  -- From s to t, only holes on the way to the end of p were filled.
  pub record Reached (Holds : S → List ℕ → Type 0) (s t : State S) (p l' : List ℕ) (b : ℕ)
      : Type 0 where
    pub found : at t p ≡ b
    pub real : b ≢ 0
    pub good : Good t.i_addr t.blocks l'
    pub left : Holds t.space l'
    pub keeps : (q : List ℕ) → Route q → (at t q ≡ at s q) ⊎ ((at s q ≡ 0) × Above q p)

  pub Grown-keeps :
      (s t : State S) (p : List ℕ) (b : ℕ)
      → Grown p b s.i_addr s.blocks t.i_addr t.blocks
      → at s p ≡ 0
      → (q : List ℕ) → Route q
      → (at t q ≡ at s q) ⊎ ((at s q ≡ 0) × Above q p)
  Grown-keeps s t p b g z q r = elim (same_or_not q p) [
    | inl e ↦ inr (ap (at s) e ∙ z, subst (λ x. Above x p) (sym e) (whole p))
    | inr e ↦ inl (g.others q r e)
  ]

-- How an address is fetched or entered.
abbrev pub Fetches :
    {S : Type 0} → Allocator S → State S → List ℕ → List ℕ → Option ℕ × State S → Type 0
Fetches A s l p o =
    (b : ℕ) × (t : State _) × (l' : List ℕ) × (o ≡ (some b, t))
    × (length l ≤ suc (length l'))
    × Reached A.Holds s t p l' b

module _ {S : Type 0} (A : Allocator S) (s : State S) (l : List ℕ) (good : Good s.i_addr s.blocks l)
    (holds : A.Holds s.space l) where
  module _ (nb i j : ℕ) (p : List ℕ) (here : at s (j ∷ p) ≡ nb) (nz : nb ≢ 0)
      (route : Route (i ∷ (j ∷ p))) where
    entry : at s (i ∷ (j ∷ p)) ≡ get_or (s.blocks nb) i 0
    entry = node-child s.i_addr s.blocks i (j ∷ p) nb here nz

    pub indirect_block-there :
        get_or (s.blocks nb) i 0 ≢ 0
        → Fetches A s l (i ∷ (j ∷ p)) (indirect_block A.alloc true nb i s)
    unfolding indirect_block
    indirect_block-there h =
        let test : (get_or (s.blocks nb) i 0 == 0) ≡ false = ground (arith, h) in
        (
          get_or (s.blocks nb) i 0,
          s,
          l,
          rw test refl,
          omega arith,
          record { found = entry; real = h; good = good; left = holds; keeps = λ q r. inl refl },
        )

  pub inode_block-there :
      (i : ℕ) → get_or s.i_addr i 0 ≢ 0 → Fetches A s l (i ∷ []) (inode_block A.alloc true i s)
  unfolding inode_block
  inode_block-there i h =
      let test : (get_or s.i_addr i 0 == 0) ≡ false = ground (arith, h) in
      (
        get_or s.i_addr i 0,
        s,
        l,
        rw test refl,
        omega arith,
        record { found = refl; real = h; good = good; left = holds; keeps = λ q r. inl refl },
      )

module _ {S : Type 0} (A : Allocator S) (s : State S) (b : ℕ) (l : List ℕ)
    (good : Good s.i_addr s.blocks (b ∷ l)) (space : S) (taken : A.alloc s.space ≡ (some b, space))
    (left : A.Holds space l) where
  real_block : b ≢ 0
  real_block e = ground (arith, good.nonzero)

  unused_yet : (q : List ℕ) → Route q → at s q ≢ b
  unused_yet q r e = ground (arith, good.not_free q r)

  length-fresh : (c : ℕ) → length (fresh s.blocks b c) ≡ nindir
  length-fresh c = elim (Bool-cases (b == c)) [
    | inl e ↦ rw e (length-replicate {A = ℕ} nindir 0)
    | inr e ↦ rw e (good.tables c)
  ]

  length-enter : (a i c : ℕ) → length (enter s.blocks a i b c) ≡ nindir
  length-enter a i c = elim (Bool-cases (a == c)) [
    | inl e ↦ rw e (length-set (s.blocks a) i b ∙ good.tables a)
    | inr e ↦ rw e (length-fresh c)
  ]

  fetched :
      (t : State S) (p : List ℕ)
      → Route p
      → at s p ≡ 0
      → Grown p b s.i_addr s.blocks t.i_addr t.blocks
      → length t.i_addr ≡ naddr
      → ((c : ℕ) → length (t.blocks c) ≡ nindir)
      → t.space ≡ space
      → Reached A.Holds s t p l b
  fetched t p r z g addresses tables e = record {
    found = g.here;
    real = real_block;
    good = Grown-Good s.i_addr s.blocks t.i_addr t.blocks b p l good r g addresses tables;
    left = subst (λ x. A.Holds x l) (sym e) left;
    keeps = Grown-keeps s t p b g z;
  }

  pub indirect_block-hole :
      (nb i j : ℕ) (p : List ℕ)
      → at s (j ∷ p) ≡ nb
      → nb ≢ 0
      → Route (i ∷ (j ∷ p))
      → get_or (s.blocks nb) i 0 ≡ 0
      → Fetches A s (b ∷ l) (i ∷ (j ∷ p)) (indirect_block A.alloc true nb i s)
  unfolding indirect_block new_block
  indirect_block-hole nb i j p here nz r z =
      let inside : i < length (s.blocks nb) = omega (arith, good.tables nb, r.2) in
      let grown =
        table_Grown s.i_addr s.blocks b real_block unused_yet i j p nb here nz z inside
          (λ q rq e. good.once q (j ∷ p) rq r.0 (λ x. nz (sym e ∙ x)) (e ∙ sym here)) r.0 in
      let t : State S = record s { blocks = enter s.blocks nb i b; space = space } in
      (
        b,
        t,
        l,
        let test : (get_or (s.blocks nb) i 0 == 0) ≡ true = ground (arith, z) in
            rw (test, taken) refl,
        omega arith,
        fetched t (i ∷ (j ∷ p)) r (node-child s.i_addr s.blocks i (j ∷ p) nb here nz ∙ z) grown
            good.addresses (length-enter nb i) refl,
      )

  pub inode_block-hole :
      (i : ℕ)
      → i < naddr
      → get_or s.i_addr i 0 ≡ 0
      → Fetches A s (b ∷ l) (i ∷ []) (inode_block A.alloc true i s)
  unfolding inode_block new_block
  inode_block-hole i h z =
      let inside : i < length s.i_addr = omega (arith, good.addresses, h) in
      let grown = root-Grown s.i_addr s.blocks b real_block unused_yet i z inside in
      let t : State S = record s {
        i_addr = set s.i_addr i b;
        changed = true;
        blocks = fresh s.blocks b;
        space = space;
      } in
      (
        b,
        t,
        l,
        let test : (get_or s.i_addr i 0 == 0) ≡ true = ground (arith, z) in rw (test, taken) refl,
        omega arith,
        fetched t (i ∷ []) h z grown (length-set s.i_addr i b ∙ good.addresses) length-fresh refl,
      )
