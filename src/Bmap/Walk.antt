-- ===== src/Bmap/Walk.antt =====
-- The walk of `bmap` through the indirect blocks, when it may enter new ones.
use unix_v7_c.Base.{
  ℕ, zero, suc, ◌+◌, ◌-◌, ◌/◌, ◌%◌, ◌^◌, ◌≤◌, ◌≡◌, ◌≢◌, refl, sym, ◌∙◌, Bool, true, false, ◌⊎◌, inl,
  inr, List, [], ◌∷◌, arith, ltb, ◌==◌, length, get_or, Bool-cases,
}
use unix_v7_c.Base.Int.{ℤ, pos}
use unix_v7_c.Bmap.{State, indirect_block, and_then, read_ahead, through, nindir, nshift}
use unix_v7_c.Bmap.Node.{room, Route, Good}
use unix_v7_c.Bmap.Reach.{
  Allocator, Above, Above-trans, whole, part, at, Reached, Fetches, indirect_block-there,
  indirect_block-hole,
}

-- The route below p that the walk takes.
abbrev pub target : ℕ → ℕ → ℕ → List ℕ → List ℕ
target zero bn sh p = p
target (suc n) bn sh p = target n bn (sh - nshift) (bn / 2 ^ (sh - nshift) % nindir ∷ p)

pub Above-target : (n bn sh : ℕ) (p : List ℕ) → Above p (target n bn sh p)
Above-target zero bn sh p = whole p
Above-target (suc n) bn sh p =
    let i = bn / 2 ^ (sh - nshift) % nindir in
    Above-trans (part i (whole p)) (Above-target n bn (sh - nshift) (i ∷ p))

module _ {S : Type 0} (Holds : S → List ℕ → Type 0) where
  pub Reached-trans :
      (s t u : State S) (p r l l' : List ℕ) (a b : ℕ)
      → Reached Holds s t p l a
      → Reached Holds t u r l' b
      → Above p r
      → Reached Holds s u r l' b
  Reached-trans s t u p r l l' a b f g up = record {
    found = g.found;
    real = g.real;
    good = g.good;
    left = g.left;
    keeps = λ q rq. both q (f.keeps q rq) (g.keeps q rq);
  }
    where
      both :
          (q : List ℕ)
          → (at t q ≡ at s q) ⊎ ((at s q ≡ 0) × Above q p)
          → (at u q ≡ at t q) ⊎ ((at t q ≡ 0) × Above q r)
          → (at u q ≡ at s q) ⊎ ((at s q ≡ 0) × Above q r)
      both q (inl e) (inl e') = inl (e' ∙ e)
      both q (inl e) (inr (z, w)) = inr (sym e ∙ z, w)
      both q (inr (z, w)) _ = inr (z, Above-trans w up)

  -- The read-ahead is noted beside the tree.
  pub Reached-read_ahead :
      (s t : State S) (p l : List ℕ) (b last i : ℕ) (addresses : List ℕ)
      → Reached Holds s t p l b
      → Reached Holds s (read_ahead last i addresses t) p l b
  unfolding read_ahead
  Reached-read_ahead s t p l b last i addresses f = elim (Bool-cases (ltb i last)) [
    | inl e ↦
        rw e
          (record { found = f.found; real = f.real; good = f.good; left = f.left; keeps = f.keeps })
    | inr e ↦ rw e f
  ]

module _ {S : Type 0} (A : Allocator S) (unreadable : ℕ → Bool)
    (readable : (c : ℕ) → unreadable c ≡ false) where
  -- A call that returns a block, at the end of the route p; k blocks at most were taken.
  abbrev pub Maps : State S → List ℕ → List ℕ → ℕ → ℤ × State S → Type 0
  Maps s l p k r =
      (b : ℕ) × (t : State S) × (l' : List ℕ) × (r ≡ (pos b, t))
      × (length l ≤ k + length l')
      × Reached A.Holds s t p l' b

  fetch :
      (s : State S) (l : List ℕ) (nb i j : ℕ) (p : List ℕ)
      → Good s.i_addr s.blocks l
      → A.Holds s.space l
      → at s (j ∷ p) ≡ nb
      → nb ≢ 0
      → Route (i ∷ (j ∷ p))
      → 1 ≤ length l
      → Fetches A s l (i ∷ (j ∷ p)) (indirect_block A.alloc true nb i s)
  fetch s [] nb i j p good holds here nz r more = absurd (omega (arith, more))
  fetch s (b ∷ l) nb i j p good holds here nz r more =
      elim (Bool-cases (get_or (s.blocks nb) i 0 == 0)) [
        | inl z ↦
            let (space, taken, left) = A.takes s.space b l holds in
            indirect_block-hole A s b l good space taken left nb i j p here nz r (ground (arith, z))
        | inr z ↦ indirect_block-there A s (b ∷ l) good holds nb i j p here nz r (ground (arith, z))
      ]

  pub walks :
      (n bn sh nb prev i j : ℕ) (p : List ℕ) (s : State S) (l : List ℕ)
      → Good s.i_addr s.blocks l
      → A.Holds s.space l
      → at s (j ∷ p) ≡ nb
      → nb ≢ 0
      → Route (j ∷ p)
      → n ≤ room (j ∷ p)
      → n ≤ length l
      → Maps s l (target n bn sh (j ∷ p)) n (through A.alloc unreadable true n bn sh nb prev i s)
  unfolding through
  walks zero bn sh nb prev i j p s l good holds here nz r few more = (
    nb,
    _,
    l,
    refl,
    omega arith,
    Reached-read_ahead A.Holds s s (j ∷ p) l nb _ _ _
        (record { found = here; real = nz; good = good; left = holds; keeps = λ q rq. inl refl }),
  )
  walks (suc n) bn sh nb prev i j p s l good holds here nz r few more =
      let k = bn / 2 ^ (sh - nshift) % nindir in
      let r' : Route (k ∷ (j ∷ p)) = (r, omega (arith, few), omega arith) in
      let (b, t, l1, e, size, f) = fetch s l nb k j p good holds here nz r' (omega (arith, more)) in
      let (c, u, l2, e', size', g) =
        walks n bn (sh - nshift) b nb k k (j ∷ p) t l1 f.good f.left f.found f.real r'
          (omega (arith, few)) (omega (arith, size, more)) in
      (
        c,
        u,
        l2,
        rw (readable nb, e, and_then) e',
        omega (arith, size, size'),
        Reached-trans A.Holds s t u (k ∷ (j ∷ p)) _ l1 l2 b c f g
            (Above-target n bn (sh - nshift) (k ∷ (j ∷ p))),
      )
