-- ===== src/Bmap/Write.antt =====
-- `bmap` for writing.
use unix_v7_c.Base.{
  ℕ, suc, ◌+◌, ◌-◌, ◌≤◌, ◌<◌, ◌≡◌, refl, ◌∙◌, Bool, true, false, inl, inr, List, [], ◌∷◌, Option,
  some, arith, ltb, ◌==◌, length, get_or, Bool-cases,
}
use unix_v7_c.Base.Int.{ℤ, pos}
use unix_v7_c.Bmap.{
  State, inode_block, and_then, read_ahead, through, levels, indirect, bmap, naddr,
}
use unix_v7_c.Bmap.Node.{Good}
use unix_v7_c.Bmap.Reach.{Allocator, Fetches, inode_block-there, inode_block-hole}
use unix_v7_c.Bmap.Walk.{target, Above-target, Reached-trans, Reached-read_ahead, Maps, walks}
use unix_v7_c.Bmap.Numbers.{
  capacity, route, zone, direct, single, double, triple, route_direct, route_single, route_double,
  route_triple, levels_single, levels_double, levels_triple, target_single, target_double,
  target_triple,
}

pub and_then-some :
    {S : Type 0} (o : Option ℕ × State S) (rest : ℕ → State S → ℤ × State S) (b : ℕ) (t : State S)
    → o ≡ (some b, t)
    → and_then o rest ≡ rest b t
unfolding and_then
and_then-some o rest b t e = rw e refl

-- What the call does first.
abbrev pub started : {S : Type 0} → State S → State S
started s = record s { rablock = 0 }

module _ {S : Type 0} (alloc : S → Option ℕ × S) (unreadable : ℕ → Bool) (writing : Bool)
    (s : State S) (bn : ℕ) where
  pub bmap_direct :
      bn < 10
      → bmap alloc unreadable writing (pos bn) s
        ≡ and_then
            (inode_block alloc writing bn (started s))
            (λ nb t. (pos nb, read_ahead 9 bn t.i_addr t))
  unfolding bmap
  bmap_direct h = let e : ltb bn 10 ≡ true = ground (arith, h) in rw e refl

  pub bmap_indirect :
      (y j sh x : ℕ)
      → bn ≡ 10 + y
      → levels 3 0 1 y ≡ (suc j, sh, x)
      → bmap alloc unreadable writing (pos bn) s
        ≡ and_then
            (inode_block alloc writing (naddr - suc j) (started s))
            (λ nb t. through alloc unreadable writing (3 - j) x sh nb 0 0 t)
  unfolding bmap indirect
  bmap_indirect y j sh x e found =
      let far : ltb bn 10 ≡ false = ground (arith, e) in
      let sub : bn - 10 ≡ y = omega (arith, e) in
      let rounds : 4 - suc j ≡ 3 - j = omega arith in rw (far, sub, found, rounds) refl

module _ {S : Type 0} (A : Allocator S) (unreadable : ℕ → Bool)
    (readable : (c : ℕ) → unreadable c ≡ false) (s : State S) (l : List ℕ)
    (good : Good s.i_addr s.blocks l) (holds : A.Holds s.space l) where
  root_fetch :
      (i : ℕ)
      → i < naddr
      → 1 ≤ length l
      → Fetches A (started s) l (i ∷ []) (inode_block A.alloc true i (started s))
  root_fetch i h more = by_case l good holds more
    where
      by_case :
          (m : List ℕ)
          → Good s.i_addr s.blocks m
          → A.Holds s.space m
          → 1 ≤ length m
          → Fetches A (started s) m (i ∷ []) (inode_block A.alloc true i (started s))
      by_case [] g held more = absurd (omega (arith, more))
      by_case (b ∷ m) g held more = elim (Bool-cases (get_or s.i_addr i 0 == 0)) [
        | inl z ↦
            let (space, taken, left) = A.takes s.space b m held in
            inode_block-hole A (started s) b m g space taken left i h (ground (arith, z))
        | inr z ↦ inode_block-there A (started s) (b ∷ m) g held i (ground (arith, z))
      ]

  direct-Maps :
      (bn : ℕ)
      → bn < 10
      → 1 ≤ length l
      → Maps A unreadable readable s l (bn ∷ []) 1 (bmap A.alloc unreadable true (pos bn) s)
  direct-Maps bn h more =
      let (b, t, l', e, size, f) = root_fetch bn (omega (arith, h)) more in
      (
        b,
        _,
        l',
        bmap_direct A.alloc unreadable true s bn h ∙ and_then-some _ _ b t e,
        omega (arith, size),
        Reached-read_ahead A.Holds s t (bn ∷ []) l' b _ _ _ (record {
          found = f.found;
          real = f.real;
          good = f.good;
          left = f.left;
          keeps = f.keeps;
        }),
      )

  indirect-Maps :
      (bn y j sh x : ℕ)
      → bn ≡ 10 + y
      → levels 3 0 1 y ≡ (suc j, sh, x)
      → j < 3
      → 4 ≤ length l
      → Maps A unreadable readable s l
          (target (3 - j) x sh ((naddr - suc j) ∷ []))
          4
          (bmap A.alloc unreadable true (pos bn) s)
  indirect-Maps bn y j sh x e found three more =
      let k = naddr - suc j in
      let (b, t, l1, got, size, f) = root_fetch k (omega arith) (omega (arith, more)) in
      let (c, u, l2, got', size', g) =
        walks A unreadable readable (3 - j) x sh b 0 0 k [] t l1 f.good f.left f.found f.real
          (omega arith) (omega (arith, three)) (omega (arith, size, more)) in
      let down =
        Reached-trans A.Holds (started s) t u (k ∷ []) _ l1 l2 b c f g
          (Above-target (3 - j) x sh (k ∷ [])) in
      (
        c,
        u,
        l2,
        bmap_indirect A.alloc unreadable true s bn y j sh x e found
            ∙ (and_then-some _ _ b t got ∙ got'),
        omega (arith, size, size'),
        record {
          found = down.found;
          real = down.real;
          good = down.good;
          left = down.left;
          keeps = down.keeps;
        },
      )

  -- Four free blocks are enough for a block of data and the indirect blocks above it.
  pub bmap-Maps :
      (bn : ℕ)
      → bn < capacity
      → 4 ≤ length l
      → Maps A unreadable readable s l (route bn) 4 (bmap A.alloc unreadable true (pos bn) s)
  bmap-Maps bn h more = elim (zone bn h) [
    | direct lt ↦
        let (b, t, l', e, size, f) = direct-Maps bn lt (omega (arith, more)) in
        rw (route_direct bn lt) (b, t, l', e, omega (arith, size), f)
    | single x e lt ↦
        rw (route_single bn x e lt, ← target_single x lt)
          (indirect-Maps bn x 2 7 x e (levels_single x lt) (omega arith) more)
    | double x e lt ↦
        rw (route_double bn x e lt, ← target_double x lt)
          (indirect-Maps bn (128 + x) 1 14 x (omega (arith, e)) (levels_double x lt) (omega arith)
            more)
    | triple x e lt ↦
        rw (route_triple bn x e lt, ← target_triple x lt)
          (indirect-Maps bn (16512 + x) 0 21 x (omega (arith, e)) (levels_triple x lt) (omega arith)
            more)
  ]
