-- ===== src/Bmap/Read.antt =====
-- `bmap` for reading, and what a call for writing leaves to later calls.
use unix_v7_c.Base.{
  ℕ, zero, suc, ◌+◌, ◌-◌, ◌/◌, ◌%◌, ◌^◌, ◌<◌, ◌≡◌, ◌≢◌, refl, sym, ◌∙◌, Bool, false, ◌⊎◌, inl, inr,
  List, [], ◌∷◌, Option, none, some, arith, ltb, ◌==◌, if◌then◌else◌, get_or, Bool-cases, subst,
}
use unix_v7_c.Base.Int.{ℤ, pos, negsuc}
use unix_v7_c.Bmap.{
  State, inode_block, indirect_block, and_then, read_ahead, through, levels, bmap, naddr, nindir,
  nshift,
}
use unix_v7_c.Bmap.Node.{node-hole, node-child}
use unix_v7_c.Bmap.Reach.{at}
use unix_v7_c.Bmap.Walk.{target}
use unix_v7_c.Bmap.Write.{started, bmap_direct, bmap_indirect, and_then-some}
use unix_v7_c.Bmap.Numbers.{
  capacity, route, zone, direct, single, double, triple, route_direct, route_single, route_double,
  route_triple, levels_single, levels_double, levels_triple, target_single, target_double,
  target_triple,
}

-- What a reader gets for the address a: a hole is -1.
abbrev pub answer : ℕ → ℤ
answer a = if a == 0 then negsuc 0 else pos a

answer_hole : (a : ℕ) → a ≡ 0 → answer a ≡ negsuc 0
answer_hole a z = ground (arith, z)

pub answer_block : (a : ℕ) → a ≢ 0 → answer a ≡ pos a
answer_block a z = ground (arith, z)

module _ {S : Type 0} where
  -- Only `rablock` may differ.
  pub record Unchanged (s t : State S) : Type 0 where
    pub i_addr : t.i_addr ≡ s.i_addr
    pub blocks : t.blocks ≡ s.blocks
    pub space : t.space ≡ s.space
    pub changed : t.changed ≡ s.changed
    pub efbig : t.efbig ≡ s.efbig

  abbrev pub Reads : State S → ℕ → ℤ × State S → Type 0
  Reads s a r = (r.0 ≡ answer a) × Unchanged s r.1

  hole_below :
      (s : State S) (n bn sh j : ℕ) (p : List ℕ)
      → at s (j ∷ p) ≡ 0
      → at s (target n bn sh (j ∷ p)) ≡ 0
  hole_below s zero bn sh j p z = z
  hole_below s (suc n) bn sh j p z =
      let i = bn / 2 ^ (sh - nshift) % nindir in
      hole_below s n bn (sh - nshift) i (j ∷ p) (node-hole s.i_addr s.blocks i j p z)

  Unchanged-read_ahead :
      (s : State S) (last i : ℕ) (addresses : List ℕ) → Unchanged s (read_ahead last i addresses s)
  unfolding read_ahead
  Unchanged-read_ahead s last i addresses = elim (Bool-cases (ltb i last)) [
    | inl e ↦
        rw e (record { i_addr = refl; blocks = refl; space = refl; changed = refl; efbig = refl })
    | inr e ↦
        rw e (record { i_addr = refl; blocks = refl; space = refl; changed = refl; efbig = refl })
  ]

  -- A call that stops at a hole, or goes on.
  pub and_then-none :
      (o : Option ℕ × State S) (rest : ℕ → State S → ℤ × State S) (t : State S)
      → o ≡ (none, t)
      → and_then o rest ≡ (negsuc 0, t)
  unfolding and_then
  and_then-none o rest t e = rw e refl

module _ {S : Type 0} (alloc : S → Option ℕ × S) (unreadable : ℕ → Bool)
    (readable : (c : ℕ) → unreadable c ≡ false) where
  inode_block-read :
      (i a : ℕ) (s : State S)
      → get_or s.i_addr i 0 ≡ a
      → ((a ≡ 0) × (inode_block alloc false i s ≡ (none, s)))
        ⊎ ((a ≢ 0) × (inode_block alloc false i s ≡ (some a, s)))
  unfolding inode_block
  inode_block-read i a s e = elim (Bool-cases (a == 0)) [
    | inl z ↦ inl (ground (arith, z), rw (e, z) refl)
    | inr z ↦ inr (ground (arith, z), rw (e, z) refl)
  ]

  indirect_block-read :
      (nb i a : ℕ) (s : State S)
      → get_or (s.blocks nb) i 0 ≡ a
      → ((a ≡ 0) × (indirect_block alloc false nb i s ≡ (none, s)))
        ⊎ ((a ≢ 0) × (indirect_block alloc false nb i s ≡ (some a, s)))
  unfolding indirect_block
  indirect_block-read nb i a s e = elim (Bool-cases (a == 0)) [
    | inl z ↦ inl (ground (arith, z), rw (e, z) refl)
    | inr z ↦ inr (ground (arith, z), rw (e, z) refl)
  ]

  same : (s : State S) → Unchanged s s
  same s = record { i_addr = refl; blocks = refl; space = refl; changed = refl; efbig = refl }

  walk-Reads :
      (n bn sh nb prev i j : ℕ) (p : List ℕ) (s : State S)
      → at s (j ∷ p) ≡ nb
      → nb ≢ 0
      → Reads s (at s (target n bn sh (j ∷ p))) (through alloc unreadable false n bn sh nb prev i s)
  unfolding through
  walk-Reads zero bn sh nb prev i j p s here nz =
      (rw here (sym (answer_block nb nz)), Unchanged-read_ahead s _ _ _)
  walk-Reads (suc n) bn sh nb prev i j p s here nz =
      let k = bn / 2 ^ (sh - nshift) % nindir in
      let child = node-child s.i_addr s.blocks k (j ∷ p) nb here nz in
      rw (readable nb) (elim (indirect_block-read nb k (get_or (s.blocks nb) k 0) s refl) [
        | inl (z, e) ↦
            rw (and_then-none _ _ s e)
              (sym (answer_hole _ (hole_below s n bn (sh - nshift) k (j ∷ p) (child ∙ z))), same s)
        | inr (z, e) ↦
            rw (and_then-some _ _ _ s e)
              (walk-Reads n bn (sh - nshift) (get_or (s.blocks nb) k 0) nb k k (j ∷ p) s child z)
      ])

  from_start : (s t : State S) → Unchanged (started s) t → Unchanged s t
  from_start s t u = record {
    i_addr = u.i_addr;
    blocks = u.blocks;
    space = u.space;
    changed = u.changed;
    efbig = u.efbig;
  }

  direct-Reads :
      (bn : ℕ) (s : State S)
      → bn < 10
      → Reads s (at s (bn ∷ [])) (bmap alloc unreadable false (pos bn) s)
  direct-Reads bn s h =
      rw (bmap_direct alloc unreadable false s bn h)
        (elim (inode_block-read bn (get_or s.i_addr bn 0) (started s) refl) [
          | inl (z, e) ↦
              rw (and_then-none _ _ (started s) e)
                (sym (answer_hole _ z), from_start s _ (same (started s)))
          | inr (z, e) ↦
              rw (and_then-some _ _ _ (started s) e)
                (sym (answer_block _ z), from_start s _ (Unchanged-read_ahead (started s) _ _ _))
        ])

  indirect-Reads :
      (bn y j sh x : ℕ) (s : State S)
      → bn ≡ 10 + y
      → levels 3 0 1 y ≡ (suc j, sh, x)
      → Reads s
          (at s (target (3 - j) x sh ((naddr - suc j) ∷ [])))
          (bmap alloc unreadable false (pos bn) s)
  indirect-Reads bn y j sh x s e found =
      let k = naddr - suc j in
      rw (bmap_indirect alloc unreadable false s bn y j sh x e found)
        (elim (inode_block-read k (get_or s.i_addr k 0) (started s) refl) [
          | inl (z, e) ↦ rw (and_then-none _ _ (started s) e) (
            sym (answer_hole _ (hole_below s (3 - j) x sh k [] z)),
            from_start s _ (same (started s)),
          )
          | inr (z, e) ↦ rw (and_then-some _ _ _ (started s) e) (
              let (v, u) =
                walk-Reads (3 - j) x sh (get_or s.i_addr k 0) 0 0 k [] (started s) refl z in
              (v, from_start s _ u))
        ])

  -- When the indirect blocks can be read, `bmap` for reading returns the address at the end of the
  -- block's route, or -1 where the route ends in a hole, and changes nothing but `rablock`.
  pub bmap-answer :
      (bn : ℕ) (s : State S)
      → bn < capacity
      → Reads s (at s (route bn)) (bmap alloc unreadable false (pos bn) s)
  bmap-answer bn s h = elim (zone bn h) [
    | direct lt ↦ along (sym (route_direct bn lt)) (direct-Reads bn s lt)
    | single x e lt ↦
        along (target_single x lt ∙ sym (route_single bn x e lt))
          (indirect-Reads bn x 2 7 x s e (levels_single x lt))
    | double x e lt ↦
        along (target_double x lt ∙ sym (route_double bn x e lt))
          (indirect-Reads bn (128 + x) 1 14 x s (omega (arith, e)) (levels_double x lt))
    | triple x e lt ↦
        along (target_triple x lt ∙ sym (route_triple bn x e lt))
          (indirect-Reads bn (16512 + x) 0 21 x s (omega (arith, e)) (levels_triple x lt))
  ]
    where
      along :
          {p q : List ℕ}
          → p ≡ q
          → Reads s (at s p) (bmap alloc unreadable false (pos bn) s)
          → Reads s (at s q) (bmap alloc unreadable false (pos bn) s)
      along e r = subst (λ p. Reads s (at s p) (bmap alloc unreadable false (pos bn) s)) e r
