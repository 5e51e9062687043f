-- ===== src/Bmap/After.antt =====
-- What a call of `bmap` for writing leaves to later calls, and the block numbers out of range.
use unix_v7_c.Base.{
  ℕ, ◌+◌, ◌-◌, ◌≤◌, ◌<◌, ◌≡◌, ◌≢◌, refl, ap, sym, ◌∙◌, Bool, true, false, ◌⊎◌, inl, inr, List,
  Option, arith, ltb, length,
}
use unix_v7_c.Base.Int.{pos, negsuc}
use unix_v7_c.Bmap.{State, levels, indirect, bmap}
use unix_v7_c.Bmap.Node.{Good}
use unix_v7_c.Bmap.Reach.{Allocator, Above, at}
use unix_v7_c.Bmap.Write.{bmap-Maps}
use unix_v7_c.Bmap.Read.{answer, answer_block, bmap-answer}
use unix_v7_c.Bmap.Numbers.{capacity, route, route-Route, apart_routes}

module _ {S : Type 0} (A : Allocator S) (unreadable : ℕ → Bool) where
  -- `bmap` for writing returned the block b in the state t: b is where it was or in a hole, and no
  -- other block of the file moved or was lost.
  pub record Enters (s : State S) (l : List ℕ) (bn : ℕ) (t : State S) (l' : List ℕ) (b : ℕ)
      : Type 0 where
    pub returned : bmap A.alloc unreadable true (pos bn) s ≡ (pos b, t)
    pub real : b ≢ 0
    pub at_end : at t (route bn) ≡ b
    pub kept : (at s (route bn) ≡ b) ⊎ (at s (route bn) ≡ 0)
    pub others :
        (other : ℕ) → other < capacity → other ≢ bn → at t (route other) ≡ at s (route other)
    pub good : Good t.i_addr t.blocks l'
    pub left : A.Holds t.space l'
    pub four : length l ≤ 4 + length l'

  module _ (readable : (c : ℕ) → unreadable c ≡ false) (s : State S) (l : List ℕ)
      (good : Good s.i_addr s.blocks l) (holds : A.Holds s.space l) (bn : ℕ) (h : bn < capacity)
      (more : 4 ≤ length l) where
    -- If all indirect blocks can be read, the block number is one that the inode can reach, no block
    -- is in the file twice or also free, and four blocks or more are free, then `bmap` for writing
    -- returns a block, which is the one that the file had there if it had one; every other block of
    -- the file stays where it was, holes stay holes; no block is in the file twice or also free, as
    -- before; and at most four blocks were taken.
    pub bmap-Enters : (b : ℕ) × (t : State S) × (l' : List ℕ) × Enters s l bn t l' b
    bmap-Enters =
        let (b, t, l', e, size, f) = bmap-Maps A unreadable readable s l good holds bn h more in
        (
          b,
          t,
          l',
          record {
            returned = e;
            real = f.real;
            at_end = f.found;
            kept = before b t f.found (f.keeps (route bn) (route-Route bn h).0);
            others = λ o ho ne. untouched t o ho ne (f.keeps (route o) (route-Route o ho).0);
            good = f.good;
            left = f.left;
            four = size;
          },
        )
      where
        before :
            (b : ℕ) (t : State S)
            → at t (route bn) ≡ b
            → (at t (route bn) ≡ at s (route bn))
              ⊎ ((at s (route bn) ≡ 0) × Above (route bn) (route bn))
            → (at s (route bn) ≡ b) ⊎ (at s (route bn) ≡ 0)
        before b t e (inl same) = inl (sym same ∙ e)
        before b t e (inr (z, _)) = inr z

        untouched :
            (t : State S) (o : ℕ)
            → o < capacity
            → o ≢ bn
            → (at t (route o) ≡ at s (route o))
              ⊎ ((at s (route o) ≡ 0) × Above (route o) (route bn))
            → at t (route o) ≡ at s (route o)
        untouched t o ho ne (inl same) = same
        untouched t o ho ne (inr (z, up)) = absurd (ne (apart_routes o bn ho h up))

    -- If all indirect blocks can be read, the block number is one that the inode can reach, no block
    -- is in the file twice or also free, and four blocks or more are free, then `bmap` for writing
    -- returns a block; `bmap` for reading then returns the same block for this block number, and for
    -- each other one that the inode can reach what it returned before.
    pub read-write :
        (b : ℕ) × (t : State S) × (bmap A.alloc unreadable true (pos bn) s ≡ (pos b, t))
        × ((bmap A.alloc unreadable false (pos bn) t).0 ≡ pos b)
        × ((other : ℕ)
            → other < capacity
            → other ≢ bn
            → (bmap A.alloc unreadable false (pos other) t).0
              ≡ (bmap A.alloc unreadable false (pos other) s).0)
    read-write =
        let (b, t, l', g) = bmap-Enters in
        (
          b,
          t,
          g.returned,
          (bmap-answer A.alloc unreadable readable bn t h).0
              ∙ (ap answer g.at_end ∙ answer_block b g.real),
          λ o ho ne.
              (bmap-answer A.alloc unreadable readable o t ho).0
              ∙ (ap answer (g.others o ho ne)
                  ∙ sym (bmap-answer A.alloc unreadable readable o s ho).0),
        )

module _ {S : Type 0} (alloc : S → Option ℕ × S) (unreadable : ℕ → Bool) (writing : Bool)
    (s : State S) where
  too_far : (y : ℕ) → 2113664 ≤ y → levels 3 0 1 y ≡ (0, 21, y - 2113664)
  unfolding levels
  too_far y h =
      let a : ltb y 128 ≡ false = ground (arith, h) in
      let b : ltb (y - 128) 16384 ≡ false = ground (arith, h) in
      let c : ltb (y - 128 - 16384) 2097152 ≡ false = ground (arith, h) in
      let e : y - 128 - 16384 - 2097152 ≡ y - 2113664 = omega arith in rw (a, b, c, e) refl

  -- A block number below 0, or past the last that the inode can reach, gives 0 and EFBIG, and
  -- neither the file nor the free blocks change.
  pub bmap-efbig :
      ((n : ℕ) → bmap alloc unreadable writing (negsuc n) s ≡ (pos 0, record s { efbig = true }))
      × ((bn : ℕ)
          → capacity ≤ bn
          → bmap alloc unreadable writing (pos bn) s
            ≡ (pos 0, record s { rablock = 0; efbig = true }))
  unfolding bmap indirect
  bmap-efbig = (
    λ n. refl,
    λ bn h.
        let far : ltb bn 10 ≡ false = ground (arith, h) in
        rw (far, too_far (bn - 10) (omega (arith, h))) refl,
  )
