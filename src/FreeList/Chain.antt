-- ===== src/FreeList/Chain.antt =====
-- The list of free blocks that a super block and a disk stand for, in the order in which `alloc`
-- hands them out.
use unix_v7_c.Base.{
  ℕ, ◌-◌, ◌≤◌, ◌≡◌, ◌≢◌, Bool, true, false, ◌⊎◌, inl, inr, List, [], ◌∷◌, arith, ltb, leb, ◌==◌,
  length, get_or, set, get_or-set_ne, has, Distinct,
}
use unix_v7_c.FreeList.{Filsys, Fblk, Disk, write, nicfree, badblock}
use unix_v7_c.Base.{not}
use unix_v7_c.Base.{◌&&◌}

module _ (unreadable : ℕ → Bool) (good : ℕ → Bool) (d : Disk) where
  -- The block b holds the rest of the list.
  abbrev pub IsLink : ℕ → Type 0
  IsLink b = (unreadable b ≡ false) × (1 ≤ (d b).df_nfree) × (length (d b).df_free ≡ nicfree)

  -- The first n entries of `free` lead through the blocks of the list: they come off the end, and the
  -- block at index 0 holds the next entries. A 0 there ends the list.
  abbrev pub IsChain : ℕ → List ℕ → List ℕ → Type 0
  IsChain n free [] = (n ≡ 0) ⊎ ((n ≡ 1) × (get_or free 0 0 ≡ 0))
  IsChain n free (b ∷ l) =
      (1 ≤ n)
      × (n ≤ nicfree)
      × (get_or free (n - 1) 0 ≡ b)
      × (b ≢ 0)
      × (good b ≡ true)
      × (((n ≡ 1) × IsLink b × IsChain (d b).df_nfree (d b).df_free l)
          ⊎ ((2 ≤ n) × IsChain (n - 1) free l))

module _ (unreadable : ℕ → Bool) (good : ℕ → Bool) (d : Disk) where
  -- Only blocks of the list are read.
  pub IsChain-write :
      (b : ℕ) (v : Fblk) (n : ℕ) (free l : List ℕ)
      → has b l ≡ false
      → IsChain unreadable good d n free l
      → IsChain unreadable good (write d b v) n free l
  IsChain-write b v n free [] out h = h
  IsChain-write b v n free (c ∷ l) out (p, q, r, s, t, inl (one, link, h)) =
      let other : (b == c) ≡ false = ground arith in
      (p, q, r, s, t, inl (one, rw other link, rw other (IsChain-write b v _ _ l (ground arith) h)))
  IsChain-write b v n free (c ∷ l) out (p, q, r, s, t, inr (more, h)) =
      (p, q, r, s, t, inr (more, IsChain-write b v (n - 1) free l (ground arith) h))

  -- Entries at n and above are not read.
  pub IsChain-set :
      (i v n : ℕ) (free l : List ℕ)
      → n ≤ i
      → 1 ≤ i
      → IsChain unreadable good d n free l
      → IsChain unreadable good d n (set free i v) l
  IsChain-set i v n free [] out pos h = rw (get_or-set_ne free i 0 v 0 (omega arith)) h
  IsChain-set i v n free (c ∷ l) out pos (p, q, r, s, t, inl h) =
      (p, q, rw (get_or-set_ne free i (n - 1) v 0 (omega arith)) r, s, t, inl h)
  IsChain-set i v n free (c ∷ l) out pos (p, q, r, s, t, inr (more, h)) = (
    p,
    q,
    rw (get_or-set_ne free i (n - 1) v 0 (omega arith)) r,
    s,
    t,
    inr (more, IsChain-set i v (n - 1) free l (omega arith) pos h),
  )

-- A block number in the data area.
abbrev pub in_data : Filsys → ℕ → Bool
in_data fp b = leb fp.s_isize b && ltb b fp.s_fsize

-- The unlocked super block and the disk hold the free list l, with no block twice.
pub record Holds (unreadable : ℕ → Bool) (fp : Filsys) (d : Disk) (l : List ℕ) : Type 0 where
  pub unlocked : fp.s_flock ≡ false
  pub array : length fp.s_free ≡ nicfree
  pub chain : IsChain unreadable (in_data fp) d fp.s_nfree fp.s_free l
  pub distinct : Distinct l

pub in_data-badblock : (fp : Filsys) (b : ℕ) → in_data fp b ≡ not (badblock fp b)
unfolding badblock
in_data-badblock fp b = ground arith
