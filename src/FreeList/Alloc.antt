-- ===== src/FreeList/Alloc.antt =====
-- `alloc` hands out the first block of the free list.
use unix_v7_c.Base.{
  ℕ, zero, suc, ◌-◌, ◌≤◌, ◌≡◌, ◌≢◌, refl, Bool, true, false, ◌⊎◌, inl, inr, none, some, List, [],
  ◌∷◌, arith, ltb, leb, ◌==◌, length, get_or, Distinct,
}
use unix_v7_c.FreeList.{
  Filsys, Disk, allocated, enospc, write, cleared, nicfree, badblock, next_block, alloc, take,
  finish, refill,
}
use unix_v7_c.FreeList.Chain.{IsChain, IsChain-write, IsLink, Holds, in_data, in_data-badblock}
use unix_v7_c.Base.{◌∙◌}
use unix_v7_c.Base.{ap}

-- What `alloc` guarantees of the block b that it returns.
pub record Allocates (unreadable : ℕ → Bool) (b : ℕ) (l : List ℕ) (fp : Filsys) (d : Disk)
    (fp' : Filsys) (d' : Disk) : Type 0 where
  pub holds : Holds unreadable fp' d' l
  pub in_area : in_data fp b ≡ true
  pub clear : d' b ≡ cleared
  pub others : (c : ℕ) → c ≢ b → d' c ≡ d c
  pub modified : fp'.s_fmod ≡ true
  pub same_isize : fp'.s_isize ≡ fp.s_isize
  pub same_fsize : fp'.s_fsize ≡ fp.s_fsize

module _ (fp : Filsys) (b : ℕ) (nonzero : b ≢ 0) (good : in_data fp b ≡ true) where
  next_block-top :
      (n : ℕ)
      → 1 ≤ n
      → n ≤ nicfree
      → get_or fp.s_free (n - 1) 0 ≡ b
      → next_block n fp ≡ some (b, record fp { s_nfree = n - 1 })
  unfolding next_block
  next_block-top zero pos few top = absurd (omega arith)
  next_block-top (suc n) pos few top =
      let ok : badblock fp b ≡ false = ground (arith, in_data-badblock fp b) in
      let n' : suc n - 1 ≡ n = omega arith in
      let top' : get_or fp.s_free n 0 ≡ b = rw n' at top in
      let few' : ltb nicfree (suc n) ≡ false = ground arith in
      let nz : (b == 0) ≡ false = ground arith in rw (few', top', n') (rw (nz, ok))

module _ (unreadable : ℕ → Bool) (b : ℕ) (l : List ℕ) (fp : Filsys) (d : Disk)
    (unlocked : fp.s_flock ≡ false) (array : length fp.s_free ≡ nicfree) (nonzero : b ≢ 0)
    (good : in_data fp b ≡ true) (distinct : Distinct (b ∷ l)) where
  -- The block is not the last one of the array.
  plain-Allocates :
      1 ≤ fp.s_nfree - 1
      → IsChain unreadable (in_data fp) d (fp.s_nfree - 1) fp.s_free l
      → Allocates unreadable b l fp d
          (record fp { s_nfree = fp.s_nfree - 1; s_fmod = true })
          (write d b cleared)
  plain-Allocates more chain = record {
    holds = record {
      unlocked = unlocked;
      array = array;
      chain =
          IsChain-write unreadable (in_data fp) d b cleared (fp.s_nfree - 1) fp.s_free l distinct.0
            chain;
      distinct = distinct.1;
    };
    in_area = good;
    clear = ground arith;
    others = λ c ne. ground arith;
    modified = refl;
    same_isize = refl;
    same_fsize = refl;
  }

  -- It is the last one, and holds the next part of the list.
  link-Allocates :
      IsLink unreadable (in_data fp) d b
      → IsChain unreadable (in_data fp) d (d b).df_nfree (d b).df_free l
      → Allocates unreadable b l fp d
          (record fp { s_nfree = (d b).df_nfree; s_free = (d b).df_free; s_fmod = true })
          (write d b cleared)
  link-Allocates link chain = record {
    holds = record {
      unlocked = unlocked;
      array = link.2;
      chain =
          IsChain-write unreadable (in_data fp) d b cleared (d b).df_nfree (d b).df_free l
            distinct.0 chain;
      distinct = distinct.1;
    };
    in_area = good;
    clear = ground arith;
    others = λ c ne. ground arith;
    modified = refl;
    same_isize = refl;
    same_fsize = refl;
  }

alloc-unlocked :
    (unreadable : ℕ → Bool) (fp : Filsys) (d : Disk)
    → fp.s_flock ≡ false
    → alloc unreadable fp d ≡ take unreadable (next_block fp.s_nfree fp) fp d
unfolding alloc
alloc-unlocked unreadable fp d h = ground arith

module _ (unreadable : ℕ → Bool) (b : ℕ) (fp fp' : Filsys) (d : Disk) where
  take-plain :
      1 ≤ fp'.s_nfree
      → take unreadable (some (b, fp')) fp d
        ≡ allocated b (record fp' { s_fmod = true }) (write d b cleared)
  unfolding take refill finish
  take-plain more = let left : leb fp'.s_nfree 0 ≡ false = ground arith in rw left (rw left)

  take-link :
      fp'.s_nfree ≡ 0
      → IsLink unreadable (in_data fp) d b
      → take unreadable (some (b, fp')) fp d
        ≡ allocated b
            (record fp' { s_nfree = (d b).df_nfree; s_free = (d b).df_free; s_fmod = true })
            (write d b cleared)
  unfolding take refill finish
  take-link zero_left link =
      let none_left : leb fp'.s_nfree 0 ≡ true = ground arith in
      let filled : leb (d b).df_nfree 0 ≡ false = ground arith in
      rw none_left (rw link.0 (rw filled))

-- `alloc` of a file system whose free list is not empty returns the first block of the list, and
-- leaves the rest of the list, also where it takes up a new part of the list from the disk. The
-- block is in the data area, the disk has it cleared, and no other block changes.
pub alloc_pops :
    (unreadable : ℕ → Bool) (b : ℕ) (l : List ℕ) (fp : Filsys) (d : Disk)
    → Holds unreadable fp d (b ∷ l)
    → (fp' : Filsys) × (d' : Disk) × (alloc unreadable fp d ≡ allocated b fp' d')
      × Allocates unreadable b l fp d fp' d'
alloc_pops unreadable b l fp d h = go h.chain
  where
    go :
        IsChain unreadable (in_data fp) d fp.s_nfree fp.s_free (b ∷ l)
        → (fp' : Filsys) × (d' : Disk) × (alloc unreadable fp d ≡ allocated b fp' d')
          × Allocates unreadable b l fp d fp' d'
    go (p, q, r, s, t, inl (one, link, chain)) = (
      record fp { s_nfree = (d b).df_nfree; s_free = (d b).df_free; s_fmod = true },
      write d b cleared,
      alloc-unlocked unreadable fp d h.unlocked
          ∙ ap (λ o. take unreadable o fp d) (next_block-top fp b s t fp.s_nfree p q r)
          ∙ take-link unreadable b fp (record fp { s_nfree = fp.s_nfree - 1 }) d (omega arith) link,
      link-Allocates unreadable b l fp d h.unlocked h.array s t h.distinct link chain,
    )
    go (p, q, r, s, t, inr (more, chain)) = (
      record fp { s_nfree = fp.s_nfree - 1; s_fmod = true },
      write d b cleared,
      alloc-unlocked unreadable fp d h.unlocked
          ∙ ap (λ o. take unreadable o fp d) (next_block-top fp b s t fp.s_nfree p q r)
          ∙ take-plain unreadable b fp (record fp { s_nfree = fp.s_nfree - 1 }) d (omega arith),
      plain-Allocates unreadable b l fp d h.unlocked h.array s t h.distinct (omega arith) chain,
    )

next_block-empty :
    (n : ℕ) (fp : Filsys)
    → (n ≡ 0) ⊎ ((n ≡ 1) × (get_or fp.s_free 0 0 ≡ 0))
    → next_block n fp ≡ none
unfolding next_block
next_block-empty zero fp h = refl
next_block-empty (suc zero) fp h = ground arith
next_block-empty (suc (suc n)) fp h = absurd (omega arith)

-- `alloc` of a file system whose free list is empty fails with ENOSPC, and the list stays empty.
pub alloc_empty :
    (unreadable : ℕ → Bool) (fp : Filsys) (d : Disk)
    → Holds unreadable fp d []
    → (alloc unreadable fp d ≡ enospc (record fp { s_nfree = 0 }) d)
      × Holds unreadable (record fp { s_nfree = 0 }) d []
unfolding take
alloc_empty unreadable fp d h = (
  alloc-unlocked unreadable fp d h.unlocked
      ∙ ap (λ o. take unreadable o fp d) (next_block-empty fp.s_nfree fp h.chain),
  record { unlocked = h.unlocked; array = h.array; chain = inl refl; distinct = tt },
)
