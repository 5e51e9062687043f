-- ===== src/FreeList/Free.antt =====
-- `free` puts a block in front of the free list.
use unix_v7_c.Base.{
  ℕ, ◌+◌, ◌-◌, ◌≤◌, ◌<◌, ◌≡◌, ◌≢◌, refl, Bool, true, false, inl, inr, some, List, [], ◌∷◌, arith,
  leb, ◌==◌, length-set, get_or, set, get_or-set_self, has, Bool-cases,
}
use unix_v7_c.FreeList.{Filsys, Fblk, Disk, write, nicfree, badblock, free}
use unix_v7_c.FreeList.Chain.{IsChain-write, IsChain-set, Holds, in_data, in_data-badblock}
use unix_v7_c.Base.{◌∙◌}

module _ (unreadable : ℕ → Bool) (b : ℕ) (fp : Filsys) (d : Disk) (l : List ℕ) where
  -- What `free` guarantees: the new list, and no other block of the disk changed.
  pub record Frees (fp' : Filsys) (d' : Disk) : Type 0 where
    pub holds : Holds unreadable fp' d' (b ∷ l)
    pub modified : fp'.s_fmod ≡ true
    pub others : (c : ℕ) → c ≢ b → d' c ≡ d c
    pub same_isize : fp'.s_isize ≡ fp.s_isize
    pub same_fsize : fp'.s_fsize ≡ fp.s_fsize

  module _ (h : Holds unreadable fp d l) (good : in_data fp b ≡ true) (nonzero : b ≢ 0)
      (out : has b l ≡ false) where
    push-Frees :
        1 ≤ fp.s_nfree
        → fp.s_nfree < nicfree
        → Frees
            (record fp {
              s_nfree = fp.s_nfree + 1;
              s_free = set fp.s_free fp.s_nfree b;
              s_fmod = true;
            })
            d
    push-Frees some_left room =
        let top : get_or (set fp.s_free fp.s_nfree b) fp.s_nfree 0 ≡ b =
          get_or-set_self fp.s_free fp.s_nfree b 0 (omega (arith, h.array)) in
        let n : fp.s_nfree + 1 - 1 ≡ fp.s_nfree = omega arith in
        record {
          holds = record {
            unlocked = h.unlocked;
            array = length-set fp.s_free fp.s_nfree b ∙ h.array;
            chain = (
              omega arith,
              omega arith,
              rw n top,
              nonzero,
              good,
              inr (
                omega arith,
                rw n (
                    IsChain-set unreadable (in_data fp) d fp.s_nfree b fp.s_nfree fp.s_free l
                      (omega arith) some_left h.chain),
              ),
            );
            distinct = (out, h.distinct);
          };
          modified = refl;
          others = λ c ne. refl;
          same_isize = refl;
          same_fsize = refl;
        }

    -- The full list moves into the block, which becomes the only entry.
    spill-Frees :
        unreadable b ≡ false
        → fp.s_nfree ≡ nicfree
        → Frees
            (record fp { s_nfree = 1; s_free = set fp.s_free 0 b; s_fmod = true })
            (write d b (record { df_nfree = fp.s_nfree; df_free = fp.s_free }))
    spill-Frees readable full =
        let v : Fblk = record { df_nfree = fp.s_nfree; df_free = fp.s_free } in
        let same : (b == b) ≡ true = ground arith in
        record {
          holds = record {
            unlocked = h.unlocked;
            array = length-set fp.s_free 0 b ∙ h.array;
            chain = (
              omega arith,
              omega arith,
              get_or-set_self fp.s_free 0 b 0 (omega (arith, h.array)),
              nonzero,
              good,
              inl (
                refl,
                rw same (readable, omega arith, h.array),
                rw same (
                    IsChain-write unreadable (in_data fp) d b v fp.s_nfree fp.s_free l out h.chain),
              ),
            );
            distinct = (out, h.distinct);
          };
          modified = refl;
          others = λ c ne. ground arith;
          same_isize = refl;
          same_fsize = refl;
        }

-- An empty list gets an end mark, and is still empty.
Holds-start :
    (unreadable : ℕ → Bool) (fp : Filsys) (d : Disk) (l : List ℕ)
    → Holds unreadable fp d l
    → fp.s_nfree ≡ 0
    → Holds unreadable (record fp { s_nfree = 1; s_free = set fp.s_free 0 0 }) d l
Holds-start unreadable fp d [] h z = record {
  unlocked = h.unlocked;
  array = length-set fp.s_free 0 0 ∙ h.array;
  chain = inr (refl, get_or-set_self fp.s_free 0 0 0 (omega (arith, h.array)));
  distinct = tt;
}
Holds-start unreadable fp d (c ∷ l) h z = absurd (omega (arith, h.chain.0))

nfree-le :
    (unreadable : ℕ → Bool) (fp : Filsys) (d : Disk) (l : List ℕ)
    → Holds unreadable fp d l
    → fp.s_nfree ≤ nicfree
nfree-le unreadable fp d [] h = omega (arith, h.chain)
nfree-le unreadable fp d (c ∷ l) h = h.chain.1

-- `free` of a block of the data area that is not on the free list puts it in front of the list,
-- also where the array is empty or full; it changes no other block of the disk. The block must
-- be readable, since it may come to hold a part of the list.
pub free_pushes :
    (unreadable : ℕ → Bool) (b : ℕ) (fp : Filsys) (d : Disk) (l : List ℕ)
    → Holds unreadable fp d l
    → in_data fp b ≡ true
    → b ≢ 0
    → has b l ≡ false
    → unreadable b ≡ false
    → (fp' : Filsys) × (d' : Disk) × (free b fp d ≡ some (fp', d'))
      × Frees unreadable b fp d l fp' d'
unfolding free
free_pushes unreadable b fp d l h good nonzero out readable =
    let ok : badblock fp b ≡ false = ground (arith, in_data-badblock fp b) in
    elim (Bool-cases (leb fp.s_nfree 0)) [
      | inl empty ↦
          let z : fp.s_nfree ≡ 0 = ground arith in
          let fp₁ : Filsys = record fp { s_nfree = 1; s_free = set fp.s_free 0 0 } in
          let f =
            push-Frees unreadable b fp₁ d l (Holds-start unreadable fp d l h z) good nonzero out
              (omega arith) (omega arith) in
          (
            record fp₁ { s_nfree = 1 + 1; s_free = set fp₁.s_free 1 b; s_fmod = true },
            d,
            rw (h.unlocked, ok, empty),
            record {
              holds = f.holds;
              modified = f.modified;
              others = f.others;
              same_isize = f.same_isize;
              same_fsize = f.same_fsize;
            },
          )
      | inr some_left ↦ elim (Bool-cases (leb nicfree fp.s_nfree)) [
        | inl full ↦
            let n : fp.s_nfree ≡ nicfree = ground (arith, nfree-le unreadable fp d l h) in
            let f = spill-Frees unreadable b fp d l h good nonzero out readable n in
            (_, _, rw (h.unlocked, ok, some_left, full), f)
        | inr room ↦
            let f =
              push-Frees unreadable b fp d l h good nonzero out (ground arith) (ground arith) in
            (_, _, rw (h.unlocked, ok, some_left, room), f)
      ]
    ]

-- `free` of a block outside the data area changes nothing but the modified flag.
pub free_bad :
    (b : ℕ) (fp : Filsys) (d : Disk)
    → fp.s_flock ≡ false
    → in_data fp b ≡ false
    → free b fp d ≡ some (record fp { s_fmod = true }, d)
unfolding free
free_bad b fp d unlocked bad = ground (arith, in_data-badblock fp b)
