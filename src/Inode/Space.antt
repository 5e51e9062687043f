-- ===== src/Inode/Space.antt =====
-- The free block list of a file system, as the `free` that `itrunc` calls.
use unix_v7_c.Base.{
  ℕ, ◌≡◌, ◌≢◌, ap, sym, ◌∙◌, Bool, true, false, ◌&&◌, Option, none, some, List, ◌∷◌, leb, ltb,
  subst,
}
use unix_v7_c.FreeList.{Filsys, Disk, free}
use unix_v7_c.FreeList.Chain.{Holds}
use unix_v7_c.FreeList.Free.{free_pushes}
use unix_v7_c.Inode.Truncate.{Releaser}

abbrev after : Filsys × Disk → Option (Filsys × Disk) → Filsys × Disk
after s none = s
after s (some t) = t

-- The data area is from block `first` up to `last`.
module _ (unreadable : ℕ → Bool) (first last : ℕ) where
  abbrev pub freed : ℕ → Filsys × Disk → Filsys × Disk
  freed b s = after s (free b s.0 s.1)

  abbrev pub IsSpace : Filsys × Disk → List ℕ → Type 0
  IsSpace s l = Holds unreadable s.0 s.1 l × (s.0.s_isize ≡ first) × (s.0.s_fsize ≡ last)

  abbrev pub InArea : ℕ → Type 0
  InArea b = ((leb first b && ltb b last) ≡ true) × (b ≢ 0) × (unreadable b ≡ false)

  abbrev pub free_list : Releaser (Filsys × Disk)
  free_list = record {
    free = freed;
    Holds = IsSpace;
    Usable = InArea;
    puts = λ s b l h u out.
        let inside : (leb s.0.s_isize b && ltb b s.0.s_fsize) ≡ true = rw (h.1, h.2) u.0 in
        let (fp, d, e, f) = free_pushes unreadable b s.0 s.1 l h.0 inside u.1 out u.2 in
        subst (λ t. IsSpace t (b ∷ l)) (sym (ap (after s) e))
          (f.holds, f.same_isize ∙ h.1, f.same_fsize ∙ h.2);
  }
