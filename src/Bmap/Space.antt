-- ===== src/Bmap/Space.antt =====
-- The free block list of a file system, as the `alloc` that `bmap` calls.
use unix_v7_c.Base.{ℕ, ap, Bool, Option, none, some}
use unix_v7_c.FreeList.{Filsys, Disk, Allocation, allocated, enospc, sleeps, alloc}
use unix_v7_c.FreeList.Chain.{Holds}
use unix_v7_c.FreeList.Alloc.{alloc_pops}
use unix_v7_c.Bmap.Reach.{Allocator}

-- The block of the buffer that `alloc` returns, or NULL. The call waits while the list is locked.
abbrev outcome : Filsys × Disk → Allocation → Option ℕ × (Filsys × Disk)
outcome s (allocated b fp d) = (some b, (fp, d))
outcome s (enospc fp d) = (none, (fp, d))
outcome s sleeps = (none, s)

module _ (unreadable : ℕ → Bool) where
  abbrev pub alloc_buffer : Filsys × Disk → Option ℕ × (Filsys × Disk)
  alloc_buffer s = outcome s (alloc unreadable s.0 s.1)

  abbrev pub free_list : Allocator (Filsys × Disk)
  free_list = record {
    alloc = alloc_buffer;
    Holds = λ s l. Holds unreadable s.0 s.1 l;
    takes = λ s b l h.
        let (fp, d, e, a) = alloc_pops unreadable b l s.0 s.1 h in
        ((fp, d), ap (outcome s) e, a.holds);
  }
