-- ===== src/FreeList.antt =====
-- The free block list of a file system: `alloc`, `free` and `badblock` of usr/sys/sys/alloc.c, with
-- h/filsys.h and h/fblk.h.
--
-- The disk is a function from block numbers to blocks, each seen as a `struct fblk`. The buffer
-- cache comes in as `bread` and `bwrite` of the whole block, `unreadable` says which blocks come
-- back with B_ERROR. Messages on the console (`prdev`) are left out. The counts, short in C, are
-- negative only on a damaged disk, and are numbers here.
pub mod Chain
pub mod Free
pub mod Alloc
pub mod Refine
pub mod Spare
mod Tests
use unix_v7_c.Base.{
  ℕ, zero, suc, ◌+◌, ◌-◌, Bool, true, false, ◌||◌, Option, none, some, List, [], ◌∷◌, ltb, leb,
  ◌==◌, if◌then◌else◌, get_elem?, set, replicate, get_or,
}

-- NICFREE of h/param.h
abbrev pub nicfree : ℕ
nicfree = 50

-- `struct fblk`
pub record Fblk : Type 0 where
  pub df_nfree : ℕ
  pub df_free : List ℕ

-- The part of `struct filsys` that the free block list uses.
pub record Filsys : Type 0 where
  pub s_isize : ℕ
  pub s_fsize : ℕ
  pub s_nfree : ℕ
  pub s_free : List ℕ
  pub s_flock : Bool
  pub s_fmod : Bool

abbrev pub Disk : Type 0
Disk = ℕ → Fblk

abbrev pub write : Disk → ℕ → Fblk → Disk
write d b v c = if b == c then v else d c

-- what `clrbuf` leaves in a block
abbrev pub cleared : Fblk
cleared = record { df_nfree = 0; df_free = replicate nicfree 0 }

-- How a call ends. It sleeps while the list is locked, and then starts over.
pub data Allocation : Type 0 where
  allocated : ℕ → Filsys → Disk → Allocation
  enospc : Filsys → Disk → Allocation
  sleeps : Allocation

-- `badblock`
pub badblock : Filsys → ℕ → Bool
badblock fp bn = ltb bn fp.s_isize || leb fp.s_fsize bn

-- The do-while loop of `alloc`, on the number of entries left; `none` is `goto nospace`.
pub next_block : ℕ → Filsys → Option (ℕ × Filsys)
unfolding badblock
next_block zero fp = none
next_block (suc n) fp =
    let fp' : Filsys = record fp { s_nfree = n } in
    let bno = get_or fp.s_free n 0 in
    let again = next_block n fp' in
    if ltb nicfree (suc n)
    then none
    else if bno == 0
    then none
    else if badblock fp bno
    then again
    else some (bno, fp')

-- `nospace:`
abbrev pub nospace : Filsys → Disk → Allocation
nospace fp d = enospc (record fp { s_nfree = 0 }) d

module _ (unreadable : ℕ → Bool) where
  -- `if(fp->s_nfree <= 0)` after the loop: the block taken holds the next part of the list.
  pub refill : ℕ → Filsys → Disk → Filsys
  refill bno fp d =
      if leb fp.s_nfree 0
      then (if unreadable bno
          then fp
          else record fp { s_nfree = (d bno).df_nfree; s_free = (d bno).df_free })
      else fp

  pub finish : ℕ → Filsys → Disk → Allocation
  finish bno fp d =
      if leb fp.s_nfree 0
      then nospace fp d
      else allocated bno (record fp { s_fmod = true }) (write d bno cleared)

  pub take : Option (ℕ × Filsys) → Filsys → Disk → Allocation
  unfolding refill finish
  take none fp d = nospace fp d
  take (some (bno, fp')) fp d = finish bno (refill bno fp' d) d

  -- `alloc`
  unfoldable pub alloc : Filsys → Disk → Allocation
  unfolding take next_block
  alloc fp d = if fp.s_flock then sleeps else take (next_block fp.s_nfree fp) fp d

-- "s_nfree <= 0": an empty list gets its end mark.
pub start_list : Filsys → Filsys
start_list fp =
    if leb fp.s_nfree 0 then record fp { s_nfree = 1; s_free = set fp.s_free 0 0 } else fp

-- A full list goes into the block that is freed.
pub spill : ℕ → Filsys → Disk → Filsys × Disk
spill bno fp d =
    if leb nicfree fp.s_nfree
    then (
      record fp { s_nfree = 0 },
      write d bno (record { df_nfree = fp.s_nfree; df_free = fp.s_free }),
    )
    else (fp, d)

pub push : ℕ → Filsys → Filsys
push bno fp = record fp {
  s_nfree = fp.s_nfree + 1;
  s_free = set fp.s_free fp.s_nfree bno;
  s_fmod = true;
}

-- `free`; `none` while the list is locked.
pub free : ℕ → Filsys → Disk → Option (Filsys × Disk)
unfolding badblock start_list spill push
free bno fp d =
    let fp' : Filsys = record fp { s_fmod = true } in
    if fp.s_flock
    then none
    else if badblock fp bno
    then some (fp', d)
    else (let (fp'', d') = spill bno (start_list fp') d in some (push bno fp'', d'))
