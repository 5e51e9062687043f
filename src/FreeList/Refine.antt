-- ===== src/FreeList/Refine.antt =====
-- Calls of `alloc` and `free` in any legal order behave as a stack of free blocks.
use unix_v7_c.Base.{
  ℕ, ◌≡◌, ◌≢◌, refl, ap, Bool, true, false, ◌&&◌, none, some, List, [], ◌∷◌, leb, ltb, has,
}
use unix_v7_c.FreeList.{Filsys, Disk, allocated, enospc, sleeps, alloc, free}
use unix_v7_c.FreeList.Chain.{Holds}
use unix_v7_c.FreeList.Alloc.{alloc_pops, alloc_empty}
use unix_v7_c.FreeList.Free.{free_pushes}

pub data Op : Type 0 where
  take_block : Op
  give_back : ℕ → Op

pub data Reply : Type 0 where
  got : ℕ → Reply
  no_space : Reply
  done : Reply
  locked : Reply

-- The calls in order, and what each returns.
module _ (unreadable : ℕ → Bool) where
  unfoldable pub run : Filsys → Disk → List Op → List Reply
  run fp d [] = []
  run fp d (take_block ∷ ops) = elim (alloc unreadable fp d) [
    | allocated b fp' d' ↦ got b ∷ run fp' d' ops
    | enospc fp' d' ↦ no_space ∷ run fp' d' ops
    | sleeps ↦ locked ∷ []
  ]
  run fp d (give_back b ∷ ops) = elim (free b fp d) [
    | none ↦ locked ∷ []
    | some (fp', d') ↦ done ∷ run fp' d' ops
  ]

-- The same calls on a stack of block numbers.
unfoldable pub run_stack : List ℕ → List Op → List Reply
run_stack l [] = []
run_stack [] (take_block ∷ ops) = no_space ∷ run_stack [] ops
run_stack (b ∷ l) (take_block ∷ ops) = got b ∷ run_stack l ops
run_stack l (give_back b ∷ ops) = done ∷ run_stack (b ∷ l) ops

-- A block is given back only if it is a readable block of the data area and not free already.
module _ (unreadable : ℕ → Bool) (isize fsize : ℕ) where
  abbrev pub IsLegal : List ℕ → List Op → Type 0
  IsLegal l [] = Unit {0}
  IsLegal [] (take_block ∷ ops) = IsLegal [] ops
  IsLegal (b ∷ l) (take_block ∷ ops) = IsLegal l ops
  IsLegal l (give_back b ∷ ops) =
      ((leb isize b && ltb b fsize) ≡ true)
      × (b ≢ 0)
      × (has b l ≡ false)
      × (unreadable b ≡ false)
      × IsLegal (b ∷ l) ops

-- From a file system with the free list l, any legal calls of `alloc` and `free` return what a stack
-- returns that holds l: none is refused but an `alloc` when all blocks are in use, and no block is
-- handed out again before it is given back.
pub run_refines :
    (unreadable : ℕ → Bool) (ops : List Op) (fp : Filsys) (d : Disk) (l : List ℕ)
    → Holds unreadable fp d l
    → IsLegal unreadable fp.s_isize fp.s_fsize l ops
    → run unreadable fp d ops ≡ run_stack l ops
unfolding run run_stack
run_refines u [] fp d l h ok = refl
run_refines u (take_block ∷ ops) fp d [] h ok =
    let (e, h') = alloc_empty u fp d h in
    rw (e, run) (ap (◌∷◌ no_space) (run_refines u ops (record fp { s_nfree = 0 }) d [] h' ok))
run_refines u (take_block ∷ ops) fp d (b ∷ l) h ok =
    let (fp', d', e, a) = alloc_pops u b l fp d h in
    rw (e, run)
      (ap (◌∷◌ (got b)) (run_refines u ops fp' d' l a.holds (rw (a.same_isize, a.same_fsize) ok)))
run_refines u (give_back b ∷ ops) fp d l h ok =
    let (good, nz, out, readable, later) = ok in
    let (fp', d', e, a) = free_pushes u b fp d l h good nz out readable in
    rw (e, run)
      (ap (◌∷◌ done)
        (run_refines u ops fp' d' (b ∷ l) a.holds (rw (a.same_isize, a.same_fsize) later)))
