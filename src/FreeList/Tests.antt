-- ===== src/FreeList/Tests.antt =====
-- A small file system: blocks 2 to 9, of which 5 and 6 are free.
use unix_v7_c.Base.{ℕ, ◌≡◌, refl, Bool, false, some, inr, List, [], ◌∷◌, arith, replicate}
use unix_v7_c.FreeList.{Filsys, Disk, cleared, alloc, free}
use unix_v7_c.FreeList.Chain.{Holds}
use unix_v7_c.FreeList.Free.{Frees, free_pushes}
use unix_v7_c.FreeList.Refine.{
  Op, take_block, give_back, got, no_space, done, run, run_stack, run_refines,
}

abbrev readable : ℕ → Bool
readable b = false

abbrev blank : Disk
blank b = cleared

abbrev small : Filsys
small = record {
  s_isize = 2;
  s_fsize = 10;
  s_nfree = 3;
  s_free = 0 ∷ 5 ∷ 6 ∷ replicate 47 0;
  s_flock = false;
  s_fmod = false;
}

small-Holds : Holds readable small blank (6 ∷ 5 ∷ [])
small-Holds = record {
  unlocked = refl;
  array = refl;
  chain = (
    omega arith,
    omega arith,
    refl,
    omega arith,
    refl,
    inr (
      omega arith,
      (omega arith, omega arith, refl, omega arith, refl, inr (omega arith, inr (refl, refl))),
    ),
  );
  distinct = (refl, (refl, tt));
}

abbrev used_up : Filsys
used_up = record small { s_nfree = 1 }

used_up-Holds : Holds readable used_up blank []
used_up-Holds = record { unlocked = refl; array = refl; chain = inr (refl, refl); distinct = tt }

free_pushes_example :
    (fp' : Filsys) × (d' : Disk) × (free 7 small blank ≡ some (fp', d'))
    × Frees readable 7 small blank (6 ∷ 5 ∷ []) fp' d'
free_pushes_example =
    free_pushes readable 7 small blank (6 ∷ 5 ∷ []) small-Holds refl (omega arith) refl refl

abbrev script : List Op
script = take_block ∷ give_back 7 ∷ take_block ∷ take_block ∷ take_block ∷ []

script_runs : run readable small blank script ≡ got 6 ∷ done ∷ got 7 ∷ got 5 ∷ no_space ∷ []
unfolding run alloc free
script_runs = refl

run_refines_example : run readable small blank script ≡ run_stack (6 ∷ 5 ∷ []) script
run_refines_example =
    run_refines readable script small blank (6 ∷ 5 ∷ []) small-Holds
      (refl, omega arith, refl, refl, tt)
