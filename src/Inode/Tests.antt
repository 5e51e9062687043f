-- ===== src/Inode/Tests.antt =====
-- A file of three blocks: a block of data, and an indirect block with one address.
use unix_v7_c.Base.{
  ℕ, ◌≡◌, refl, Bool, true, false, inl, inr, List, [], ◌∷◌, ◌++◌, arith, ◌==◌, replicate,
  if◌then◌else◌,
}
use unix_v7_c.FreeList.{Filsys, Disk, cleared}
use unix_v7_c.Bmap.{naddr}
use unix_v7_c.Inode.{Inode, itrunc}
use unix_v7_c.Inode.Truncate.{file_blocks, itrunc-file_blocks}
use unix_v7_c.Inode.Space.{free_list, freed, IsSpace}

abbrev readable : ℕ → Bool
readable b = false

abbrev super : Filsys
super = record {
  s_isize = 2;
  s_fsize = 10;
  s_nfree = 2;
  s_free = 0 ∷ 7 ∷ replicate 48 0;
  s_flock = false;
  s_fmod = false;
}

abbrev blank : Disk
blank b = cleared

super-IsSpace : IsSpace readable 2 10 (super, blank) (7 ∷ [])
super-IsSpace = (
  record {
    unlocked = refl;
    array = refl;
    chain =
        (omega arith, omega arith, refl, omega arith, refl, inr (omega arith, inr (refl, refl)));
    distinct = (refl, tt);
  },
  refl,
  refl,
)

abbrev tables : ℕ → List ℕ
tables c = if c == 4 then 0 ∷ 5 ∷ replicate 126 0 else replicate 128 0

abbrev file : Inode
file = record {
  i_mode = 33188;
  i_addr = 3 ∷ 0 ∷ 0 ∷ 0 ∷ 0 ∷ 0 ∷ 0 ∷ 0 ∷ 0 ∷ 0 ∷ 4 ∷ 0 ∷ 0 ∷ [];
  i_size = 6000;
  changed = false;
}

itrunc-file_blocks_example :
    ((itrunc (freed readable 2 10) tables readable file (super, blank)).0
      ≡ record file { i_addr = replicate naddr 0; i_size = 0; changed = true })
    × IsSpace readable 2 10
        (itrunc (freed readable 2 10) tables readable file (super, blank)).1
        (file_blocks tables 0 file.i_addr ++ (7 ∷ []))
itrunc-file_blocks_example =
    itrunc-file_blocks (free_list readable 2 10) tables readable (λ c. refl) file (super, blank)
      (7 ∷ []) super-IsSpace refl (inl refl)
      ((refl, omega arith, refl), ((refl, omega arith, refl), ((refl, omega arith, refl), tt)))
      (refl, (refl, (refl, (refl, tt))))

in_order : file_blocks tables 0 file.i_addr ≡ 3 ∷ 4 ∷ 5 ∷ []
in_order = refl
