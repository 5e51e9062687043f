-- ===== src/Inode/Table/Tests.antt =====
-- A table of three entries: device 2 is mounted on i-node 5 of device 1.
use unix_v7_c.Base.{
  ℕ, ◌≡◌, refl, true, false, ◌==◌, some, none, Option, [], ◌∷◌, List, arith, inl, inr, Bool-cases,
  subst, sym, if◌then◌else◌,
}
use unix_v7_c.Inode.Table.{
  Inodes, Entry, Dinode, Mount, put, is_it, pass, iget, iput, table_of, got, rootino,
}
use unix_v7_c.Inode.Table.Unique.{Unique, put-fresh, put_here, put_there}
use unix_v7_c.Inode.Table.Outcomes.{Sound}
use unix_v7_c.Inode.Table.Pass.{pass-Sound}
use unix_v7_c.Inode.Table.Twice.{Answer, Flat, iget-Answer}

abbrev blank : Dinode
blank = record { di_mode = 0; di_nlink = 1; di_size = 0; di_addr = [] }

abbrev empty : Inodes
empty x = record {
  i_dev = 0;
  i_number = 0;
  i_count = 0;
  locked = false;
  mounted = false;
  wanted = false;
  changed = false;
  i_lastr = 0;
  disk = blank;
}

abbrev usr : Entry
usr = record {
  i_dev = 1;
  i_number = 5;
  i_count = 1;
  locked = false;
  mounted = true;
  wanted = false;
  changed = false;
  i_lastr = 0;
  disk = blank;
}

abbrev core : Inodes
core = put empty 0 usr

abbrev mount : List Mount
mount = record { m_dev = 2; m_inodp = 0 } ∷ []

abbrev dinode : ℕ → ℕ → Option Dinode
dinode dev ino = if dev == 2 then some blank else none

core-Unique : Unique 3 core
core-Unique = put-fresh 3 0 usr empty (λ j k lj lk en ed nz. absurd (nz refl)) (λ x lx. refl)

pass-Sound_example : Sound 3 dinode mount 1 5 core (pass 3 dinode mount 1 5 core)
pass-Sound_example = pass-Sound 3 dinode mount 1 5 core core-Unique

core-Flat : Flat mount core
core-Flat k d x m it = elim (Bool-cases (x == 0)) [
  | inl e ↦
      let here = put_here empty 0 usr x e in
      let it' = subst (λ y. is_it d rootino y ≡ true) here it in absurd (ground (arith, it'))
  | inr e ↦ subst (λ y. y.mounted ≡ false) (sym (put_there empty 0 usr x e)) refl
]

iget-Answer_example : Answer 3 dinode mount 1 5 core (iget 3 dinode mount 2 1 5 core)
iget-Answer_example = iget-Answer 3 dinode mount 0 1 5 core core-Unique core-Flat

-- The root of device 2 is read into the entry 1.
iget_crosses :
    iget 3 dinode mount 2 1 5 core
    ≡ some (
        got 1 (
          put core 1 (record {
            i_dev = 2;
            i_number = 2;
            i_count = 1;
            locked = true;
            mounted = false;
            wanted = false;
            changed = false;
            i_lastr = 0;
            disk = blank;
          })))
unfolding iget
iget_crosses = refl

-- An i-node that no directory has is taken out.
iput_frees :
    (table_of (iput 0 (put empty 0 (record usr { mounted = false })))) 0
    ≡ record (empty 0) { i_dev = 1 }
unfolding iput
iput_frees = refl
