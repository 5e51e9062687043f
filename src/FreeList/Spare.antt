-- ===== src/FreeList/Spare.antt =====
-- `getfs` and `ifree` of usr/sys/sys/alloc.c: finding a super block, and the spare i-nodes in it.
use unix_v7_c.Base.{
  ℕ, ◌+◌, Bool, true, ◌&&◌, ◌||◌, Option, none, some, List, [], ◌∷◌, leb, ltb, ◌==◌, if◌then◌else◌,
  set,
}
use unix_v7_c.FreeList.{nicfree}

-- NICINOD
abbrev pub nicinod : ℕ
nicinod = 100

-- s_nfree, s_ninode, s_inode, s_ilock and s_fmod of `struct filsys`
pub record Spare : Type 0 where
  pub s_nfree : ℕ
  pub s_ninode : ℕ
  pub s_inode : List ℕ
  pub s_ilock : Bool
  pub s_fmod : Bool

-- `struct mount`: m_bufp is not NULL, m_dev, and the super block in the buffer
pub record Mount : Type 0 where
  pub mounted : Bool
  pub m_dev : ℕ
  pub filsys : Spare

-- The check of the counts.
pub checked : Spare → Spare
checked fp =
    if ltb nicfree fp.s_nfree || ltb nicinod fp.s_ninode
    then record fp { s_nfree = 0; s_ninode = 0 }
    else fp

-- `getfs`: the super block and the table, or `none` for the panic
pub getfs : ℕ → List Mount → Option (Spare × List Mount)
unfolding checked
getfs dev [] = none
getfs dev (mp ∷ ms) =
    let fp = checked mp.filsys in
    let rest = getfs dev ms in
    if mp.mounted && (mp.m_dev == dev)
    then some (fp, record mp { filsys = fp } ∷ ms)
    else elim rest [ none ↦ none | some (found, ms') ↦ some (found, mp ∷ ms') ]

-- `ifree`, on the super block that `getfs` finds
pub ifree : ℕ → Spare → Spare
ifree ino fp = if fp.s_ilock then fp else if leb nicinod fp.s_ninode then fp else record fp {
  s_inode = set fp.s_inode fp.s_ninode ino;
  s_ninode = fp.s_ninode + 1;
  s_fmod = true;
}
