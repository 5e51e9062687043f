-- ===== src/Inode/Table.antt =====
-- The table of i-nodes in core: `iget` and `iput` of usr/sys/sys/iget.c.
--
-- The table is a function from indices below `ninode`, and `i_count` is a number without a bound.
-- Reading an i-node from the disk is the parameter `dinode`, whose `none` is B_ERROR; `iexpand` is
-- part of it. The constructors of `Put` say what `iput` does with the disk: it truncates and frees
-- the i-node, writes it, finds it unchanged, or keeps it for others. The processes that `prele` wakes
-- are not modelled, and `iput` is called with at least one reference.
pub mod Scan
pub mod Unique
pub mod Outcomes
pub mod Pass
pub mod Twice
mod Tests
use unix_v7_c.Inode.{file_type, ifreg, ifdir}
use unix_v7_c.Base.{
  ℕ, zero, suc, ◌+◌, ◌-◌, Bool, true, false, ◌&&◌, ◌||◌, not, Option, none, some, List, [], ◌∷◌,
  ◌==◌, if◌then◌else◌,
}

-- What is read from the disk.
pub record Dinode : Type 0 where
  pub di_mode : ℕ
  pub di_nlink : ℕ
  pub di_size : ℕ
  pub di_addr : List ℕ

-- `struct inode`, with its flags ILOCK, IMOUNT, IWANT, and IUPD, IACC or ICHG as `changed`.
pub record Entry : Type 0 where
  pub i_dev : ℕ
  pub i_number : ℕ
  pub i_count : ℕ
  pub locked : Bool
  pub mounted : Bool
  pub wanted : Bool
  pub changed : Bool
  pub i_lastr : ℕ
  pub disk : Dinode

-- `struct mount`: the device, and the index of the i-node that it is mounted on.
pub record Mount : Type 0 where
  pub m_dev : ℕ
  pub m_inodp : ℕ

abbrev pub Inodes : Type 0
Inodes = ℕ → Entry

abbrev pub put : Inodes → ℕ → Entry → Inodes
put inode k e x = if x == k then e else inode x

abbrev pub rootino : ℕ
rootino = 2

-- What the loop over the table finds: the i-node, or the first free place.
pub data Found : Type 0 where
  hit : ℕ → Found
  missing : Option ℕ → Found

-- "ino == ip->i_number && dev == ip->i_dev"
abbrev pub is_it : ℕ → ℕ → Entry → Bool
is_it dev ino e = (ino == e.i_number) && (dev == e.i_dev)

-- "if(oip==NULL && ip->i_count==0) oip = ip"
abbrev pub first_free : Option ℕ → ℕ → Entry → Option ℕ
first_free (some o) k e = some o
first_free none k e = if e.i_count == 0 then some k else none

-- The loop, over the n entries from k on.
pub scan : (n k dev ino : ℕ) → Option ℕ → Inodes → Found
scan zero k dev ino oip inode = missing oip
scan (suc n) k dev ino oip inode =
    let rest = scan n (k + 1) dev ino (first_free oip k (inode k)) inode in
    if is_it dev ino (inode k) then hit k else rest

-- The device that is mounted on the i-node with index k.
pub mounted_on : ℕ → List Mount → Option ℕ
mounted_on k [] = none
mounted_on k (mp ∷ mount) =
    let rest = mounted_on k mount in if mp.m_inodp == k then some mp.m_dev else rest

-- How one pass of `iget` ends: it sleeps and starts over, starts over with the root of another
-- device, panics, finds the table full, cannot read the i-node, or has it.
pub data Outcome : Type 0 where
  sleeps : Inodes → Outcome
  crosses : (dev ino : ℕ) → Outcome
  panics : Outcome
  overflows : Outcome
  unreadable : Inodes → Outcome
  got : ℕ → Inodes → Outcome

pub data Put : Type 0 where
  freed : Inodes → Put
  written : Inodes → Put
  unused : Inodes → Put
  kept : Inodes → Put

abbrev pub zeros : List ℕ → List ℕ
zeros [] = []
zeros (a ∷ rest) = 0 ∷ zeros rest

-- What `itrunc` and "ip->i_mode = 0" leave of an i-node.
abbrev pub erased : Dinode → Dinode
erased d =
    if (file_type d.di_mode == ifreg) || (file_type d.di_mode == ifdir)
    then record d { di_mode = 0; di_size = 0; di_addr = zeros d.di_addr }
    else record d { di_mode = 0 }

-- `iput`: the last reference frees the i-node if no directory has it, and takes the entry out.
pub iput : ℕ → Inodes → Put
iput k inode =
    let ip = inode k in
    let out = record ip {
      i_number = 0;
      i_count = 0;
      locked = false;
      mounted = false;
      wanted = false;
      changed = false;
    } in
    if ip.i_count == 1
    then (if ip.disk.di_nlink == 0
        then freed (put inode k (record out { disk = erased ip.disk }))
        else if ip.changed
        then written (put inode k out)
        else unused (put inode k out))
    else kept (put inode k (record ip { i_count = ip.i_count - 1; locked = false; wanted = false }))

abbrev pub table_of : Put → Inodes
table_of (freed t) = t
table_of (written t) = t
table_of (unused t) = t
table_of (kept t) = t

-- A new entry, before it is read.
abbrev pub entered : ℕ → ℕ → Entry → Entry
entered dev ino ip = record ip {
  i_dev = dev;
  i_number = ino;
  i_count = ip.i_count + 1;
  locked = true;
  mounted = false;
  wanted = false;
  changed = false;
  i_lastr = 0;
}

-- The search of the table of mounted devices ended.
abbrev pub over : Option ℕ → Outcome
over none = panics
over (some m_dev) = crosses m_dev rootino

abbrev pub and_again : Outcome → (ℕ → ℕ → Option Outcome) → Option Outcome
and_again (crosses dev ino) again = again dev ino
and_again (sleeps t) again = some (sleeps t)
and_again panics again = some panics
and_again overflows again = some overflows
and_again (unreadable t) again = some (unreadable t)
and_again (got k t) again = some (got k t)

module _ (ninode : ℕ) (dinode : ℕ → ℕ → Option Dinode) (mount : List Mount) where
  -- An entry is filled, or given back if the disk cannot be read.
  pub fill : (dev ino k : ℕ) → Option Dinode → Inodes → Outcome
  unfolding iput
  fill dev ino k none inode =
      let ip = entered dev ino (inode k) in
      let one_link = record ip { disk = record ip.disk { di_nlink = 1 } } in
      unreadable (table_of (iput k (put inode k one_link)))
  fill dev ino k (some d) inode =
      got k (put inode k (record (entered dev ino (inode k)) { disk = d }))

  pub after_scan : ℕ → ℕ → Inodes → Found → Outcome
  unfolding mounted_on fill
  after_scan dev ino inode (hit k) =
      let ip = inode k in
      if ip.locked
      then sleeps (put inode k (record ip { wanted = true }))
      else if ip.mounted
      then over (mounted_on k mount)
      else got k (put inode k (record ip { i_count = ip.i_count + 1; locked = true }))
  after_scan dev ino inode (missing none) = overflows
  after_scan dev ino inode (missing (some k)) = fill dev ino k (dinode dev ino) inode

  -- One pass of `iget`, from the label `loop` on.
  pub pass : ℕ → ℕ → Inodes → Outcome
  unfolding scan after_scan
  pass dev ino inode = after_scan dev ino inode (scan ninode 0 dev ino none inode)

  -- `iget`, with as many passes as it crosses mounted devices; `none` is one more.
  pub iget : ℕ → ℕ → ℕ → Inodes → Option Outcome
  unfolding pass
  iget zero dev ino inode = none
  iget (suc n) dev ino inode = and_again (pass dev ino inode) (λ dev' ino'. iget n dev' ino' inode)
