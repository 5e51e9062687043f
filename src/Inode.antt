-- ===== src/Inode.antt =====
-- I-nodes: `itrunc` and `tloop` of usr/sys/sys/iget.c.
--
-- The indirect blocks come in as a function from block numbers to the addresses in them, with
-- `unreadable` for those that come back with B_ERROR; truncating changes none of them. `free` is a
-- parameter, with what it does to its own state.
pub mod Truncate
pub mod Space
pub mod Table
mod Tests
use unix_v7_c.Base.{
  ℕ, zero, suc, ◌+◌, ◌*◌, ◌/◌, ◌%◌, Bool, true, false, ◌||◌, List, [], ◌∷◌, ltb, ◌==◌,
  if◌then◌else◌,
}
use unix_v7_c.Bmap.{naddr}
use unix_v7_c.Base.{◌-◌}

-- IFMT, IFREG and IFDIR of h/inode.h: the type of a file is in bits 12 to 15 of its mode.
abbrev pub file_type : ℕ → ℕ
file_type mode = mode / 4096 % 16

abbrev pub ifdir : ℕ
ifdir = 4

abbrev pub ifreg : ℕ
ifreg = 8

-- The part of `struct inode` that `itrunc` uses; `changed` is for the flags ICHG and IUPD.
pub record Inode : Type 0 where
  pub i_mode : ℕ
  pub i_addr : List ℕ
  pub i_size : ℕ
  pub changed : Bool

-- The loops from the last address down to the first, which leave out the holes.
pub sweep : {S : Type 0} → (ℕ → S → S) → List ℕ → S → S
sweep release [] s = s
sweep release (a ∷ rest) s = let s' = sweep release rest s in if a == 0 then s' else release a s'

module _ {S : Type 0} (free : ℕ → S → S) (blocks : ℕ → List ℕ) (unreadable : ℕ → Bool) where
  -- `tloop` with `f1` and `f2` as a number: 0 for neither, 1 for `f1` only, 2 for both.
  pub tloop : ℕ → ℕ → S → S
  unfolding sweep
  tloop zero bn s = if unreadable bn then s else free bn (sweep free (blocks bn) s)
  tloop (suc f) bn s = if unreadable bn then s else free bn (sweep (tloop f) (blocks bn) s)

  -- The switch of `itrunc` on the index of the address.
  pub release_slot : ℕ → ℕ → S → S
  unfolding tloop
  release_slot i bn s =
      if i == naddr - 3
      then tloop 0 bn s
      else if i == naddr - 2
      then tloop 1 bn s
      else if i == naddr - 1
      then tloop 2 bn s
      else free bn s

  -- The loop of `itrunc` over the addresses from index i on, and the addresses that it leaves.
  pub release_all : ℕ → List ℕ → S → List ℕ × S
  unfolding release_slot
  release_all i [] s = ([], s)
  release_all i (bn ∷ rest) s =
      let done = release_all (suc i) rest s in
      if bn == 0 then (bn ∷ done.0, done.1) else (0 ∷ done.0, release_slot i bn done.1)

  -- `itrunc`
  pub itrunc : Inode → S → Inode × S
  unfolding release_all
  itrunc ip s =
      let done = release_all 0 ip.i_addr s in
      if (file_type ip.i_mode == ifreg) || (file_type ip.i_mode == ifdir)
      then (record ip { i_addr = done.0; i_size = 0; changed = true }, done.1)
      else (ip, s)
