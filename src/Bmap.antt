-- ===== src/Bmap.antt =====
-- The map from a file's logical blocks to blocks of the device: `bmap` of usr/sys/sys/subr.c, with
-- h/inode.h and h/param.h.
--
-- An indirect block is the list of the addresses in it, and the buffer cache comes in as a function
-- from block numbers to such blocks; `unreadable` says which come back with B_ERROR. `alloc` is a
-- parameter, with what it does to its own state: FreeList fills it. A buffer that `alloc` returns is
-- cleared.
pub mod Node
pub mod Grow
pub mod Reach
pub mod Walk
pub mod Numbers
pub mod Write
pub mod Read
pub mod After
pub mod Space
mod Tests
use unix_v7_c.Base.{
  ℕ, zero, suc, ◌+◌, ◌-◌, ◌*◌, ◌/◌, ◌%◌, ◌^◌, Bool, true, false, Option, none, some, List, [], ◌∷◌,
  ltb, ◌==◌, if◌then◌else◌, set, replicate, get_or,
}
use unix_v7_c.Base.Int.{ℤ, pos, negsuc}

-- NADDR of h/inode.h
abbrev pub naddr : ℕ
naddr = 13

-- NINDIR of h/param.h
abbrev pub nindir : ℕ
nindir = 128

-- NSHIFT of h/param.h
abbrev pub nshift : ℕ
nshift = 7

-- What `bmap` reads and writes: the addresses of the inode and its flags IUPD and ICHG, the
-- indirect blocks, the state of `alloc`, and the globals `rablock` and `u.u_error`.
pub record State (S : Type 0) : Type 0 where
  pub i_addr : List ℕ
  pub changed : Bool
  pub blocks : ℕ → List ℕ
  pub space : S
  pub rablock : ℕ
  pub efbig : Bool

module _ {S : Type 0} (alloc : S → Option ℕ × S) (writing : Bool) where
  -- A new block, written cleared; `none` is the return of -1.
  pub new_block : State S → Option ℕ × State S
  new_block s = if writing then cleared (alloc s.space) else (none, s)
    where
      cleared : Option ℕ × S → Option ℕ × State S
      cleared (none, space) = (none, record s { space = space })
      cleared (some nb, space) = (
        some nb,
        record s {
          space = space;
          blocks = λ c. if nb == c then replicate nindir 0 else s.blocks c;
        },
      )

  -- An address in the inode.
  pub inode_block : ℕ → State S → Option ℕ × State S
  unfolding new_block
  inode_block i s =
      if get_or s.i_addr i 0 == 0 then store (new_block s) else (some (get_or s.i_addr i 0), s)
    where
      store : Option ℕ × State S → Option ℕ × State S
      store (none, t) = (none, t)
      store (some nb, t) = (some nb, record t { i_addr = set t.i_addr i nb; changed = true })

  -- An address in the indirect block nb.
  pub indirect_block : ℕ → ℕ → State S → Option ℕ × State S
  unfolding new_block
  indirect_block nb i s =
      if get_or (s.blocks nb) i 0 == 0
      then store (new_block s)
      else (some (get_or (s.blocks nb) i 0), s)
    where
      store : Option ℕ × State S → Option ℕ × State S
      store (none, t) = (none, t)
      store (some b, t) =
          (some b, record t { blocks = λ c. if nb == c then set (s.blocks nb) i b else t.blocks c })

-- A return of -1, or the rest of the call.
pub and_then : {S : Type 0} → Option ℕ × State S → (ℕ → State S → ℤ × State S) → ℤ × State S
and_then (none, t) rest = (negsuc 0, t)
and_then (some b, t) rest = rest b t

-- "calculate read-ahead" behind the address i of a table with `last` as its last index
pub read_ahead : {S : Type 0} → ℕ → ℕ → List ℕ → State S → State S
read_ahead last i addresses s =
    if ltb i last then record s { rablock = get_or addresses (i + 1) 0 } else s

-- "the first step is to determine how many levels of indirection": j, sh and bn as the loop
-- leaves them, for j, sh, nb and bn as it finds them.
pub levels : ℕ → ℕ → ℕ → ℕ → ℕ × ℕ × ℕ
levels zero sh nb bn = (0, sh, bn)
levels (suc j) sh nb bn =
    let sh' = sh + nshift in
    let nb' = nb * 2 ^ nshift in
    let rest = levels j sh' nb' (bn - nb') in if ltb bn nb' then (suc j, sh', bn) else rest

module _ {S : Type 0} (alloc : S → Option ℕ × S) (unreadable : ℕ → Bool) (writing : Bool) where
  -- "fetch through the indirect blocks", in as many rounds as there are levels left; `prev` and `i`
  -- are the block and the index of the round before.
  pub through : ℕ → ℕ → ℕ → ℕ → ℕ → ℕ → State S → ℤ × State S
  unfolding indirect_block and_then read_ahead
  through zero bn sh nb prev i s = (pos nb, read_ahead (nindir - 1) i (s.blocks prev) s)
  through (suc n) bn sh nb prev i s =
      let sh' = sh - nshift in
      let i' = bn / 2 ^ sh' % nindir in
      if unreadable nb
      then (pos 0, s)
      else and_then (indirect_block alloc writing nb i' s) (λ b t. through n bn sh' b nb i' t)

  -- After the loop: j levels of four are left out.
  pub indirect : ℕ × ℕ × ℕ → State S → ℤ × State S
  unfolding inode_block and_then through
  indirect (zero, sh, bn) s = (pos 0, record s { efbig = true })
  indirect (suc j, sh, bn) s =
      and_then (inode_block alloc writing (naddr - suc j) s)
        (λ nb t. through (4 - suc j) bn sh nb 0 0 t)

  -- `bmap`
  pub bmap : ℤ → State S → ℤ × State S
  unfolding inode_block and_then read_ahead levels indirect
  bmap (negsuc n) s = (pos 0, record s { efbig = true })
  bmap (pos bn) s =
      let t : State S = record s { rablock = 0 } in
      if ltb bn (naddr - 3)
      then and_then (inode_block alloc writing bn t)
          (λ nb t'. (pos nb, read_ahead (naddr - 4) bn t'.i_addr t'))
      else indirect (levels 3 0 1 (bn - (naddr - 3))) t
