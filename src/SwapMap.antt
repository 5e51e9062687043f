-- ===== src/SwapMap.antt =====
-- The first-fit allocator of usr/sys/sys/malloc.c (`malloc`, `mfree`), h/map.h, and `swapfits` of
-- sys/slp.c. It serves swap space and the pages of user page tables.
--
-- A map is the whole array of entries. An entry of size 0 ends the list of the free areas; what
-- stands behind it matters too, since `mfree` overwrites it and relies on the next entry being 0.
-- `none` is an access behind the array. Addresses and sizes are block or page numbers, far from
-- the limits of an int, so they are plain numbers.
pub mod Invariant
mod Shift
pub mod Malloc
pub mod Mfree
pub mod Canonical
pub mod Fits
mod Tests
use mathlib.Core.Option
use unix_v7_c.Base.{
  ℕ, zero, suc, ◌+◌, ◌-◌, ◌*◌, Bool, true, false, not, ◌&&◌, Option, none, some, List, [], ◌∷◌, leb,
  ◌==◌, if◌then◌else◌,
}

-- `struct map`
pub record Entry : Type 0 where
  pub m_size : ℕ
  pub m_addr : ℕ

abbrev pub Map : Type 0
Map = List Entry

abbrev pub cons? : Entry → Option Map → Option Map
cons? e none = none
cons? e (some m) = some (e ∷ m)

-- The do-while loop of `malloc`, with bp at the first entry: the entries behind it move down, up to
-- the entry of size 0.
pub move_down : Map → Option Map
move_down [] = none
move_down (e ∷ []) = none
move_down (e ∷ f ∷ r) =
    let rest = move_down (f ∷ r) in if f.m_size == 0 then some (f ∷ f ∷ r) else cons? f rest

abbrev pub with_addr : ℕ → Option Map → Option (ℕ × Map)
with_addr a none = none
with_addr a (some m) = some (a, m)

abbrev pub behind : Entry → Option (ℕ × Map) → Option (ℕ × Map)
behind e none = none
behind e (some (a, m)) = some (a, e ∷ m)

-- `malloc`, with bp at the first entry. The address 0 says that there is no such area.
pub malloc : ℕ → Map → Option (ℕ × Map)
unfolding move_down
malloc size [] = none
malloc size (e ∷ r) =
    let rest = malloc size r in
    if e.m_size == 0
    then some (0, e ∷ r)
    else if leb size e.m_size
    then (let e' : Entry = record { m_size = e.m_size - size; m_addr = e.m_addr + size } in
        with_addr e.m_addr (if e'.m_size == 0 then move_down (e' ∷ r) else some (e' ∷ r)))
    else behind e rest

-- `while (bp->m_size)` in `mfree`, with bp at the first entry
pub close_gap : Map → Option Map
close_gap [] = none
close_gap (e ∷ []) = if e.m_size == 0 then some (e ∷ []) else none
close_gap (e ∷ f ∷ r) =
    let rest = close_gap (f ∷ r) in if e.m_size == 0 then some (e ∷ f ∷ r) else cons? f rest

-- The do-while loop of `mfree`: the entries from bp on move up by one, and the new one goes first.
-- It stops when it has overwritten an entry of size 0.
pub move_up : ℕ → ℕ → Map → Option Map
move_up size a [] = none
move_up size a (e ∷ r) =
    let new : Entry = record { m_size = size; m_addr = a } in
    let rest = move_up e.m_size e.m_addr r in
    if e.m_size == 0 then some (new ∷ r) else cons? new rest

-- The else branch of `mfree`: the area does not join the entry before bp.
pub free_here : ℕ → ℕ → Map → Option Map
unfolding move_up
free_here size a [] = none
free_here size a (e ∷ r) =
    if (a + size == e.m_addr) && not (e.m_size == 0)
    then some (record { m_size = e.m_size + size; m_addr = e.m_addr - size } ∷ r)
    else if size == 0
    then some (e ∷ r)
    else move_up size a (e ∷ r)

-- The first branch: the area joins the entry p before bp, and perhaps the one at bp too.
pub join : ℕ → ℕ → Entry → Map → Option Map
unfolding close_gap
join size a p [] = none
join size a p (e ∷ r) =
    if a + size == e.m_addr
    then cons? (record p { m_size = p.m_size + size + e.m_size }) (close_gap (e ∷ r))
    else some (record p { m_size = p.m_size + size } ∷ e ∷ r)

-- the test of the for loop of `mfree`
abbrev pub passes : ℕ → Entry → Bool
passes a e = leb e.m_addr a && not (e.m_size == 0)

-- The for loop of `mfree` with p at bp-1, and what follows it.
pub free_behind : ℕ → ℕ → Entry → Map → Option Map
unfolding join free_here
free_behind size a p [] = none
free_behind size a p (e ∷ r) =
    let rest = free_behind size a e r in
    if passes a e
    then cons? p rest
    else if p.m_addr + p.m_size == a
    then join size a p (e ∷ r)
    else cons? p (free_here size a (e ∷ r))

-- `mfree`
pub mfree : ℕ → ℕ → Map → Option Map
unfolding free_behind free_here
mfree size a [] = none
mfree size a (e ∷ r) = if passes a e then free_behind size a e r else free_here size a (e ∷ r)

-- ptod of h/param.h: a page is 8 blocks of 512 bytes.
abbrev pub ptod : ℕ → ℕ
ptod x = x * 8

-- `swapfits`, on the swap map
pub swapfits : ℕ → Map → Option Bool
swapfits n [] = none
swapfits n (e ∷ r) =
    let rest = swapfits n r in
    if e.m_size == 0 then some false else if leb (ptod n) e.m_size then some true else rest
