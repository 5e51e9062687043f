-- ===== src/PageMap.antt =====
-- Pages of core and page maps: `pgalloc` to `maprot` of usr/sys/sys/malloc.c.
--
-- Memory is a function from a page and an index to a word of that page. `pgstk` is a function too;
-- its entries below `npgfree` are the free pages. `clearseg` writes zeros. The counts of pages are
-- far from the limits of an int.
pub mod Count
pub mod Entries
pub mod Rotate
mod Tests
use unix_v7_c.Base.{
  ℕ, zero, suc, ◌+◌, ◌-◌, ◌*◌, ◌/◌, ◌%◌, Bool, true, false, ◌&&◌, List, [], ◌∷◌, ltb, leb, ◌==◌,
  if◌then◌else◌,
}

-- NPM, the ints in a page of 4096 bytes
abbrev pub npm : ℕ
npm = 1024

abbrev pub Memory : Type 0
Memory = ℕ → ℕ → ℕ

abbrev pub store : Memory → ℕ → ℕ → ℕ → Memory
store m p i v q j = if (p == q) && (i == j) then v else m q j

abbrev pub clearseg : Memory → ℕ → Memory
clearseg m p q j = if p == q then 0 else m q j

-- pgstk, npgfree, core, runin, and whether `wakeup` of runin was called
pub record Core : Type 0 where
  pub pgstk : ℕ → ℕ
  pub npgfree : ℕ
  pub memory : Memory
  pub runin : Bool
  pub woken : Bool

-- `pgalloc`: the page, 0 if there is none
pub pgalloc : Core → ℕ × Core
pgalloc k =
    if k.npgfree == 0
    then (0, k)
    else (k.pgstk (k.npgfree - 1), record k { npgfree = k.npgfree - 1 })

-- `pgfree`
pub pgfree : ℕ → Core → Core
pgfree pg k =
    let k' : Core = record k {
      pgstk = λ i. if k.npgfree == i then pg else k.pgstk i;
      npgfree = k.npgfree + 1;
    } in
    if k.runin then record k' { runin = false; woken = true } else k'

-- `mapent`: the page and the index of entry i
pub mapent : Memory → ℕ → ℕ → ℕ × ℕ
mapent m map i = (m map (i / npm), i % npm)

-- The page that entry i lists.
pub entry : Memory → ℕ → ℕ → ℕ
unfolding mapent
entry m map i = let (p, j) = mapent m map i in m p j

pub set_entry : Memory → ℕ → ℕ → ℕ → Memory
unfolding mapent
set_entry m map i v = let (p, j) = mapent m map i in store m p j v

-- `mapneed`
pub mapneed : ℕ → ℕ → ℕ
mapneed n0 n1 =
    if leb n1 n0
    then 0
    else n1 - n0 + (if n0 == 0 then 1 else 0) + (n1 + npm - 1) / npm - (n0 + npm - 1) / npm

-- `if (i%NPM == 0)` in the loop of `mapalloc`: a new list page
pub new_list : ℕ → ℕ → Core → Core
unfolding pgalloc
new_list map i k =
    if i % npm == 0
    then (let (pg, k') = pgalloc k in record k' { memory = store k'.memory map (i / npm) pg })
    else k

-- The body of the loop of `mapalloc`.
pub new_entry : ℕ → ℕ → Core → Core
unfolding new_list pgalloc set_entry
new_entry map i k =
    let (pg, k') = pgalloc (new_list map i k) in record k' { memory = set_entry k'.memory map i pg }

-- The loop of `mapalloc`, n rounds from i on.
pub grow : ℕ → ℕ → ℕ → Core → Core
unfolding new_entry
grow zero map i k = k
grow (suc n) map i k = grow n map (i + 1) (new_entry map i k)

-- `if (n1 > n0 && n0 == 0)`: the root page
pub new_root : ℕ → ℕ → ℕ → Core → ℕ × Core
unfolding pgalloc
new_root map n0 n1 k =
    if ltb n0 n1 && (n0 == 0)
    then (let (pg, k') = pgalloc k in (pg, record k' { memory = clearseg k'.memory pg }))
    else (map, k)

-- `mapalloc`: does it succeed, the map afterwards, and the state
pub mapalloc : ℕ → ℕ → ℕ → Core → Bool × ℕ × Core
unfolding mapneed new_root grow
mapalloc map n0 n1 k =
    if ltb k.npgfree (mapneed n0 n1)
    then (false, map, k)
    else (let (root, k') = new_root map n0 n1 k in (true, root, grow (n1 - n0) root n0 k'))

-- The body of the loop of `mapfree`.
pub drop_entry : ℕ → ℕ → Core → Core
unfolding pgfree entry
drop_entry map i k =
    let k' = pgfree (entry k.memory map i) k in
    if i % npm == 0 then pgfree (k'.memory map (i / npm)) k' else k'

-- The loop of `mapfree`, n rounds, the last of them at n0.
pub shrink : ℕ → ℕ → ℕ → Core → Core
unfolding drop_entry
shrink zero map n0 k = k
shrink (suc n) map n0 k = shrink n map n0 (drop_entry map (n0 + n) k)

-- `mapfree`: the map afterwards, and the state
pub mapfree : ℕ → ℕ → ℕ → Core → ℕ × Core
unfolding shrink pgfree
mapfree map n0 n1 k =
    let k' = shrink (n1 - n0) map n0 k in
    if (n0 == 0) && ltb 0 n1 then (0, pgfree map k') else (map, k')

-- the exchange in `maprev`
pub exchange : ℕ → ℕ → ℕ → Memory → Memory
unfolding entry set_entry
exchange map a c m =
    let t = entry m map a in let m' = set_entry m map a (entry m map c) in set_entry m' map c t

-- `maprev`; the fuel bounds the rounds of the loop, and c of them are enough.
pub maprev : ℕ → ℕ → ℕ → ℕ → Memory → Memory
unfolding exchange
maprev zero map a c m = m
maprev (suc fuel) map a c m =
    let rest = maprev fuel map (a + 1) (c - 1) (exchange map a (c - 1) m) in
    if ltb a (c - 1) then rest else m

-- `maprot`
pub maprot : ℕ → ℕ → ℕ → ℕ → Memory → Memory
unfolding maprev
maprot map a b c m = maprev c map a c (maprev c map b c (maprev b map a b m))
