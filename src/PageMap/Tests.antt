-- ===== src/PageMap/Tests.antt =====
-- A page map with four entries in one list page.
use unix_v7_c.Base.{ℕ, ◌+◌, ◌-◌, ◌<◌, ◌≡◌, refl, false, arith, leb, ltb, ◌==◌, if◌then◌else◌, ◌&&◌}
use unix_v7_c.PageMap.{Memory, Core, entry, mapneed, mapalloc, maprot}
use unix_v7_c.PageMap.Count.{mapalloc-npgfree}
use unix_v7_c.PageMap.Entries.{IsTable, SameRoot}
use unix_v7_c.PageMap.Rotate.{rotated, maprot_rotates}

-- Page 1 is the root, page 2 its list page, and the entries are 10 to 13.
abbrev small : Memory
small p i = if (p == 1) && (i == 0) then 2 else if (p == 2) && ltb i 4 then 10 + i else 0

abbrev core : Core
core = record { pgstk = λ i. 20 + i; npgfree = 6; memory = small; runin = false; woken = false }

small-IsTable : IsTable 4 1 small
small-IsTable = record { not_root = λ i h. ground arith; distinct = λ i j h k e. omega arith }

need_first : mapneed 0 4 ≡ 6
unfolding mapneed
need_first = refl

mapalloc-npgfree_example :
    let (done, map', k') = mapalloc 0 0 4 core in
    (done ≡ leb (mapneed 0 4) 6)
    × (k'.npgfree ≡ (if done then 6 - mapneed 0 4 else 6))
    × (done ≡ false → (map' ≡ 0) × (k' ≡ core))
mapalloc-npgfree_example = mapalloc-npgfree 0 0 4 core

maprot_rotates_example :
    SameRoot 1 small (maprot 1 0 1 4 small)
    × ((j : ℕ) → j < 4 → entry (maprot 1 0 1 4 small) 1 j ≡ rotated (entry small 1) 0 1 4 j)
maprot_rotates_example =
    maprot_rotates 4 1 0 1 4 small small-IsTable (omega arith) (omega arith) (omega arith)
