-- ===== src/Clist/Init.antt =====
-- `cinit`, which frees all blocks, and `ndqb`, which counts contiguous characters.
use unix_v7_c.Base.{
  ℕ, zero, suc, ◌+◌, ◌-◌, ◌*◌, ◌/◌, ◌%◌, Bool, false, ◌&&◌, ◌||◌, leb, ltb, ◌==◌, if◌then◌else◌,
}
use unix_v7_c.Clist.{Blocks, Clist, release, round_down, block_size}

-- The loop of `cinit` with cp, for the blocks up to the one at `last`; the fuel is NCLIST.
pub free_blocks : ℕ → (cp last : ℕ) → Blocks → Blocks
unfolding release
free_blocks zero cp last m = m
free_blocks (suc fuel) cp last m =
    let rest = free_blocks fuel (cp + block_size) last (release cp m) in
    if leb cp last then rest else m

-- `cinit` on the array cfree of nclist blocks, without the count of the devices
unfoldable pub cinit : (cfree nclist : ℕ) → Blocks → Blocks
unfolding free_blocks
cinit cfree nclist m =
    free_blocks nclist (round_down (cfree + 15)) (cfree + (nclist - 1) * block_size) m

-- `*p & flag` on the low n bits
pub meets : ℕ → (c flag : ℕ) → Bool
meets zero c flag = false
meets (suc n) c flag = ((c % 2 == 1) && (flag % 2 == 1)) || meets n (c / 2) (flag / 2)

-- `while (p < end)` in `ndqb`: how many characters from p on, n at most, come before one that meets flag
pub count_until : ℕ → (p flag : ℕ) → (ℕ → ℕ) → ℕ
unfolding meets
count_until zero p flag byte = 0
count_until (suc n) p flag byte =
    let rest = count_until n (p + 1) flag byte in if meets 8 (byte p) flag then 0 else suc rest

-- `ndqb`, with a flag of 8 bits
unfoldable pub ndqb : Clist → ℕ → Blocks → ℕ
unfolding count_until
ndqb q flag m =
    if leb q.c_cc 0
    then 0
    else (let rest_of_block = round_down (q.c_cf + 12) - q.c_cf in
        let cc = if ltb q.c_cc rest_of_block then q.c_cc else rest_of_block in
        if flag == 0 then cc else count_until cc q.c_cf flag m.byte)
