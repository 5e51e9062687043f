-- ===== src/Sched.antt =====
-- Priorities and room for a process: `setpri` and `roomfor` of usr/sys/sys/slp.c.
--
-- p_nice is not negative, as `nice` keeps it.
mod Bounds
use unix_v7_c.Base.{
  ℕ, zero, suc, ◌+◌, ◌-◌, ◌/◌, Bool, true, false, Option, some, leb, ltb, if◌then◌else◌,
}
use unix_v7_c.PageMap.{mapneed}
use unix_v7_c.SwapMap.{Map, swapfits}

abbrev pub nzero : ℕ
nzero = 20

-- `setpri`: the priority, and whether runrun is raised
pub setpri : (p_cpu p_nice curpri : ℕ) → ℕ × Bool
setpri p_cpu p_nice curpri =
    let p = p_cpu / 16 + 50 + p_nice - nzero in
    let p' = if ltb 127 p then 127 else p in (p', ltb p' curpri)

-- `roomfor`; `none` is that of `swapfits`. p_size is the size of the current process, and usize that of its user area.
pub roomfor : (newsize tn p_size usize npgfree : ℕ) → Map → Option Bool
roomfor newsize tn p_size usize npgfree swapmap =
    if leb newsize p_size
    then some true
    else if leb (mapneed (p_size - usize) (newsize - usize) + tn) npgfree
    then some true
    else swapfits newsize swapmap
