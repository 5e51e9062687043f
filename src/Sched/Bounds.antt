-- ===== src/Sched/Bounds.antt =====
-- The range of priorities.
use unix_v7_c.Base.{ℕ, ◌≤◌, ◌≡◌, refl, arith}
use unix_v7_c.Sched.{setpri}
use unix_v7_c.Base.{ltb}

setpri-range :
    (p_cpu p_nice curpri : ℕ)
    → (30 ≤ (setpri p_cpu p_nice curpri).0) × ((setpri p_cpu p_nice curpri).0 ≤ 127)
unfolding setpri
setpri-range p_cpu p_nice curpri = (ground arith, ground arith)

setpri_runs : setpri 255 20 60 ≡ (65, ltb 65 60)
unfolding setpri
setpri_runs = refl
