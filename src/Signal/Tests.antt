-- ===== src/Signal/Tests.antt =====
-- A process with the signals 2 and 9 pending.
use unix_v7_c.Base.{ℕ, ◌≡◌, true, false, refl, some, [], ◌∷◌, ◌==◌, arith, if◌then◌else◌}
use unix_v7_c.Signal.{Proc, fsig, issig, signal}
use unix_v7_c.Signal.Pending.{Answers, issig-Answers}

abbrev asleep : Proc
asleep = record { p_stat = 1; strc = false; p_pri = 60; p_sig = 256; p_pgrp = 4 }

-- Signal 2 is ignored.
abbrev ignores : ℕ → ℕ
ignores n = if n == 2 then 1 else 0

fsig_runs : fsig 258 ≡ 2
unfolding fsig
fsig_runs = refl

issig_runs : issig 17 ignores false 258 ≡ some (9, 256)
unfolding issig
issig_runs = refl

signal_runs : signal (asleep ∷ []) 4 2 ≡ (true, record asleep { p_sig = 258; p_pri = 50 }) ∷ []
unfolding signal
signal_runs = refl

issig-Answers_example : Answers 17 ignores false 258
issig-Answers_example = issig-Answers 258 ignores false (omega arith)
