-- ===== src/Signal/Post.antt =====
-- `psignal` adds a pending signal.
use unix_v7_c.Base.{ℕ, ◌-◌, ◌≡◌, ◌<◌, ◌≤◌, ◌↔◌, true, false, ◌||◌, ◌==◌, arith, leb}
use unix_v7_c.Signal.{bit, psignal, Proc, pzero, puser, nsig, ssleep}
use unix_v7_c.Signal.Bits.{bit-set_bit}

-- `psignal` with a signal below NSIG makes it pending beside the others, never leaves a priority
-- above PUSER, and calls `setrun` exactly for a process asleep at a priority above PZERO.
pub psignal-posts :
    (p : Proc) (sig : ℕ)
    → 1 ≤ sig
    → sig < nsig
    → ((j : ℕ) → bit j (psignal p sig).1.p_sig ≡ ((j == sig - 1) || bit j p.p_sig))
      × ((psignal p sig).1.p_pri ≤ puser)
      × (((psignal p sig).0 ≡ true) ↔ ((p.p_stat ≡ ssleep) × (pzero < p.p_pri)))
unfolding psignal
psignal-posts p sig lo hi =
    let valid : leb nsig sig ≡ false = ground arith in
    let some' : (sig == 0) ≡ false = ground arith in
    rw (valid, some') ((λ j. bit-set_bit j (sig - 1) p.p_sig), ground arith, ground arith)
