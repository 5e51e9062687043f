-- ===== src/Signal.antt =====
-- Signals: `signal`, `psignal`, `issig` and `fsig` of usr/sys/sys/sig.c, on the processes of h/proc.h.
--
-- p_sig is a number; its bit k stands for the signal k + 1. Priorities are not negative here: the
-- least that the system uses is 0. A signal number is the value that the test `(unsigned)sig >= NSIG`
-- sees. A call of `setrun` is reported in the result.
pub mod Bits
pub mod Pending
pub mod Post
mod Tests
use unix_v7_c.Base.{
  ℕ, zero, suc, ◌+◌, ◌-◌, ◌*◌, ◌/◌, ◌%◌, Bool, true, false, ◌&&◌, ◌||◌, not, Option, none, some,
  List, [], ◌∷◌, leb, ltb, ◌==◌, if◌then◌else◌,
}

abbrev pub pzero : ℕ
pzero = 25

abbrev pub puser : ℕ
puser = 50

abbrev pub nsig : ℕ
nsig = 17

-- SSLEEP
abbrev pub ssleep : ℕ
ssleep = 1

-- The fields of `struct proc` that signals touch; `strc` is the bit STRC of p_flag.
pub record Proc : Type 0 where
  pub p_stat : ℕ
  pub strc : Bool
  pub p_pri : ℕ
  pub p_sig : ℕ
  pub p_pgrp : ℕ

-- (n >> k) & 1
pub bit : ℕ → ℕ → Bool
bit zero n = n % 2 == 1
bit (suc k) n = bit k (n / 2)

-- n | 1<<k
pub set_bit : ℕ → ℕ → ℕ
set_bit zero n = n / 2 * 2 + 1
set_bit (suc k) n = set_bit k (n / 2) * 2 + n % 2

-- n & ~(1<<k)
pub clear_bit : ℕ → ℕ → ℕ
clear_bit zero n = n / 2 * 2
clear_bit (suc k) n = clear_bit k (n / 2) * 2 + n % 2

-- `psignal`: whether it calls `setrun`, and the process
pub psignal : Proc → ℕ → Bool × Proc
unfolding set_bit
psignal p sig =
    if leb nsig sig
    then (false, p)
    else (let pending = if sig == 0 then p.p_sig else set_bit (sig - 1) p.p_sig in
        let pri = if ltb puser p.p_pri then puser else p.p_pri in
        ((p.p_stat == ssleep) && ltb pzero pri, record p { p_sig = pending; p_pri = pri }))

-- `signal`: the process table, with the results of `psignal`
pub signal : List Proc → (pgrp sig : ℕ) → List (Bool × Proc)
unfolding psignal
signal [] pgrp sig = []
signal (p ∷ ps) pgrp sig =
    let rest = signal ps pgrp sig in
    if pgrp == 0
    then (false, p) ∷ rest
    else if p.p_pgrp == pgrp
    then psignal p sig ∷ rest
    else (false, p) ∷ rest

-- The loop of `fsig`, from i on, for some rounds.
pub fsig_from : ℕ → ℕ → ℕ → ℕ
fsig_from zero i n = 0
fsig_from (suc rounds) i n =
    let rest = fsig_from rounds (i + 1) (n / 2) in if n % 2 == 1 then i else rest

-- `fsig`
pub fsig : ℕ → ℕ
unfolding fsig_from
fsig p_sig = fsig_from (nsig - 1) 1 p_sig

-- `issig`: its result and p_sig afterwards. The fuel bounds the rounds of the loop, and `none` is out
-- of fuel.
pub issig : ℕ → (u_signal : ℕ → ℕ) (strc : Bool) (p_sig : ℕ) → Option (ℕ × ℕ)
unfolding fsig clear_bit
issig zero u_signal strc p_sig = none
issig (suc fuel) u_signal strc p_sig =
    let n = fsig p_sig in
    let rest = issig fuel u_signal strc (clear_bit (n - 1) p_sig) in
    if p_sig == 0
    then some (0, p_sig)
    else if (u_signal n % 2 == 0) || strc
    then some (n, p_sig)
    else rest
