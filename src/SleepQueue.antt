-- ===== src/SleepQueue.antt =====
-- Sleep queues and the run queue: `sleep`, `wakeup`, `setrq` and `setrun` of usr/sys/sys/slp.c, with
-- h/proc.h.
--
-- A process is its number in the table `proc`, from 1; 0 is NULL. The queues are links in the
-- processes. `sleep` is modelled up to the call of `swtch`; `pending` is what `issig` returns before
-- it. The addresses of `runin` and `runout`, which the loader chooses, and the size of the table are
-- parameters. `none` is a panic, or a list with more links than there are processes.
pub mod Segments
pub mod Ready
pub mod Taken
pub mod Wake
pub mod All
pub mod Calls
pub mod Enqueue
mod Tests
use unix_v7_c.Base.{
  ℕ, zero, suc, ◌+◌, ◌/◌, ◌%◌, Bool, true, false, ◌&&◌, ◌||◌, not, Option, none, some, ◌>>=◌, ltb,
  ◌==◌, if◌then◌else◌,
}

abbrev pub ssleep : ℕ
ssleep = 1

abbrev pub srun : ℕ
srun = 3

abbrev pub szomb : ℕ
szomb = 5

-- PZERO of h/param.h
abbrev pub pzero : ℕ
pzero = 25

-- The part of `struct proc` that the queues use; `p_load` is the flag SLOAD.
pub record Proc : Type 0 where
  pub p_stat : ℕ
  pub p_wchan : ℕ
  pub p_pri : ℕ
  pub p_link : ℕ
  pub p_load : Bool

pub record State : Type 0 where
  pub procs : ℕ → Proc
  pub slpque : ℕ → ℕ
  pub runq : ℕ
  pub runrun : ℕ
  pub curpri : ℕ
  pub runin : Bool
  pub runout : Bool

-- HASH
abbrev pub hash : ℕ → ℕ
hash chan = chan / 32 % 64

abbrev pub replaced : {A : Type 0} (f : ℕ → A) (i : ℕ) (v : A) → ℕ → A
replaced f i v = λ j. if i == j then v else f j

abbrev pub put : State → ℕ → Proc → State
put s p v = record s { procs = replaced s.procs p v }

abbrev pub link : State → ℕ → ℕ
link s p = (s.procs p).p_link

-- The pointer behind q on the sleep queue i, or its head where q is NULL.
abbrev pub slot : State → ℕ → ℕ → ℕ
slot s i q = if q == 0 then s.slpque i else link s q

abbrev pub set_slot : State → ℕ → ℕ → ℕ → State
set_slot s i q v =
    if q == 0
    then record s { slpque = replaced s.slpque i v }
    else put s q (record (s.procs q) { p_link = v })

-- The loop of `setrq` that looks for p.
pub on_queue : ℕ → State → ℕ → ℕ → Option Bool
on_queue zero s p q = none
on_queue (suc n) s p q =
    let rest = on_queue n s p (link s q) in
    if q == 0 then some false else if q == p then some true else rest

module _ (nproc : ℕ) where
  -- `setrq`
  pub setrq : ℕ → State → Option State
  unfolding on_queue
  setrq p s = on_queue (suc nproc) s p s.runq >>= (λ found.
      some (
        if found
        then s
        else record (put s p (record (s.procs p) { p_link = s.runq })) { runq = p }))

  -- `setrun`, with the call of `wakeup` as a parameter
  pub setrun_by : (chan_runout : ℕ) → (ℕ → State → Option State) → ℕ → State → Option State
  unfolding setrq
  setrun_by chan_runout wake p s =
      let pp = s.procs p in
      if (pp.p_stat == 0) || (pp.p_stat == szomb)
      then none
      else if not (pp.p_wchan == 0)
      then wake pp.p_wchan s
      else (setrq p (put s p (record pp { p_stat = srun })) >>= (λ t.
          let t' : State = record t {
            runrun = if ltb pp.p_pri t.curpri then t.runrun + 1 else t.runrun;
          } in
          if t'.runout && not pp.p_load
          then wake chan_runout (record t' { runout = false })
          else some t'))

  -- The loop of `wakeup`, with the call of `setrun` as a parameter.
  pub wake_from : ℕ → (ℕ → State → Option State) → (chan i q p : ℕ) → State → Option State
  wake_from zero run chan i q p s = none
  wake_from (suc n) run chan i q p s =
      if p == 0
      then some s
      else if ((s.procs p).p_wchan == chan) && not ((s.procs p).p_stat == szomb)
      then (let sp = link s p in
          let s1 = set_slot s i q sp in
          let s2 = put s1 p (record (s1.procs p) { p_wchan = 0 }) in
          run p s2 >>= (λ t. wake_from n run chan i q sp t))
      else wake_from n run chan i p (link s p) s

  -- `wakeup`; the number bounds how deep it and `setrun` call each other.
  pub wakeup : ℕ → (chan_runout : ℕ) → ℕ → State → Option State
  unfolding setrun_by wake_from
  wakeup zero chan_runout chan s = none
  wakeup (suc depth) chan_runout chan s =
      wake_from (suc nproc) (setrun_by chan_runout (wakeup depth chan_runout)) chan (hash chan) 0
        (s.slpque (hash chan)) s

  -- `setrun`
  pub setrun : ℕ → (chan_runout : ℕ) → ℕ → State → Option State
  unfolding wakeup setrun_by
  setrun depth chan_runout p s = setrun_by chan_runout (wakeup depth chan_runout) p s

-- How the part of `sleep` before `swtch` ends: a signal is there, or the processor is given up.
pub data Slept : Type 0 where
  signalled : State → Slept
  switches : State → Slept

-- The process is put on the queue of its channel.
pub enqueue : ℕ → ℕ → ℕ → State → State
enqueue rp chan pri s =
    let s1 : State = put s rp (record (s.procs rp) {
      p_stat = ssleep;
      p_wchan = chan;
      p_pri = pri;
      p_link = s.slpque (hash chan);
    }) in
    record s1 { slpque = replaced s.slpque (hash chan) rp }

-- "slpque[h] = rp->p_link"
pub dequeue : ℕ → ℕ → State → State
dequeue rp chan s =
    let s1 : State = put s rp (record (s.procs rp) { p_stat = srun; p_wchan = 0 }) in
    record s1 { slpque = replaced s.slpque (hash chan) (link s rp) }

pub sleep : (nproc depth chan_runin chan_runout : ℕ) → Bool → ℕ → ℕ → ℕ → State → Option Slept
unfolding enqueue dequeue wakeup
sleep nproc depth chan_runin chan_runout pending rp chan pri s =
    let t = enqueue rp chan pri s in
    if chan == 0
    then none
    else if not (ltb pzero pri)
    then some (switches t)
    else if pending
    then some (signalled (dequeue rp chan t))
    else if t.runin
    then (wakeup nproc depth chan_runout chan_runin (record t { runin = false })
        >>= (λ t'. some (switches t')))
    else some (switches t)
