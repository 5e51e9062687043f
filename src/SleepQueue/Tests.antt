-- ===== src/SleepQueue/Tests.antt =====
-- Three processes on one sleep queue, two of them on the same channel, and one that runs.
use unix_v7_c.Base.{
  ℕ, ◌≡◌, refl, Bool, true, false, inl, inr, [], ◌∷◌, Option, some, ◌>>=◌, arith, ◌==◌,
  if◌then◌else◌, has,
}
use unix_v7_c.SleepQueue.{Proc, State, enqueue, wakeup, srun, ssleep}
use unix_v7_c.SleepQueue.Wake.{Wakes}
use unix_v7_c.SleepQueue.Calls.{Queued, on_channel, wakeup-Wakes}
use unix_v7_c.SleepQueue.Enqueue.{wakeup-enqueue}
use unix_v7_c.Base.{◌⊎◌}

abbrev process : ℕ → ℕ → ℕ → Bool → Proc
process stat chan next load = record {
  p_stat = stat;
  p_wchan = chan;
  p_pri = 30;
  p_link = next;
  p_load = load;
}

-- 64 and 2112 have the same hash.
abbrev table : ℕ → Proc
table x =
    if x == 1
    then process 1 64 2 true
    else if x == 2
    then process 1 2112 3 true
    else if x == 3
    then process 1 64 0 true
    else if x == 4
    then process 3 0 0 true
    else process 0 0 0 false

abbrev three : State
three = record {
  procs = table;
  slpque = λ h. if h == 2 then 1 else 0;
  runq = 4;
  runrun = 0;
  curpri = 50;
  runin = false;
  runout = false;
}

abbrev shown : Option State → Option (ℕ × ℕ × ℕ × ℕ)
shown o = o >>= (λ t. some (t.runq, (t.procs t.runq).p_link, t.slpque 2, (t.procs 2).p_link))

wakeup_run : shown (wakeup 10 2 4096 64 three) ≡ some (3, 1, 2, 0)
unfolding wakeup
wakeup_run = refl

members : (x : ℕ) → has x (1 ∷ 2 ∷ 3 ∷ []) ≡ true → (x ≡ 1) ⊎ ((x ≡ 2) ⊎ (x ≡ 3))
members x h = ground (arith, h)

asleep : (x : ℕ) → (x ≡ 1) ⊎ ((x ≡ 2) ⊎ (x ≡ 3)) → (table x).p_stat ≡ ssleep
asleep x (inl e) = rw e refl
asleep x (inr (inl e)) = rw e refl
asleep x (inr (inr e)) = rw e refl

three-Queued : Queued three 10 64 (1 ∷ 2 ∷ 3 ∷ []) (4 ∷ [])
three-Queued = record {
  sleepers = (refl, omega arith, (refl, omega arith, (refl, omega arith, refl)));
  runners = (refl, omega arith, refl);
  distinct = (refl, (refl, (refl, tt)));
  asleep = λ x h. asleep x (members x h);
  apart = λ x h. ground (arith, h);
  few = omega arith;
}

wakeup-Wakes_example :
    (t : State) × (wakeup 10 2 4096 64 three ≡ some t)
    × Wakes three t (on_channel three 64) 2 0 (1 ∷ 2 ∷ 3 ∷ []) (4 ∷ [])
wakeup-Wakes_example = wakeup-Wakes 10 1 4096 64 three (1 ∷ 2 ∷ 3 ∷ []) (4 ∷ []) three-Queued refl

wakeup-enqueue_example :
    (t : State) × (wakeup 10 2 4096 64 (enqueue 7 64 30 three) ≡ some t)
    × ((t.procs 7).p_stat ≡ srun)
    × ((t.procs 7).p_wchan ≡ 0)
    × ((x : ℕ)
        → has x (1 ∷ 2 ∷ 3 ∷ []) ≡ true
        → (three.procs x).p_wchan ≡ 64
        → ((t.procs x).p_stat ≡ srun) × ((t.procs x).p_wchan ≡ 0))
wakeup-enqueue_example =
    wakeup-enqueue 10 64 7 30 three (1 ∷ 2 ∷ 3 ∷ []) (4 ∷ []) three-Queued (omega arith) refl refl
      (omega arith) 1 4096 refl

-- The scheduler, 5, sleeps on `runout` between two processes of channel 64, and the first of these is
-- swapped out. The hashes agree.
abbrev between : State
between = record three {
  procs = λ x.
      if x == 1
      then process 1 64 5 false
      else if x == 5
      then process 1 4160 3 true
      else if x == 3
      then process 1 64 0 true
      else table x;
  runout = true;
}

abbrev third : Option State → Option (ℕ × ℕ × ℕ × ℕ)
third o = o >>= (λ t. some (t.runq, t.slpque 2, (t.procs 3).p_stat, (t.procs 3).p_wchan))

-- The call of `wakeup` for the scheduler takes the loop over to the run queue: 3 sleeps on.
missed_run : third (wakeup 10 3 4160 64 between) ≡ some (5, 3, 1, 64)
unfolding wakeup
missed_run = refl
