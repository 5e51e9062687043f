-- ===== src/SleepQueue/Ready.antt =====
-- One process taken off its sleep queue and put on the run queue.
use unix_v7_c.Base.{
  ℕ, suc, ◌+◌, ◌≤◌, ◌≡◌, ◌≢◌, refl, ap, sym, ◌∙◌, false, ◌||◌, ◌&&◌, not, List, Option, some, ◌>>=◌,
  arith, ltb, ◌==◌, if◌then◌else◌, length, has,
}
use unix_v7_c.SleepQueue.{Proc, State, put, on_queue, setrq, setrun_by, ssleep, srun, szomb}
use unix_v7_c.SleepQueue.Segments.{
  Queue, Queue-frame, on_queue-absent, replaced_self, replaced-ne, has-ne,
}

-- The process p runs in t; nothing else changed but the run queue and `runrun`.
pub record Readied (s t : State) (p : ℕ) : Type 0 where
  pub here : t.procs p ≡ record (s.procs p) { p_stat = srun; p_link = s.runq }
  pub others : (x : ℕ) → x ≢ p → t.procs x ≡ s.procs x
  pub first : t.runq ≡ p
  pub slpque : t.slpque ≡ s.slpque
  pub runout : t.runout ≡ false

module _ (nproc chan_runout : ℕ) (wake : ℕ → State → Option State) where
  setrq-new :
      (p : ℕ) (s : State)
      → on_queue (suc nproc) s p s.runq ≡ some false
      → setrq nproc p s
        ≡ some (record (put s p (record (s.procs p) { p_link = s.runq })) { runq = p })
  unfolding setrq
  setrq-new p s e =
      ap
        (λ o. o >>= (λ found. some (
          if found
          then s
          else record (put s p (record (s.procs p) { p_link = s.runq })) { runq = p })))
        e

  -- The rest of `setrun` behind `setrq`.
  abbrev finish : ℕ → State → State → Option State
  finish p s t =
      let t' : State = record t {
        runrun = if ltb (s.procs p).p_pri t.curpri then t.runrun + 1 else t.runrun;
      } in
      if t'.runout && not (s.procs p).p_load
      then wake chan_runout (record t' { runout = false })
      else some t'

  setrun_by-run :
      (p : ℕ) (s : State)
      → ((s.procs p).p_stat == 0) || ((s.procs p).p_stat == szomb) ≡ false
      → not ((s.procs p).p_wchan == 0) ≡ false
      → setrun_by nproc chan_runout wake p s
        ≡ (setrq nproc p (put s p (record (s.procs p) { p_stat = srun })) >>= finish p s)
  unfolding setrun_by
  setrun_by-run p s a b = rw (a, b) refl

  finish-quiet :
      (p : ℕ) (s t : State)
      → t.runout ≡ false
      → finish p s t
        ≡ some (record t {
          runrun = if ltb (s.procs p).p_pri t.curpri then t.runrun + 1 else t.runrun;
        })
  finish-quiet p s t e = rw e refl

  pub setrun_by-Readied :
      (p : ℕ) (s : State) (r : List ℕ)
      → (s.procs p).p_stat ≡ ssleep
      → (s.procs p).p_wchan ≡ 0
      → s.runout ≡ false
      → Queue s.procs s.runq r
      → has p r ≡ false
      → length r ≤ nproc
      → (t : State) × (setrun_by nproc chan_runout wake p s ≡ some t) × Readied s t p
  setrun_by-Readied p s r asleep clear quiet queue out few =
      let s1 = put s p (record (s.procs p) { p_stat = srun }) in
      let queue1 : Queue s1.procs s1.runq r =
        Queue-frame s.procs s1.procs s.runq r
          (λ x h. ap (λ v. v.p_link) (replaced-ne s.procs p _ x (has-ne x p r h out))) queue in
      let absent = on_queue-absent (suc nproc) s1 p s.runq r queue1 out (omega (arith, few)) in
      let v = record (s1.procs p) { p_link = s.runq } in
      let t : State = record (put s1 p v) {
        runq = p;
        runrun = if ltb (s.procs p).p_pri s.curpri then s.runrun + 1 else s.runrun;
      } in
      let alive : ((s.procs p).p_stat == 0) || ((s.procs p).p_stat == szomb) ≡ false =
        ground (arith, asleep) in
      let free : not ((s.procs p).p_wchan == 0) ≡ false = ground (arith, clear) in
      let eq =
        setrun_by-run p s alive free
        ∙ (ap (λ o. o >>= finish p s) (setrq-new p s1 absent)
            ∙ finish-quiet p s (record (put s1 p v) { runq = p }) quiet) in
      (
        t,
        eq,
        record {
          here =
              replaced_self s1.procs p v
              ∙ ap (λ (w : Proc). record w { p_link = s.runq }) (replaced_self s.procs p _);
          others = λ x ne.
              replaced-ne s1.procs p v x (λ e. ne (sym e))
              ∙ replaced-ne s.procs p _ x (λ e. ne (sym e));
          first = refl;
          slpque = refl;
          runout = quiet;
        },
      )
