-- ===== src/SleepQueue/Enqueue.antt =====
-- `sleep`, and `wakeup` after it.
use unix_v7_c.Base.{
  ℕ, suc, ◌+◌, ◌≤◌, ◌<◌, ◌≡◌, ◌≢◌, refl, ap, sym, ◌∙◌, true, false, not, ◌⊎◌, inl, inr, List, ◌∷◌,
  some, arith, ◌==◌, length, has, Bool-cases, subst,
}
use unix_v7_c.SleepQueue.{State, replaced, hash, wakeup, enqueue, ssleep, srun}
use unix_v7_c.SleepQueue.Segments.{Queue-frame, has-ne, replaced_self, replaced-ne}
use unix_v7_c.SleepQueue.All.{has_cases}
use unix_v7_c.SleepQueue.{signalled, sleep, dequeue, pzero}
use unix_v7_c.SleepQueue.Calls.{Queued, on_channel, wakeup-Wakes}
use unix_v7_c.Base.{ltb}

module _ (nproc chan : ℕ) (rp pri : ℕ) (s : State) (l r : List ℕ) (h : Queued s nproc chan l r)
    (real : rp ≢ 0) (not_there : has rp l ≡ false) (not_running : has rp r ≡ false)
    (room : suc (length l) + length r ≤ nproc) where
  abbrev slept : State
  slept = enqueue rp chan pri s

  slept_here : slept.procs rp ≡ record (s.procs rp) {
    p_stat = ssleep;
    p_wchan = chan;
    p_pri = pri;
    p_link = s.slpque (hash chan);
  }
  unfolding enqueue
  slept_here = replaced_self s.procs rp _

  slept_others : (x : ℕ) → x ≢ rp → slept.procs x ≡ s.procs x
  unfolding enqueue
  slept_others x ne = replaced-ne s.procs rp _ x (λ e. ne (sym e))

  slept_rest : (slept.slpque (hash chan) ≡ rp) × (slept.runq ≡ s.runq) × (slept.runout ≡ s.runout)
  unfolding enqueue
  slept_rest = (replaced_self s.slpque (hash chan) rp, refl, refl)

  same_link :
      (xs : List ℕ)
      → has rp xs ≡ false
      → (x : ℕ) → has x xs ≡ true
      → (slept.procs x).p_link ≡ (s.procs x).p_link
  same_link xs out x g = ap (λ v. v.p_link) (slept_others x (λ e. has-ne x rp xs g out (sym e)))

  -- `sleep` has put the process in front of the sleep queue.
  enqueue-Queued : Queued slept nproc chan (rp ∷ l) r
  enqueue-Queued = record {
    sleepers = (
      slept_rest.0,
      real,
      rw (ap (λ v. v.p_link) slept_here) (
          Queue-frame s.procs slept.procs (s.slpque (hash chan)) l (same_link l not_there)
            h.sleepers),
    );
    runners =
        rw (slept_rest.1)
          (Queue-frame s.procs slept.procs s.runq r (same_link r not_running) h.runners);
    distinct = (not_there, h.distinct);
    asleep = λ x g. stat x (has_cases rp x l g);
    apart = λ x g. apart x (has_cases rp x l g);
    few = room;
  }
    where
      stat : (x : ℕ) → (x ≡ rp) ⊎ (has x l ≡ true) → (slept.procs x).p_stat ≡ ssleep
      stat x (inl e) =
          subst (λ v. (slept.procs v).p_stat ≡ ssleep) (sym e) (ap (λ v. v.p_stat) slept_here)
      stat x (inr g) =
          ap (λ v. v.p_stat) (slept_others x (λ e. has-ne x rp l g not_there (sym e)))
          ∙ h.asleep x g

      apart : (x : ℕ) → (x ≡ rp) ⊎ (has x l ≡ true) → has x r ≡ false
      apart x (inl e) = subst (λ v. has v r ≡ false) (sym e) not_running
      apart x (inr g) = h.apart x g

  -- No wakeup is lost: while `runout` is clear, a process that `sleep` has put on the queue of a
  -- channel is, after a `wakeup` of the channel, in the state SRUN and waits for nothing, and so is
  -- every other process of the queue that slept on the channel.
  pub wakeup-enqueue :
      (depth chan_runout : ℕ)
      → s.runout ≡ false
      → (t : State) × (wakeup nproc (suc depth) chan_runout chan (enqueue rp chan pri s) ≡ some t)
        × ((t.procs rp).p_stat ≡ srun)
        × ((t.procs rp).p_wchan ≡ 0)
        × ((x : ℕ)
            → has x l ≡ true
            → (s.procs x).p_wchan ≡ chan
            → ((t.procs x).p_stat ≡ srun) × ((t.procs x).p_wchan ≡ 0))
  wakeup-enqueue depth chan_runout quiet =
      let (t, e, w) =
        wakeup-Wakes nproc depth chan_runout chan slept (rp ∷ l) r enqueue-Queued
          (slept_rest.2 ∙ quiet) in
      let mine = w.ready rp (ground arith) (waits rp (ap (λ v. v.p_wchan) slept_here)) in
      (
        t,
        e,
        mine.0,
        mine.1,
        λ x g on. w.ready x (ground (arith, g)) (
            waits x
              (ap (λ v. v.p_wchan) (slept_others x (λ f. has-ne x rp l g not_there (sym f))) ∙ on)),
      )
    where
      waits : (x : ℕ) → (slept.procs x).p_wchan ≡ chan → on_channel slept chan x ≡ true
      waits x f = ground (arith, f)

replaced-back : (f : ℕ → ℕ) (i v w j : ℕ) → w ≡ f i → replaced (replaced f i v) i w j ≡ f j
replaced-back f i v w j e = elim (Bool-cases (i == j)) [
  | inl c ↦ rw c (e ∙ ap f (ground (arith, c)))
  | inr c ↦ rw c refl
]

-- A `sleep` at a priority that signals may disturb, with a signal there, ends without giving up the
-- processor: the process is in the state SRUN and waits for nothing, and all sleep queues, the run
-- queue and the other processes are as before.
pub sleep-signalled :
    (nproc depth chan_runin chan_runout rp chan pri : ℕ) (s : State)
    → chan ≢ 0
    → pzero < pri
    → (t : State) × (sleep nproc depth chan_runin chan_runout true rp chan pri s
        ≡ some (signalled t))
      × ((t.procs rp).p_stat ≡ srun)
      × ((t.procs rp).p_wchan ≡ 0)
      × ((x : ℕ) → x ≢ rp → t.procs x ≡ s.procs x)
      × ((j : ℕ) → t.slpque j ≡ s.slpque j)
      × (t.runq ≡ s.runq)
unfolding sleep enqueue dequeue
sleep-signalled nproc depth chan_runin chan_runout rp chan pri s real low =
    let a : (chan == 0) ≡ false = ground (arith, real) in
    let b : not (ltb pzero pri) ≡ false = ground (arith, low) in
    let before = enqueue rp chan pri s in
    (
      dequeue rp chan before,
      rw (a, b) refl,
      ap (λ v. v.p_stat) (replaced_self before.procs rp _),
      ap (λ v. v.p_wchan) (replaced_self before.procs rp _),
      λ x ne.
          replaced-ne before.procs rp _ x (λ e. ne (sym e))
          ∙ replaced-ne s.procs rp _ x (λ e. ne (sym e)),
      λ j.
          replaced-back s.slpque (hash chan) rp _ j
            (ap (λ v. v.p_link) (replaced_self s.procs rp _)),
      refl,
    )
