-- ===== src/SleepQueue/Calls.antt =====
-- `wakeup`, and `sleep` before it.
use unix_v7_c.Base.{
  ℕ, zero, suc, ◌+◌, ◌≤◌, ◌<◌, ◌≡◌, ◌≢◌, refl, ap, sym, ◌∙◌, Bool, true, false, ◌&&◌, not, inl, inr,
  List, [], ◌∷◌, Option, some, arith, ◌==◌, length, has, Distinct, Bool-cases, subst,
}
use unix_v7_c.SleepQueue.{Proc, State, link, hash, setrun_by, wake_from, wakeup, ssleep, szomb}
use unix_v7_c.SleepQueue.Segments.{Queue}
use unix_v7_c.SleepQueue.Taken.{taken}
use unix_v7_c.SleepQueue.Wake.{Wakes, slot-link, wake_from-keep, wake_from-take}
use unix_v7_c.SleepQueue.All.{Finds, keep_Finds, keep-Wakes, take_Finds, take-Wakes, has_neither}

Queue-not_null : (procs : ℕ → Proc) (p : ℕ) (xs : List ℕ) → Queue procs p xs → has 0 xs ≡ false
Queue-not_null procs p [] h = refl
Queue-not_null procs p (x ∷ xs) (e, nz, rest) =
    has_neither x 0 xs (λ z. nz (sym z)) (Queue-not_null procs (procs x).p_link xs rest)

module _ (nproc chan_runout chan i : ℕ) (m : ℕ → Bool) (wake : ℕ → State → Option State) where
  run : ℕ → State → Option State
  run = setrun_by nproc chan_runout wake

  wake_from-end :
      (n q p : ℕ) (s : State) → p ≡ 0 → wake_from nproc (suc n) run chan i q p s ≡ some s
  unfolding wake_from
  wake_from-end n q p s z = let e : (p == 0) ≡ true = ground (arith, z) in rw e refl

  loop-Wakes :
      (l : List ℕ) (n q p : ℕ) (s : State) (r : List ℕ)
      → length l < n
      → Finds s chan nproc m i q p l r
      → (t : State) × (wake_from nproc n run chan i q p s ≡ some t) × Wakes s t m i q l r
  unfolding run
  loop-Wakes l zero q p s r few f = absurd (omega (arith, few))
  loop-Wakes [] (suc n) q p s r few f = (
    s,
    wake_from-end n q p s f.queue,
    record {
      queue = f.at ∙ f.queue;
      run = f.run;
      stay = λ x h. absurd (ground (arith, h));
      ready = λ x h g. absurd (ground (arith, h));
      others = λ x h ne. refl;
      last = λ nz. ap (λ v. record (s.procs q) { p_link = v }) (sym (slot-link s i q nz));
      heads = λ j h. refl;
    },
  )
  loop-Wakes (x ∷ xs) (suc n) q p s r few f =
      let g : Finds s chan nproc m i q x (x ∷ xs) r =
        subst (λ v. Finds s chan nproc m i q v (x ∷ xs) r) f.queue.0 f in
      let nz : (x == 0) ≡ false = ground (arith, f.queue.1) in
      let (asleep, tested) = f.asleep x (first x xs) in
      subst
        (λ v.
          (t : State) × (wake_from nproc (suc n) run chan i q v s ≡ some t)
          × Wakes s t m i q (x ∷ xs) r)
        (sym f.queue.0)
        (elim (Bool-cases (m x)) [
          | inl goes ↦
              let (t, e, k) =
                taken nproc chan_runout wake s i q x r asleep f.quiet f.run (f.apart x (first x xs))
                  f.before_run (λ z. ne_first x q xs f.before z) (omega (arith, f.few)) in
              let (u, e', w) =
                loop-Wakes xs n q (link s x) t (x ∷ r) (omega (arith, few))
                  (take_Finds chan nproc m i q x xs r s g t k) in
              (
                u,
                wake_from-take nproc run chan i n q x s t nz (awake s x (tested ∙ goes) asleep) e
                    ∙ e',
                take-Wakes chan nproc m i q x xs r s g t u goes k w,
              )
          | inr stays ↦
              let (t, e, w) =
                loop-Wakes xs n x (link s x) s r (omega (arith, few))
                  (keep_Finds chan nproc m i q x xs r s g) in
              (
                t,
                wake_from-keep nproc run chan i n q x s nz (passed s x (tested ∙ stays)) ∙ e,
                keep-Wakes chan nproc m i q x xs r s g t stays w,
              )
        ])
    where
      first : (x : ℕ) (xs : List ℕ) → has x (x ∷ xs) ≡ true
      first x xs = ground arith

      ne_first : (x q : ℕ) (xs : List ℕ) → has q (x ∷ xs) ≡ false → q ≢ x
      ne_first x q xs h = ground (arith, h)

      awake :
          (s : State) (x : ℕ)
          → ((s.procs x).p_wchan == chan) ≡ true
          → (s.procs x).p_stat ≡ ssleep
          → ((s.procs x).p_wchan == chan) && not ((s.procs x).p_stat == szomb) ≡ true
      awake s x a b = rw (a, b) refl

      passed :
          (s : State) (x : ℕ)
          → ((s.procs x).p_wchan == chan) ≡ false
          → ((s.procs x).p_wchan == chan) && not ((s.procs x).p_stat == szomb) ≡ false
      passed s x a = rw a refl

-- The sleep queue of the channel is l and the run queue r; no process is in both or twice, none on
-- the first does anything but sleep, and the table has room for all.
pub record Queued (s : State) (nproc chan : ℕ) (l r : List ℕ) : Type 0 where
  pub sleepers : Queue s.procs (s.slpque (hash chan)) l
  pub runners : Queue s.procs s.runq r
  pub distinct : Distinct l
  pub asleep : (x : ℕ) → has x l ≡ true → (s.procs x).p_stat ≡ ssleep
  pub apart : (x : ℕ) → has x l ≡ true → has x r ≡ false
  pub few : length l + length r ≤ nproc

-- Which processes sleep on the channel.
abbrev pub on_channel : State → ℕ → ℕ → Bool
on_channel s chan x = (s.procs x).p_wchan == chan

-- While `runout` is clear, `wakeup` returns, and then every process of the queue that slept on the
-- channel is in the state SRUN, waits for nothing, and stands on the run queue, the last one first;
-- the others of the queue stay on it, in order, unchanged but for the link; and no process outside
-- it and no other sleep queue changes.
pub wakeup-Wakes :
    (nproc depth chan_runout chan : ℕ) (s : State) (l r : List ℕ)
    → Queued s nproc chan l r
    → s.runout ≡ false
    → (t : State) × (wakeup nproc (suc depth) chan_runout chan s ≡ some t)
      × Wakes s t (on_channel s chan) (hash chan) 0 l r
unfolding wakeup run
wakeup-Wakes nproc depth chan_runout chan s l r h quiet =
    loop-Wakes nproc chan_runout chan (hash chan) (on_channel s chan)
      (wakeup nproc depth chan_runout) l (suc nproc) 0 (s.slpque (hash chan)) s r
      (omega (arith, h.few))
      (record {
        queue = h.sleepers;
        at = refl;
        distinct = h.distinct;
        before = Queue-not_null s.procs (s.slpque (hash chan)) l h.sleepers;
        asleep = λ x g. (h.asleep x g, refl);
        run = h.runners;
        apart = h.apart;
        before_run = Queue-not_null s.procs s.runq r h.runners;
        few = h.few;
        quiet = quiet;
      })
