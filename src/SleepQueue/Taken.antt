-- ===== src/SleepQueue/Taken.antt =====
-- What `wakeup` does with one process that it wakes.
use unix_v7_c.Base.{
  ℕ, ◌≤◌, ◌≡◌, ◌≢◌, refl, ap, sym, ◌∙◌, false, ◌⊎◌, inl, inr, List, Option, some, arith, ◌==◌,
  length, has, Bool-cases,
}
use unix_v7_c.SleepQueue.{Proc, State, link, put, slot, set_slot, setrun_by, ssleep, srun}
use unix_v7_c.SleepQueue.Segments.{Queue, Queue-frame, replaced_self, replaced-ne, has-ne}
use unix_v7_c.SleepQueue.Ready.{setrun_by-Readied}

-- The process p was taken off, behind q on the queue i, and runs.
pub record Taken (s t : State) (i q p : ℕ) : Type 0 where
  pub ready : ((t.procs p).p_stat ≡ srun) × ((t.procs p).p_wchan ≡ 0) × (link t p ≡ s.runq)
  pub others : (x : ℕ) → x ≢ p → x ≢ q → t.procs x ≡ s.procs x
  pub last : q ≢ 0 → t.procs q ≡ record (s.procs q) { p_link = link s p }
  pub next : slot t i q ≡ link s p
  pub heads : (j : ℕ) → (q ≢ 0) ⊎ (j ≢ i) → t.slpque j ≡ s.slpque j
  pub first : t.runq ≡ p
  pub runout : t.runout ≡ false

pub slot-by :
    (t : State) (i q v : ℕ) → (q ≡ 0 → t.slpque i ≡ v) → (q ≢ 0 → link t q ≡ v) → slot t i q ≡ v
slot-by t i q v a b = elim (Bool-cases (q == 0)) [
  | inl e ↦ rw e (a (ground (arith, e)))
  | inr e ↦ rw e (b (ground (arith, e)))
]

-- The state in which `wakeup` calls `setrun`.
abbrev pub unlinked : State → ℕ → ℕ → ℕ → State
unlinked s i q p = set_slot s i q (link s p)

abbrev pub taken_off : State → ℕ → ℕ → ℕ → State
taken_off s i q p = put (unlinked s i q p) p (record ((unlinked s i q p).procs p) { p_wchan = 0 })

module _ (nproc chan_runout : ℕ) (wake : ℕ → State → Option State) (s : State) (i q p : ℕ)
    (r : List ℕ) (asleep : (s.procs p).p_stat ≡ ssleep) (quiet : s.runout ≡ false)
    (queue : Queue s.procs s.runq r) (out : has p r ≡ false) (away : has q r ≡ false) (ne : q ≢ p)
    (few : length r ≤ nproc) where
  abbrev s1 : State
  s1 = unlinked s i q p

  s1_procs : (x : ℕ) → x ≢ q → s1.procs x ≡ s.procs x
  s1_procs x nq = elim (Bool-cases (q == 0)) [
    | inl e ↦ rw e refl
    | inr e ↦ rw e (replaced-ne s.procs q _ x (λ f. nq (sym f)))
  ]

  s1_last : q ≢ 0 → s1.procs q ≡ record (s.procs q) { p_link = link s p }
  s1_last nz = let e : (q == 0) ≡ false = ground (arith, nz) in rw e (replaced_self s.procs q _)

  s1_rest : (s1.runq ≡ s.runq) × (s1.runout ≡ s.runout)
  s1_rest = elim (Bool-cases (q == 0)) [ inl e ↦ rw e (refl, refl) | inr e ↦ rw e (refl, refl) ]

  s1_heads : (j : ℕ) → (q ≢ 0) ⊎ (j ≢ i) → s1.slpque j ≡ s.slpque j
  s1_heads j h = elim (Bool-cases (q == 0)) [
    | inl e ↦ rw e (replaced-ne s.slpque i _ j (λ f. other h (ground (arith, e)) (sym f)))
    | inr e ↦ rw e refl
  ]
    where
      other : (q ≢ 0) ⊎ (j ≢ i) → q ≡ 0 → j ≢ i
      other (inl nz) z = absurd (nz z)
      other (inr d) z = d

  s1_slot : (q ≢ 0) ⊎ (s1.slpque i ≡ link s p)
  s1_slot = elim (Bool-cases (q == 0)) [
    | inl e ↦ inr (rw e (replaced_self s.slpque i _))
    | inr e ↦ inl (ground (arith, e))
  ]

  abbrev s2 : State
  s2 = taken_off s i q p

  s2_here : s2.procs p ≡ record (s.procs p) { p_wchan = 0 }
  s2_here =
      replaced_self s1.procs p _
      ∙ ap (λ (w : Proc). record w { p_wchan = 0 }) (s1_procs p (λ e. ne (sym e)))

  s2_procs : (x : ℕ) → x ≢ p → s2.procs x ≡ s1.procs x
  s2_procs x np = replaced-ne s1.procs p _ x (λ e. np (sym e))

  s2_rest : (s2.runq ≡ s.runq) × (s2.runout ≡ s.runout) × (s2.slpque ≡ s1.slpque)
  s2_rest = (s1_rest.0, s1_rest.1, refl)

  s2_queue : Queue s2.procs s2.runq r
  s2_queue = rw (s2_rest.0) (
      Queue-frame s.procs s2.procs s.runq r
        (λ x h.
          ap (λ v. v.p_link)
            (s2_procs x (λ e. has-ne x p r h out (sym e))
              ∙ s1_procs x (λ e. has-ne x q r h away (sym e))))
        queue)

  pub taken :
      (t : State) × (setrun_by nproc chan_runout wake p (taken_off s i q p) ≡ some t)
      × Taken s t i q p
  taken =
      let (t, e, f) =
        setrun_by-Readied nproc chan_runout wake p s2 r (ap (λ v. v.p_stat) s2_here ∙ asleep)
          (ap (λ v. v.p_wchan) s2_here) (s2_rest.1 ∙ quiet) s2_queue out few in
      (
        t,
        e,
        record {
          ready = (
            ap (λ v. v.p_stat) f.here,
            ap (λ v. v.p_wchan) f.here ∙ ap (λ v. v.p_wchan) s2_here,
            ap (λ v. v.p_link) f.here ∙ s2_rest.0,
          );
          others = λ x np nq. f.others x np ∙ (s2_procs x np ∙ s1_procs x nq);
          last = λ nz. f.others q ne ∙ (s2_procs q ne ∙ s1_last nz);
          next =
              slot-by t i q (link s p) (λ z. ap (λ g. g i) (f.slpque ∙ s2_rest.2) ∙ head z s1_slot)
                (λ nz. ap (λ v. v.p_link) (f.others q ne ∙ (s2_procs q ne ∙ s1_last nz)));
          heads = λ j h. ap (λ g. g j) (f.slpque ∙ s2_rest.2) ∙ s1_heads j h;
          first = f.first;
          runout = f.runout;
        },
      )
    where
      head : q ≡ 0 → (q ≢ 0) ⊎ (s1.slpque i ≡ link s p) → s1.slpque i ≡ link s p
      head z (inl nz) = absurd (nz z)
      head z (inr e) = e
