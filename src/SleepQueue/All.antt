-- ===== src/SleepQueue/All.antt =====
-- The loop of `wakeup`, by induction on the sleep queue.
use unix_v7_c.Base.{
  ℕ, ◌+◌, ◌≤◌, ◌≡◌, ◌≢◌, refl, ap, sym, ◌∙◌, Bool, true, false, ◌⊎◌, inl, inr, List, ◌∷◌, arith,
  ◌==◌, length, has, Distinct, Bool-cases, subst,
}
use unix_v7_c.SleepQueue.{Proc, State, link, slot, ssleep, srun}
use unix_v7_c.SleepQueue.Segments.{Queue, Queue-frame, has-ne}
use unix_v7_c.SleepQueue.Taken.{Taken, slot-by}
use unix_v7_c.SleepQueue.Wake.{Wakes, kept, woken, kept-has, slot-link}

-- What the loop finds: the list sleeps, and m says who sleeps on the channel.
pub record Finds (s : State) (chan nproc : ℕ) (m : ℕ → Bool) (i q p : ℕ) (l r : List ℕ)
    : Type 0 where
  pub queue : Queue s.procs p l
  pub at : slot s i q ≡ p
  pub distinct : Distinct l
  pub before : has q l ≡ false
  pub asleep :
      (x : ℕ)
      → has x l ≡ true
      → ((s.procs x).p_stat ≡ ssleep) × (((s.procs x).p_wchan == chan) ≡ m x)
  pub run : Queue s.procs s.runq r
  pub apart : (x : ℕ) → has x l ≡ true → has x r ≡ false
  pub before_run : has q r ≡ false
  pub few : length l + length r ≤ nproc
  pub quiet : s.runout ≡ false

has_later : (x y : ℕ) (xs : List ℕ) → has y xs ≡ true → has y (x ∷ xs) ≡ true
has_later x y xs h = ground (arith, h)

has_first : (x : ℕ) (xs : List ℕ) → has x (x ∷ xs) ≡ true
has_first x xs = ground arith

not_has : (x y : ℕ) (xs : List ℕ) → has y (x ∷ xs) ≡ false → (y ≢ x) × (has y xs ≡ false)
not_has x y xs h = ground (arith, h)

pub has_neither : (x y : ℕ) (xs : List ℕ) → y ≢ x → has y xs ≡ false → has y (x ∷ xs) ≡ false
has_neither x y xs ne h = ground (arith, ne, h)

pub has_cases : (x y : ℕ) (xs : List ℕ) → has y (x ∷ xs) ≡ true → (y ≡ x) ⊎ (has y xs ≡ true)
has_cases x y xs h = elim (Bool-cases (y == x)) [
  | inl e ↦ inl (ground (arith, e))
  | inr e ↦ inr (ground (arith, e, h))
]

kept-stays : (m : ℕ → Bool) (x : ℕ) (xs : List ℕ) → m x ≡ false → kept m (x ∷ xs) ≡ x ∷ kept m xs
kept-stays m x xs e = rw e refl

kept-goes : (m : ℕ → Bool) (x : ℕ) (xs : List ℕ) → m x ≡ true → kept m (x ∷ xs) ≡ kept m xs
kept-goes m x xs e = rw e refl

woken-stays :
    (m : ℕ → Bool) (x : ℕ) (xs r : List ℕ) → m x ≡ false → woken m (x ∷ xs) r ≡ woken m xs r
woken-stays m x xs r e = rw e refl

woken-goes :
    (m : ℕ → Bool) (x : ℕ) (xs r : List ℕ) → m x ≡ true → woken m (x ∷ xs) r ≡ woken m xs (x ∷ r)
woken-goes m x xs r e = rw e refl

module _ (chan nproc : ℕ) (m : ℕ → Bool) (i q x : ℕ) (xs r : List ℕ) (s : State)
    (f : Finds s chan nproc m i q x (x ∷ xs) r) where
  -- The process stays.
  pub keep_Finds : Finds s chan nproc m i x (link s x) xs r
  keep_Finds = record {
    queue = f.queue.2;
    at = slot-link s i x f.queue.1;
    distinct = f.distinct.1;
    before = f.distinct.0;
    asleep = λ y h. f.asleep y (has_later x y xs h);
    run = f.run;
    apart = λ y h. f.apart y (has_later x y xs h);
    before_run = f.apart x (has_first x xs);
    few = omega (arith, f.few);
    quiet = f.quiet;
  }

  pub keep-Wakes : (t : State) → m x ≡ false → Wakes s t m i x xs r → Wakes s t m i q (x ∷ xs) r
  keep-Wakes t stays w = record {
    queue = subst (Queue t.procs (slot t i q)) (sym (kept-stays m x xs stays)) (
      same_slot ∙ f.at,
      f.queue.1,
      subst (λ v. Queue t.procs v (kept m xs)) (slot-link t i x f.queue.1) w.queue,
    );
    run = subst (Queue t.procs t.runq) (sym (woken-stays m x xs r stays)) w.run;
    stay = λ y h.
        stay y
          (has_cases x y (kept m xs) (subst (λ v. has y v ≡ true) (kept-stays m x xs stays) h));
    ready = λ y h goes. ready y goes (has_cases x y xs h);
    others = λ y h ne. w.others y (not_has x y xs h).1 (not_has x y xs h).0;
    last = λ nz.
        same_q ∙ ap (λ v. record (s.procs q) { p_link = v }) (sym (same_slot ∙ slot-link s i q nz));
    heads = λ j h. w.heads j (inl f.queue.1);
  }
    where
      same_q : t.procs q ≡ s.procs q
      same_q = w.others q (not_has x q xs f.before).1 (not_has x q xs f.before).0

      same_slot : slot t i q ≡ slot s i q
      same_slot =
          slot-by t i q (slot s i q)
            (λ z.
              w.heads i (inl f.queue.1)
              ∙ sym (slot-by s i q (s.slpque i) (λ _. refl) (λ nz. absurd (nz z))))
            (λ nz. ap (λ v. v.p_link) same_q ∙ sym (slot-link s i q nz))

      stay :
          (y : ℕ)
          → (y ≡ x) ⊎ (has y (kept m xs) ≡ true)
          → t.procs y ≡ record (s.procs y) { p_link = link t y }
      stay y (inl e) =
          subst (λ v. t.procs v ≡ record (s.procs v) { p_link = link t v }) (sym e)
            (w.last f.queue.1
              ∙ ap (λ v. record (s.procs x) { p_link = v }) (slot-link t i x f.queue.1))
      stay y (inr h) = w.stay y h

      ready :
          (y : ℕ)
          → m y ≡ true
          → (y ≡ x) ⊎ (has y xs ≡ true)
          → ((t.procs y).p_stat ≡ srun) × ((t.procs y).p_wchan ≡ 0)
      ready y goes (inl e) = absurd (ground (arith, ap m e, stays, goes))
      ready y goes (inr h) = w.ready y h goes

  -- The process is woken.
  pub take_Finds : (t : State) → Taken s t i q x → Finds t chan nproc m i q (link s x) xs (x ∷ r)
  take_Finds t k = record {
    queue =
        Queue-frame s.procs t.procs (link s x) xs (λ y h. ap (λ v. v.p_link) (same y h)) f.queue.2;
    at = k.next;
    distinct = f.distinct.1;
    before = (not_has x q xs f.before).1;
    asleep = λ y h.
        subst (λ v. (v.p_stat ≡ ssleep) × ((v.p_wchan == chan) ≡ m y)) (sym (same y h))
          (f.asleep y (has_later x y xs h));
    run = (
      k.first,
      f.queue.1,
      rw (k.ready.2)
          (Queue-frame s.procs t.procs s.runq r (λ y h. ap (λ v. v.p_link) (same_run y h)) f.run),
    );
    apart = λ y h.
        has_neither x y r (λ e. has-ne y x xs h f.distinct.0 (sym e))
          (f.apart y (has_later x y xs h));
    before_run = has_neither x q r (not_has x q xs f.before).0 f.before_run;
    few = omega (arith, f.few);
    quiet = k.runout;
  }
    where
      same : (y : ℕ) → has y xs ≡ true → t.procs y ≡ s.procs y
      same y h =
          k.others y (λ e. has-ne y x xs h f.distinct.0 (sym e))
            (λ e. has-ne y q xs h (not_has x q xs f.before).1 (sym e))

      same_run : (y : ℕ) → has y r ≡ true → t.procs y ≡ s.procs y
      same_run y h =
          k.others y (λ e. has-ne y x r h (f.apart x (has_first x xs)) (sym e))
            (λ e. has-ne y q r h f.before_run (sym e))

  pub take-Wakes :
      (t u : State)
      → m x ≡ true
      → Taken s t i q x
      → Wakes t u m i q xs (x ∷ r)
      → Wakes s u m i q (x ∷ xs) r
  take-Wakes t u goes k w = record {
    queue = subst (Queue u.procs (slot u i q)) (sym (kept-goes m x xs goes)) w.queue;
    run = subst (Queue u.procs u.runq) (sym (woken-goes m x xs r goes)) w.run;
    stay = λ y h. stay y (subst (λ v. has y v ≡ true) (kept-goes m x xs goes) h);
    ready = λ y h g. ready y g (has_cases x y xs h);
    others = λ y h ne. w.others y (not_has x y xs h).1 ne ∙ k.others y (not_has x y xs h).0 ne;
    last = λ nz. w.last nz ∙ ap (λ (v : Proc). record v { p_link = slot u i q }) (k.last nz);
    heads = λ j h. w.heads j h ∙ k.heads j h;
  }
    where
      stay :
          (y : ℕ) → has y (kept m xs) ≡ true → u.procs y ≡ record (s.procs y) { p_link = link u y }
      stay y h =
          let h' = kept-has m y xs h in
          w.stay y h
          ∙ ap (λ (v : Proc). record v { p_link = link u y })
              (k.others y (λ e. has-ne y x xs h' f.distinct.0 (sym e))
                (λ e. has-ne y q xs h' (not_has x q xs f.before).1 (sym e)))

      ready :
          (y : ℕ)
          → m y ≡ true
          → (y ≡ x) ⊎ (has y xs ≡ true)
          → ((u.procs y).p_stat ≡ srun) × ((u.procs y).p_wchan ≡ 0)
      ready y g (inl e) =
          let same : u.procs x ≡ t.procs x =
            w.others x f.distinct.0 (λ z. (not_has x q xs f.before).0 (sym z)) in
          subst (λ v. ((u.procs v).p_stat ≡ srun) × ((u.procs v).p_wchan ≡ 0)) (sym e)
            (ap (λ v. v.p_stat) same ∙ k.ready.0, ap (λ v. v.p_wchan) same ∙ k.ready.1)
      ready y g (inr h) = w.ready y h g
