-- ===== src/SleepQueue/Wake.antt =====
-- `wakeup` wakes all that sleep on the channel, and no others.
use unix_v7_c.Base.{
  ℕ, suc, ◌≡◌, ◌≢◌, refl, Bool, true, false, ◌&&◌, not, ◌⊎◌, inl, inr, List, [], ◌∷◌, Option, some,
  arith, ◌==◌, if◌then◌else◌, has, Bool-cases,
}
use unix_v7_c.SleepQueue.{State, link, slot, wake_from, srun, szomb}
use unix_v7_c.SleepQueue.Segments.{Queue}
use unix_v7_c.SleepQueue.Taken.{taken_off, slot-by}

-- Those of the list that the test leaves, in order.
abbrev pub kept : (ℕ → Bool) → List ℕ → List ℕ
kept m [] = []
kept m (x ∷ xs) = if m x then kept m xs else x ∷ kept m xs

-- Those that the test takes go in front of the run queue, one after the other.
abbrev pub woken : (ℕ → Bool) → List ℕ → List ℕ → List ℕ
woken m [] r = r
woken m (x ∷ xs) r = if m x then woken m xs (x ∷ r) else woken m xs r

-- From s to t, the processes of the list that the test m takes were woken, behind q on the queue i.
pub record Wakes (s t : State) (m : ℕ → Bool) (i q : ℕ) (l r : List ℕ) : Type 0 where
  pub queue : Queue t.procs (slot t i q) (kept m l)
  pub run : Queue t.procs t.runq (woken m l r)
  pub stay :
      (x : ℕ) → has x (kept m l) ≡ true → t.procs x ≡ record (s.procs x) { p_link = link t x }
  pub ready :
      (x : ℕ)
      → has x l ≡ true
      → m x ≡ true
      → ((t.procs x).p_stat ≡ srun) × ((t.procs x).p_wchan ≡ 0)
  pub others : (x : ℕ) → has x l ≡ false → x ≢ q → t.procs x ≡ s.procs x
  pub last : q ≢ 0 → t.procs q ≡ record (s.procs q) { p_link = slot t i q }
  pub heads : (j : ℕ) → (q ≢ 0) ⊎ (j ≢ i) → t.slpque j ≡ s.slpque j

pub kept-has : (m : ℕ → Bool) (x : ℕ) (l : List ℕ) → has x (kept m l) ≡ true → has x l ≡ true
kept-has m x [] h = h
kept-has m x (y ∷ l) h = elim (Bool-cases (m y)) [
  | inl e ↦
      let rest : has x (kept m l) ≡ true = rw e at h in
      let h' = kept-has m x l rest in ground (arith, h')
  | inr e ↦ elim (Bool-cases (x == y)) [
    | inl f ↦ rw f refl
    | inr f ↦ let rest : has x (kept m l) ≡ true = rw (e, f) at h in rw f (kept-has m x l rest)
  ]
]

pub slot-link : (t : State) (i q : ℕ) → q ≢ 0 → slot t i q ≡ link t q
slot-link t i q nz = slot-by t i q (link t q) (λ z. absurd (nz z)) (λ _. refl)

module _ (nproc : ℕ) (run : ℕ → State → Option State) (chan i : ℕ) where
  pub wake_from-keep :
      (n q p : ℕ) (s : State)
      → (p == 0) ≡ false
      → ((s.procs p).p_wchan == chan) && not ((s.procs p).p_stat == szomb) ≡ false
      → wake_from nproc (suc n) run chan i q p s ≡ wake_from nproc n run chan i p (link s p) s
  unfolding wake_from
  wake_from-keep n q p s a b = rw (a, b) refl

  pub wake_from-take :
      (n q p : ℕ) (s t : State)
      → (p == 0) ≡ false
      → ((s.procs p).p_wchan == chan) && not ((s.procs p).p_stat == szomb) ≡ true
      → run p (taken_off s i q p) ≡ some t
      → wake_from nproc (suc n) run chan i q p s ≡ wake_from nproc n run chan i q (link s p) t
  unfolding wake_from
  wake_from-take n q p s t a b e = rw (a, b, e) refl
