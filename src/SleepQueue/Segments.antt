-- ===== src/SleepQueue/Segments.antt =====
-- Queues as lists of processes.
use unix_v7_c.Base.{
  ℕ, zero, suc, ◌<◌, ◌≡◌, ◌≢◌, refl, ap, true, false, List, [], ◌∷◌, some, arith, ◌==◌, length, has,
}
use unix_v7_c.SleepQueue.{Proc, State, link, on_queue, replaced}

-- The queue from the pointer p on holds the processes of the list, and ends with NULL.
abbrev pub Queue : (ℕ → Proc) → ℕ → List ℕ → Type 0
Queue procs p [] = p ≡ 0
Queue procs p (x ∷ xs) = (p ≡ x) × (x ≢ 0) × Queue procs (procs x).p_link xs

pub replaced_self : {A : Type 0} (f : ℕ → A) (i : ℕ) (v : A) → replaced f i v i ≡ v
replaced_self f i v = let e : (i == i) ≡ true = ground arith in rw e refl

pub replaced-ne : {A : Type 0} (f : ℕ → A) (i : ℕ) (v : A) (j : ℕ) → i ≢ j → replaced f i v j ≡ f j
replaced-ne f i v j ne = let e : (i == j) ≡ false = ground (arith, ne) in rw e refl

pub has-ne : (x y : ℕ) (xs : List ℕ) → has x xs ≡ true → has y xs ≡ false → y ≢ x
has-ne x y xs h out e = absurd (ground (arith, h, out, ap (λ z. has z xs) e))

-- Only the links of its members matter.
pub Queue-frame :
    (procs procs' : ℕ → Proc) (p : ℕ) (xs : List ℕ)
    → ((x : ℕ) → has x xs ≡ true → (procs' x).p_link ≡ (procs x).p_link)
    → Queue procs p xs
    → Queue procs' p xs
Queue-frame procs procs' p [] same h = h
Queue-frame procs procs' p (x ∷ xs) same (e, nz, rest) =
    let here : (procs' x).p_link ≡ (procs x).p_link = same x (ground arith) in
    (
      e,
      nz,
      rw here
          (Queue-frame procs procs' (procs x).p_link xs (λ y h. same y (ground (arith, h))) rest),
    )

-- A process that is not on the queue is not found there.
pub on_queue-absent :
    (n : ℕ) (s : State) (p q : ℕ) (xs : List ℕ)
    → Queue s.procs q xs
    → has p xs ≡ false
    → length xs < n
    → on_queue n s p q ≡ some false
unfolding on_queue
on_queue-absent zero s p q xs h out few = absurd (omega (arith, few))
on_queue-absent (suc n) s p q [] h out few = rw h refl
on_queue-absent (suc n) s p q (x ∷ xs) (e, nz, rest) out few =
    let nz' : (x == 0) ≡ false = ground (arith, nz) in
    let other : (x == p) ≡ false = ground (arith, out) in
    rw (e, nz', other)
      (on_queue-absent n s p (link s x) xs rest (ground (arith, out)) (omega (arith, few)))
