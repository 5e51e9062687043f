-- ===== src/Pipe/Sleepers.antt =====
-- All processes of a pipe, after any steps in any order.
use unix_v7_c.Base.{
  ℕ, ◌+◌, ◌≤◌, ◌<◌, ◌≡◌, ◌⊎◌, inl, inr, refl, sym, ap, ◌∙◌, Bool, true, false, List, [], ◌∷◌, ◌++◌,
  length, drop, arith,
}
use unix_v7_c.Pipe.{
  Pipe, Proc, read_loop, write_loop, read_locked, write_locked, read_wait, write_wait, reading,
  writing, read_done, write_done, write_epipe, wake_all, silent, act,
}
use unix_v7_c.Pipe.Lock.{inside, count, lock_count, Good, Same}
use unix_v7_c.Pipe.Kept.{IsPipe, Kept}
use unix_v7_c.Pipe.Reader.{read_try-Kept, read_end-Kept}
use unix_v7_c.Pipe.Writer.{write_try-Kept, write_end-Kept}
use unix_v7_c.Pipe.{Step, step, Steps, stay, more}
use unix_v7_c.Pipe.Lock.{
  AllGood, AllGood-wake_all, AllGood-append, AllGood-split, count-append, count-wake_all,
}
use unix_v7_c.Base.{◌*◌}
use unix_v7_c.Pipe.{pipsiz}

inside-lock : (n : ℕ) (lock : Bool) → 1 + n ≡ lock_count lock → lock ≡ true
inside-lock n true h = refl
inside-lock n false h = absurd (omega (arith, h))

lock_count_le : (lock : Bool) → lock_count lock ≤ 1
lock_count_le true = omega arith
lock_count_le false = omega arith

same-Kept : (p : Proc) (k : Pipe) → Good k p → IsPipe k → inside p ≡ 0 → Kept p k p k silent
same-Kept p k good pipe out = record {
  safe = record {
    on_ip = inr (λ a b. (a, b));
    readers = inr (λ a b. (a, b));
    writers = inr (λ a b. (a, b));
  };
  good = good;
  pipe = pipe;
  lock = refl;
  others = inr (refl, refl);
}

-- Each step.
pub act-Kept :
    (p : Proc) (k : Pipe) (n : ℕ)
    → IsPipe k
    → Good k p
    → inside p + n ≡ lock_count k.i_lock
    → let (p', k', w) = act p k in Kept p k p' k' w
unfolding act Good inside
act-Kept (read_loop m) k n pipe good held = read_try-Kept m k pipe
act-Kept (write_loop c) k n pipe good held = write_try-Kept c k pipe
act-Kept (reading m o) k n pipe good held =
    read_end-Kept m o k pipe good (inside-lock n k.i_lock held)
act-Kept (writing b c o) k n pipe good held =
    write_end-Kept b c o k pipe good (inside-lock n k.i_lock held)
act-Kept (read_locked m) k n pipe good held = same-Kept (read_locked m) k good pipe refl
act-Kept (write_locked c) k n pipe good held = same-Kept (write_locked c) k good pipe refl
act-Kept (read_wait m) k n pipe good held = same-Kept (read_wait m) k good pipe refl
act-Kept (write_wait c) k n pipe good held = same-Kept (write_wait c) k good pipe refl
act-Kept (read_done b) k n pipe good held = same-Kept (read_done b) k good pipe refl
act-Kept write_done k n pipe good held = same-Kept write_done k good pipe refl
act-Kept write_epipe k n pipe good held = same-Kept write_epipe k good pipe refl

-- A pipe and its processes.
pub record Invariant (ps : List Proc) (k : Pipe) : Type 0 where
  pub holder : count ps ≡ lock_count k.i_lock
  pub all : AllGood k ps
  pub pipe : IsPipe k

spread : (k k' : Pipe) (n m c : ℕ) → (n ≡ 1) ⊎ Same k k' → c ≤ m → n + m ≤ 1 → (c ≡ 0) ⊎ Same k k'
spread k k' n m c (inl one) le h = inl (omega (arith, one))
spread k k' n m c (inr same) le h = inr same

Step-Invariant :
    {ps : List Proc} {k : Pipe} {qs : List Proc} {k' : Pipe}
    → Step ps k qs k'
    → Invariant ps k
    → Invariant qs k'
Step-Invariant (step l r p k) inv =
    let (left, (here, right)) = AllGood-split k l (p ∷ r) inv.all in
    let split : count l + (inside p + count r) ≡ lock_count k.i_lock =
      sym (count-append l (p ∷ r)) ∙ inv.holder in
    let held : inside p + (count l + count r) ≡ lock_count k.i_lock = omega (arith, split) in
    let sum = count-append (wake_all (act p k).2 l) ((act p k).0 ∷ wake_all (act p k).2 r) in
    let same_l = count-wake_all (act p k).2 l in
    let same_r = count-wake_all (act p k).2 r in
    let most = lock_count_le k.i_lock in
    let kept = act-Kept p k (count l + count r) inv.pipe here held in
    let k' = (act p k).1 in
    let w = (act p k).2 in
    let le : inside p + (count l + count r) ≤ 1 = omega (arith, held, most) in
    record {
      holder = omega (arith, sum, same_l, same_r, held, kept.lock);
      all =
          AllGood-append k' (wake_all w l) ((act p k).0 ∷ wake_all w r)
            (AllGood-wake_all k k' w l kept.safe
              (spread k k' (inside p) (count l + count r) (count l) kept.others (omega arith) le)
              left)
            (
              kept.good,
              AllGood-wake_all k k' w r kept.safe
                  (spread k k' (inside p) (count l + count r) (count r) kept.others (omega arith)
                    le)
                  right,
            );
      pipe = kept.pipe;
    }

Steps-Invariant :
    {ps : List Proc} {k : Pipe} {qs : List Proc} {k' : Pipe}
    → Steps ps k qs k'
    → Invariant ps k
    → Invariant qs k'
Steps-Invariant stay inv = inv
Steps-Invariant (more before last) inv = Step-Invariant last (Steps-Invariant before inv)

-- Processes that call `readp` and `writep`.
pub data AreCalls : List Proc → Type 0 where
  nobody_calls : AreCalls []
  reader : (n : ℕ) (ps : List Proc) → AreCalls ps → AreCalls (read_loop n ∷ ps)
  writer : (c : List ℕ) (ps : List Proc) → AreCalls ps → AreCalls (write_loop c ∷ ps)

-- The pipe as `pipe` makes it.
abbrev pub IsFresh : Pipe → Type 0
IsFresh k =
    (k.i_lock ≡ false) × (k.content ≡ []) × (k.f_offset ≡ 0) × (k.given ≡ []) × (k.taken ≡ [])

calls-Good : (ps : List Proc) (k : Pipe) → AreCalls ps → (count ps ≡ 0) × AllGood k ps
unfolding inside Good
calls-Good _ k nobody_calls = (refl, tt)
calls-Good _ k (reader n ps c) =
    let (none, good) = calls-Good ps k c in (omega (arith, none), (tt, good))
calls-Good _ k (writer b ps c) =
    let (none, good) = calls-Good ps k c in (omega (arith, none), (tt, good))

fresh-Invariant : (ps : List Proc) (k : Pipe) → IsFresh k → AreCalls ps → Invariant ps k
fresh-Invariant ps k (lock, content, offset, given, taken) calls =
    let (none, good) = calls-Good ps k calls in
    record {
      holder = none ∙ sym (ap lock_count lock);
      all = good;
      pipe = record {
        offset = rw (offset, content) (omega arith);
        order = rw (offset, content, given, taken) refl;
        size = rw content (omega arith);
      };
    }

-- Any number of readers and writers share a pipe that starts empty. After any steps, in any order,
-- the bytes that were read and then those that stand behind the offset are the bytes that were
-- written, in their order.
pub steps_order :
    (ps : List Proc) (k : Pipe) (qs : List Proc) (k' : Pipe)
    → IsFresh k
    → AreCalls ps
    → Steps ps k qs k'
    → k'.taken ++ drop k'.f_offset k'.content ≡ k'.given
steps_order ps k qs k' fresh calls run =
    (Steps-Invariant run (fresh-Invariant ps k fresh calls)).pipe.order

-- The file of a pipe never has 2 * PIPSIZ bytes, and its offset stays inside.
pub steps_bounds :
    (ps : List Proc) (k : Pipe) (qs : List Proc) (k' : Pipe)
    → IsFresh k
    → AreCalls ps
    → Steps ps k qs k'
    → (length k'.content < 2 * pipsiz) × (k'.f_offset ≤ length k'.content)
steps_bounds ps k qs k' fresh calls run =
    let inv = Steps-Invariant run (fresh-Invariant ps k fresh calls) in
    (inv.pipe.size, inv.pipe.offset)

-- One process at most reads or writes the file at a time: the number of these is 1 while the pipe is
-- locked, and otherwise 0.
pub steps_exclude :
    (ps : List Proc) (k : Pipe) (qs : List Proc) (k' : Pipe)
    → IsFresh k
    → AreCalls ps
    → Steps ps k qs k'
    → count qs ≡ lock_count k'.i_lock
steps_exclude ps k qs k' fresh calls run =
    (Steps-Invariant run (fresh-Invariant ps k fresh calls)).holder

-- Nobody sleeps without reason: a process asleep on the lock has it held and IWANT set, a reader
-- asleep has an empty pipe and IREAD set, and a writer asleep a full pipe and IWRITE set.
pub steps_sleepers :
    (ps : List Proc) (k : Pipe) (qs : List Proc) (k' : Pipe)
    → IsFresh k
    → AreCalls ps
    → Steps ps k qs k'
    → AllGood k' qs
steps_sleepers ps k qs k' fresh calls run =
    (Steps-Invariant run (fresh-Invariant ps k fresh calls)).all
