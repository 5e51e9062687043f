-- ===== src/Pipe/Kept.antt =====
-- What each step of a process keeps: the order of the bytes, and nobody sleeps unseen.
use unix_v7_c.Base.{
  ◌+◌, ◌≤◌, ◌<◌, ◌≡◌, ◌⊎◌, inl, inr, refl, Bool, true, false, ◌++◌, length, drop, arith,
}
use unix_v7_c.Pipe.{Pipe, Proc, Wakes}
use unix_v7_c.Pipe.Lock.{inside, lock_count, Good, Safe, Same}

-- The bytes that were written are those that were read and then those behind the offset.
pub record IsPipe (k : Pipe) : Type 0 where
  pub offset : k.f_offset ≤ length k.content
  pub order : k.taken ++ drop k.f_offset k.content ≡ k.given
  pub size : length k.content < 8192

-- What a step keeps.
pub record Kept (p : Proc) (k : Pipe) (p' : Proc) (k' : Pipe) (w : Wakes) : Type 0 where
  pub safe : Safe k k' w
  pub good : Good k' p'
  pub pipe : IsPipe k'
  pub lock : lock_count k'.i_lock + inside p ≡ lock_count k.i_lock + inside p'
  pub others : (inside p ≡ 1) ⊎ Same k k'

-- The same bytes and the same offset.
pub same_pipe :
    (k k' : Pipe)
    → k'.content ≡ k.content
    → k'.f_offset ≡ k.f_offset
    → k'.taken ≡ k.taken
    → k'.given ≡ k.given
    → IsPipe k
    → IsPipe k'
same_pipe k k' c o t g pipe = record {
  offset = rw (c, o) pipe.offset;
  order = rw (c, o, t, g) pipe.order;
  size = rw c pipe.size;
}

-- Those that wait for ip are told, or none waits.
pub told : {A B : Type 0} (want : Bool) → (want ≡ true) ⊎ (B → want ≡ true → A)
told true = inl refl
told false = inr (λ a b. absurd (ground (arith, b)))

pub nobody : {A : Type 0} (woken want : Bool) → (woken ≡ true) ⊎ (false ≡ true → want ≡ true → A)
nobody woken want = inr (λ a b. absurd (ground (arith, a)))
