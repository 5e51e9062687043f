-- ===== src/Pipe/Lock.antt =====
-- What holds of a pipe and its processes before and after each step.
use unix_v7_c.Base.{
  ℕ, ◌+◌, ◌≤◌, ◌<◌, ◌≡◌, ◌⊎◌, inl, inr, refl, sym, Bool, true, false, List, [], ◌∷◌, ◌++◌, length,
  arith, Bool-cases,
}
use unix_v7_c.Pipe.{
  Pipe, Proc, read_loop, write_loop, read_locked, write_locked, read_wait, write_wait, reading,
  writing, read_done, write_done, write_epipe, Wakes, wake, wake_all,
}
use unix_v7_c.Base.{◌∙◌}

-- The number of processes that hold the lock.
unfoldable pub inside : Proc → ℕ
inside (reading n o) = 1
inside (writing b c o) = 1
inside p = 0

abbrev pub count : List Proc → ℕ
count [] = 0
count (p ∷ ps) = inside p + count ps

abbrev pub lock_count : Bool → ℕ
lock_count true = 1
lock_count false = 0

-- What holds of a process: where it stands it has what it needs, and one that sleeps will be woken.
unfoldable pub Good : Pipe → Proc → Type 0
Good k (read_locked n) = (k.i_lock ≡ true) × (k.i_want ≡ true)
Good k (write_locked c) = (k.i_lock ≡ true) × (k.i_want ≡ true)
Good k (read_wait n) = (length k.content ≡ 0) × (k.i_read ≡ true)
Good k (write_wait c) = (4096 ≤ length k.content) × (k.i_write ≡ true)
Good k (reading n o) = o ≡ k.f_offset
Good k (writing b c o) = (o ≡ length k.content) × (o < 4096) × (length b ≤ 4096)
Good k p = Unit {0}

abbrev pub AllGood : Pipe → List Proc → Type 0
AllGood k [] = Unit {0}
AllGood k (p ∷ ps) = Good k p × AllGood k ps

-- A change of the pipe and the calls of `wakeup` that go with it.
pub record Safe (k k' : Pipe) (w : Wakes) : Type 0 where
  pub on_ip :
      (w.on_lock ≡ true)
      ⊎ (k.i_lock ≡ true → k.i_want ≡ true → (k'.i_lock ≡ true) × (k'.i_want ≡ true))
  pub readers :
      (w.on_read ≡ true)
      ⊎ (length k.content ≡ 0 → k.i_read ≡ true → (length k'.content ≡ 0) × (k'.i_read ≡ true))
  pub writers :
      (w.on_write ≡ true)
      ⊎ (4096 ≤ length k.content
          → k.i_write ≡ true
          → (4096 ≤ length k'.content) × (k'.i_write ≡ true))

-- The fields that a process inside depends on.
abbrev pub Same : Pipe → Pipe → Type 0
Same k k' = (k'.f_offset ≡ k.f_offset) × (length k'.content ≡ length k.content)

pub wake-Good :
    (k k' : Pipe) (w : Wakes) (q : Proc)
    → Safe k k' w
    → (inside q ≡ 0) ⊎ Same k k'
    → Good k q
    → Good k' (wake w q)
unfolding wake Good inside
wake-Good k k' w (read_locked n) safe s g = elim safe.on_ip [
  | inl woken ↦ rw woken tt
  | inr keep ↦ elim (Bool-cases w.on_lock) [ inl e ↦ rw e tt | inr e ↦ rw e (keep g.0 g.1) ]
]
wake-Good k k' w (write_locked c) safe s g = elim safe.on_ip [
  | inl woken ↦ rw woken tt
  | inr keep ↦ elim (Bool-cases w.on_lock) [ inl e ↦ rw e tt | inr e ↦ rw e (keep g.0 g.1) ]
]
wake-Good k k' w (read_wait n) safe s g = elim safe.readers [
  | inl woken ↦ rw woken tt
  | inr keep ↦ elim (Bool-cases w.on_read) [ inl e ↦ rw e tt | inr e ↦ rw e (keep g.0 g.1) ]
]
wake-Good k k' w (write_wait c) safe s g = elim safe.writers [
  | inl woken ↦ rw woken tt
  | inr keep ↦ elim (Bool-cases w.on_write) [ inl e ↦ rw e tt | inr e ↦ rw e (keep g.0 g.1) ]
]
wake-Good k k' w (reading n o) safe (inl out) g = absurd (omega (arith, out))
wake-Good k k' w (reading n o) safe (inr same) g = g ∙ sym same.0
wake-Good k k' w (writing b c o) safe (inl out) g = absurd (omega (arith, out))
wake-Good k k' w (writing b c o) safe (inr same) g = (g.0 ∙ sym same.1, g.1, g.2)
wake-Good k k' w (read_loop n) safe s g = tt
wake-Good k k' w (write_loop c) safe s g = tt
wake-Good k k' w (read_done b) safe s g = tt
wake-Good k k' w write_done safe s g = tt
wake-Good k k' w write_epipe safe s g = tt

inside-wake : (w : Wakes) (q : Proc) → inside (wake w q) ≡ inside q
unfolding wake inside
inside-wake w (read_locked n) = elim (Bool-cases w.on_lock) [
  | inl e ↦ rw e refl
  | inr e ↦ rw e refl
]
inside-wake w (write_locked n) = elim (Bool-cases w.on_lock) [
  | inl e ↦ rw e refl
  | inr e ↦ rw e refl
]
inside-wake w (read_wait n) = elim (Bool-cases w.on_read) [ inl e ↦ rw e refl | inr e ↦ rw e refl ]
inside-wake w (write_wait n) = elim (Bool-cases w.on_write) [
  | inl e ↦ rw e refl
  | inr e ↦ rw e refl
]
inside-wake w (reading n o) = refl
inside-wake w (writing b c o) = refl
inside-wake w (read_loop n) = refl
inside-wake w (write_loop c) = refl
inside-wake w (read_done b) = refl
inside-wake w write_done = refl
inside-wake w write_epipe = refl

pub count-wake_all : (w : Wakes) (ps : List Proc) → count (wake_all w ps) ≡ count ps
count-wake_all w [] = refl
count-wake_all w (p ∷ ps) = omega (arith, inside-wake w p, count-wake_all w ps)

pub count-append : (l r : List Proc) → count (l ++ r) ≡ count l + count r
count-append [] r = omega arith
count-append (p ∷ l) r = omega (arith, count-append l r)

pub AllGood-wake_all :
    (k k' : Pipe) (w : Wakes) (ps : List Proc)
    → Safe k k' w
    → (count ps ≡ 0) ⊎ Same k k'
    → AllGood k ps
    → AllGood k' (wake_all w ps)
AllGood-wake_all k k' w [] safe s g = tt
AllGood-wake_all k k' w (p ∷ ps) safe (inl none) g = (
  wake-Good k k' w p safe (inl (omega (arith, none))) g.0,
  AllGood-wake_all k k' w ps safe (inl (omega (arith, none))) g.1,
)
AllGood-wake_all k k' w (p ∷ ps) safe (inr same) g =
    (wake-Good k k' w p safe (inr same) g.0, AllGood-wake_all k k' w ps safe (inr same) g.1)

pub AllGood-append : (k : Pipe) (l r : List Proc) → AllGood k l → AllGood k r → AllGood k (l ++ r)
AllGood-append k [] r g h = h
AllGood-append k (p ∷ l) r g h = (g.0, AllGood-append k l r g.1 h)

pub AllGood-split : (k : Pipe) (l r : List Proc) → AllGood k (l ++ r) → AllGood k l × AllGood k r
AllGood-split k [] r g = (tt, g)
AllGood-split k (p ∷ l) r g = let (a, b) = AllGood-split k l r g.1 in ((g.0, a), b)
