-- ===== src/Pipe/Deadlock.antt =====
-- When no process of a pipe can go on.
use unix_v7_c.Base.{
  ◌≤◌, ◌≡◌, ◌⊎◌, inl, inr, refl, sym, ◌∙◌, Bool, true, false, List, [], ◌∷◌, length, arith,
  Bool-cases, ◌==◌,
}
use unix_v7_c.Pipe.{
  Pipe, Proc, read_loop, write_loop, read_locked, write_locked, read_wait, write_wait, reading,
  writing, read_done, write_done, write_epipe, Steps,
}
use unix_v7_c.Pipe.Lock.{inside, count, lock_count, Good, AllGood}
use unix_v7_c.Pipe.Sleepers.{IsFresh, AreCalls, steps_exclude, steps_sleepers}

-- The process is asleep or has returned.
unfoldable pub IsAtRest : Proc → Type 0
IsAtRest (read_loop n) = ⊥
IsAtRest (write_loop c) = ⊥
IsAtRest (reading n o) = ⊥
IsAtRest (writing b c o) = ⊥
IsAtRest p = Unit {0}

-- The process waits for bytes, or has returned.
pub IsReader : Proc → Type 0
IsReader (read_wait n) = Unit {0}
IsReader (read_done b) = Unit {0}
IsReader write_done = Unit {0}
IsReader write_epipe = Unit {0}
IsReader p = ⊥

-- The process waits for room, or has returned.
pub IsWriter : Proc → Type 0
IsWriter (write_wait c) = Unit {0}
IsWriter (read_done b) = Unit {0}
IsWriter write_done = Unit {0}
IsWriter write_epipe = Unit {0}
IsWriter p = ⊥

abbrev pub Each : (Proc → Type 0) → List Proc → Type 0
Each P [] = Unit {0}
Each P (p ∷ ps) = P p × Each P ps

rest-inside : (p : Proc) → IsAtRest p → inside p ≡ 0
unfolding IsAtRest inside
rest-inside (read_loop n) r = absurd r
rest-inside (write_loop c) r = absurd r
rest-inside (reading n o) r = absurd r
rest-inside (writing b c o) r = absurd r
rest-inside (read_locked n) r = refl
rest-inside (write_locked c) r = refl
rest-inside (read_wait n) r = refl
rest-inside (write_wait c) r = refl
rest-inside (read_done b) r = refl
rest-inside write_done r = refl
rest-inside write_epipe r = refl

rest-count : (ps : List Proc) → Each IsAtRest ps → count ps ≡ 0
rest-count [] r = refl
rest-count (p ∷ ps) r = omega (arith, rest-inside p r.0, rest-count ps r.1)

rest-IsReader :
    (k : Pipe) (p : Proc)
    → k.i_lock ≡ false
    → length k.content ≡ 0
    → IsAtRest p
    → Good k p
    → IsReader p
unfolding IsAtRest IsReader Good
rest-IsReader k (read_loop n) free none r g = absurd r
rest-IsReader k (write_loop c) free none r g = absurd r
rest-IsReader k (reading n o) free none r g = absurd r
rest-IsReader k (writing b c o) free none r g = absurd r
rest-IsReader k (read_locked n) free none r g = absurd (ground (arith, free, g.0))
rest-IsReader k (write_locked c) free none r g = absurd (ground (arith, free, g.0))
rest-IsReader k (read_wait n) free none r g = tt
rest-IsReader k (write_wait c) free none r g = absurd (omega (arith, none, g.0))
rest-IsReader k (read_done b) free none r g = tt
rest-IsReader k write_done free none r g = tt
rest-IsReader k write_epipe free none r g = tt

rest-IsWriter :
    (k : Pipe) (p : Proc)
    → k.i_lock ≡ false
    → 1 ≤ length k.content
    → IsAtRest p
    → Good k p
    → IsWriter p
unfolding IsAtRest IsWriter Good
rest-IsWriter k (read_loop n) free some r g = absurd r
rest-IsWriter k (write_loop c) free some r g = absurd r
rest-IsWriter k (reading n o) free some r g = absurd r
rest-IsWriter k (writing b c o) free some r g = absurd r
rest-IsWriter k (read_locked n) free some r g = absurd (ground (arith, free, g.0))
rest-IsWriter k (write_locked c) free some r g = absurd (ground (arith, free, g.0))
rest-IsWriter k (read_wait n) free some r g = absurd (omega (arith, some, g.0))
rest-IsWriter k (write_wait c) free some r g = tt
rest-IsWriter k (read_done b) free some r g = tt
rest-IsWriter k write_done free some r g = tt
rest-IsWriter k write_epipe free some r g = tt

each :
    {P : Proc → Type 0} (k : Pipe) (ps : List Proc)
    → ((p : Proc) → IsAtRest p → Good k p → P p)
    → Each IsAtRest ps
    → AllGood k ps
    → Each P ps
each k [] f r g = tt
each k (p ∷ ps) f r g = (f p r.0 g.0, each k ps f r.1 g.1)

unlocked : (lock : Bool) → lock_count lock ≡ 0 → lock ≡ false
unlocked true h = absurd (omega (arith, h))
unlocked false h = refl

-- Readers and writers of one pipe never block each other: when each process is asleep or has
-- returned, then all that sleep wait for bytes in an empty pipe, or all that sleep wait for room.
pub steps_deadlock :
    (ps : List Proc) (k : Pipe) (qs : List Proc) (k' : Pipe)
    → IsFresh k
    → AreCalls ps
    → Steps ps k qs k'
    → Each IsAtRest qs
    → ((length k'.content ≡ 0) × Each IsReader qs) ⊎ ((1 ≤ length k'.content) × Each IsWriter qs)
steps_deadlock ps k qs k' fresh calls run rest =
    let free =
      unlocked k'.i_lock (sym (steps_exclude ps k qs k' fresh calls run) ∙ rest-count qs rest) in
    let good = steps_sleepers ps k qs k' fresh calls run in
    elim (Bool-cases (length k'.content == 0)) [
      | inl e ↦
          let none : length k'.content ≡ 0 = ground (arith, e) in
          inl (none, each k' qs (λ p. rest-IsReader k' p free none) rest good)
      | inr e ↦
          let some : 1 ≤ length k'.content = ground (arith, e) in
          inr (some, each k' qs (λ p. rest-IsWriter k' p free some) rest good)
    ]
