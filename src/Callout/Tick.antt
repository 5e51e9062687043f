-- ===== src/Callout/Tick.antt =====
-- A clock tick calls what is due, in order, and moves every other deadline one tick nearer.
use unix_v7_c.Base.{
  ℕ, suc, ◌+◌, ◌-◌, ◌≤◌, ◌<◌, ◌≡◌, refl, ap, sym, ◌∙◌, false, List, [], ◌∷◌, ◌++◌, arith, leb,
  length, length-append, Bool-cases, inl, inr,
}
use unix_v7_c.Callout.{Callo, Request, ok, ncall, decrement, call_due, tick, fire}
use unix_v7_c.Callout.Deadlines.{pending, add_all, elapse, later, due, asked, IsAhead}
use unix_v7_c.Callout.Ripe.{
  ripe, unripe, inserts, wanted, ripe-append-unripe, AllZero-ripe, IsWaiting-unripe, fire-ripe,
  pending-inserts,
}

pending-suc : (b : ℕ) (c : List Callo) → elapse (pending (suc b) c) ≡ pending b c
unfolding pending elapse
pending-suc b [] = refl
pending-suc b (p ∷ ps) = ground (arith, pending-suc (b + p.c_time) ps)

pub pending-decrement : (c : List Callo) → pending 0 (decrement c) ≡ elapse (pending 0 c)
unfolding decrement pending elapse
pending-decrement [] = refl
pending-decrement (p ∷ ps) = ground (arith, pending-decrement ps, pending-suc (p.c_time - 1) ps)

due-of_pos : (b : ℕ) (c : List Callo) → 1 ≤ b → due (pending b c) ≡ []
unfolding due pending
due-of_pos b [] h = refl
due-of_pos b (p ∷ ps) h = ground (arith, due-of_pos (b + p.c_time) ps)

later-of_pos : (b : ℕ) (c : List Callo) → 1 ≤ b → later (pending b c) ≡ pending b c
unfolding later pending
later-of_pos b [] h = refl
later-of_pos b (p ∷ ps) h = ground (arith, later-of_pos (b + p.c_time) ps)

later-pending : (c : List Callo) → later (pending 0 c) ≡ pending 0 (unripe c)
unfolding later pending unripe
later-pending [] = refl
later-pending (p ∷ ps) = ground (arith, later-pending ps, later-of_pos p.c_time ps)

asked-wanted :
    (calls : ℕ → ℕ → List Request) (c : List Callo)
    → asked calls (due (pending 0 c)) ≡ wanted calls (ripe c)
unfolding asked due pending wanted ripe
asked-wanted calls [] = refl
asked-wanted calls (p ∷ ps) = ground (arith, asked-wanted calls ps, due-of_pos p.c_time ps)

length-decrement : (c : List Callo) → length (decrement c) ≡ length c
unfolding decrement
length-decrement [] = refl
length-decrement (p ∷ ps) = ground (arith, length-decrement ps)

tick-call_due :
    (calls : ℕ → ℕ → List Request) (c : List Callo) → tick calls c ≡ call_due calls (decrement c)
unfolding tick call_due decrement
tick-call_due calls [] = refl
tick-call_due calls (p ∷ ps) = refl

ripe-of_wait : (p : Callo) (ps : List Callo) → leb p.c_time 0 ≡ false → ripe (p ∷ ps) ≡ []
unfolding ripe
ripe-of_wait p ps wait = rw wait

unripe-of_wait : (p : Callo) (ps : List Callo) → leb p.c_time 0 ≡ false → unripe (p ∷ ps) ≡ p ∷ ps
unfolding unripe
unripe-of_wait p ps wait = rw wait

module _ (calls : ℕ → ℕ → List Request) where
  fire-inserts :
      (c : List Callo)
      → IsAhead (wanted calls (ripe c))
      → length c + length (wanted calls (ripe c)) < ncall
      → fire calls ncall 0 c ≡ ok (inserts (wanted calls (ripe c)) (unripe c))
  fire-inserts c a room =
      let whole : ripe c ++ unripe c ≡ c = ripe-append-unripe c in
      let n = length-append (ripe c) (unripe c) in
      let n' : length (ripe c ++ unripe c) ≡ length c = ap length whole in
      ap (fire calls ncall 0) (sym whole)
      ∙ fire-ripe calls ncall [] (ripe c) (unripe c) tt (AllZero-ripe c) (IsWaiting-unripe c) a
          (omega arith) (omega arith)

  call_due-inserts :
      (c : List Callo)
      → IsAhead (wanted calls (ripe c))
      → length c + length (wanted calls (ripe c)) < ncall
      → call_due calls c ≡ ok (inserts (wanted calls (ripe c)) (unripe c))
  unfolding call_due
  call_due-inserts [] a room = unfold ripe unripe wanted inserts in refl
  call_due-inserts (p ∷ ps) a room = elim (Bool-cases (leb p.c_time 0)) [
    | inl now ↦ rw now (fire-inserts (p ∷ ps) a room)
    | inr wait ↦
        rw (wait, ripe-of_wait p ps wait, unripe-of_wait p ps wait) (unfold wanted inserts in refl)
  ]

  -- A tick of the clock calls the functions of the calls that are due in this tick, in the order of
  -- their deadlines. If these ask for times ahead only and the table has room for all that they
  -- ask for, the table then holds the other calls, each one tick nearer, with the calls that were
  -- asked for added in turn.
  pub tick-elapse :
      (c : List Callo)
      → IsAhead (asked calls (due (elapse (pending 0 c))))
      → length c + length (asked calls (due (elapse (pending 0 c)))) < ncall
      → (c' : List Callo) × (tick calls c ≡ ok c')
        × (pending 0 c'
            ≡ add_all (asked calls (due (elapse (pending 0 c)))) (later (elapse (pending 0 c))))
  tick-elapse c a room =
      let d = decrement c in
      let e : asked calls (due (elapse (pending 0 c))) ≡ wanted calls (ripe d) =
        ap (λ x. asked calls (due x)) (sym (pending-decrement c)) ∙ asked-wanted calls d in
      let l : later (elapse (pending 0 c)) ≡ pending 0 (unripe d) =
        ap later (sym (pending-decrement c)) ∙ later-pending d in
      (
        inserts (wanted calls (ripe d)) (unripe d),
        tick-call_due calls c
            ∙ call_due-inserts d (rw e at a) (rw (e, ← length-decrement c) at room),
        rw (e, l) (pending-inserts (wanted calls (ripe d)) (unripe d)),
      )
