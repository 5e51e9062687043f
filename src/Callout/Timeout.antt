-- ===== src/Callout/Timeout.antt =====
-- `timeout` adds one pending call and moves no other.
use unix_v7_c.Base.{
  Bool, true, false, ◌&&◌, ◌↔◌, leb, Bool-cases, ap, sym, ◌∙◌, inl, inr, ℕ, suc, ◌+◌, ◌-◌, ◌≤◌, ◌<◌,
  ◌≡◌, refl, List, [], ◌∷◌, arith, if◌then◌else◌, length, ◌==◌,
}
use unix_v7_c.Callout.{Callo, Request, ok, panic, overrun, position, insert, timeout, ncall}
use unix_v7_c.Callout.Deadlines.{Pending, pending, add}

-- Counting from `base`, the new call is due `base + t` ticks from now.
pub pending-insert :
    (base t : ℕ) (r : Request) (c : List Callo)
    → pending base (insert t r c)
      ≡ add (record { after = base + t; arg = r.arg; fun = r.fun }) (pending base c)
unfolding pending insert add
pending-insert base t r [] = refl
pending-insert base t r (p ∷ ps) =
    ground (arith, pending-insert (base + p.c_time) (t - p.c_time) r ps)

pub length-insert : (t : ℕ) (r : Request) (c : List Callo) → length (insert t r c) ≡ suc (length c)
unfolding insert
length-insert t r [] = refl
length-insert t r (p ∷ ps) = ground (arith, length-insert (t - p.c_time) r ps)

pub position-le : (t : ℕ) (c : List Callo) → position t c ≤ length c
unfolding position
position-le t [] = omega arith
position-le t (p ∷ ps) = ground (arith, position-le (t - p.c_time) ps)

pub timeout-insert :
    (r : Request) (c : List Callo) → length c + 1 < ncall → timeout r c ≡ ok (insert r.tim r c)
unfolding timeout
timeout-insert r c room = ground (arith, position-le r.tim c)

-- With two entries or more left in the table, `timeout` succeeds: it adds the new call behind those
-- that are due no later, and no other call changes its deadline or its place among the others.
pub timeout-adds :
    (r : Request) (c : List Callo)
    → length c + 1 < ncall
    → (c' : List Callo) × (timeout r c ≡ ok c')
      × (pending 0 c' ≡ add (record { after = r.tim; arg = r.arg; fun = r.fun }) (pending 0 c))
      × (length c' ≡ suc (length c))
timeout-adds r c room = (
  insert r.tim r c,
  timeout-insert r c room,
  ground (arith, pending-insert 0 r.tim r c),
  length-insert r.tim r c,
)

-- No pending call is due later than in t ticks.
unfoldable pub none_later : ℕ → List Pending → Bool
none_later t [] = true
none_later t (y ∷ ys) = leb y.after t && none_later t ys

-- The first loop of `timeout` goes through the whole table exactly where no call is due later.
position-none_later :
    (base t : ℕ) (c : List Callo)
    → (position t c == length c) ≡ none_later (base + t) (pending base c)
unfolding position none_later pending
position-none_later base t [] = refl
position-none_later base t (p ∷ ps) = elim (Bool-cases (leb p.c_time t)) [
  | inl e ↦
      let rest = position-none_later (base + p.c_time) (t - p.c_time) ps in
      let le : p.c_time ≤ t = ground (arith, e) in
      let sum : base + p.c_time + (t - p.c_time) ≡ base + t = omega (arith, le) in
      let due : leb (base + p.c_time) (base + t) ≡ true = ground (arith, le) in
      let rest' : (position (t - p.c_time) ps == length ps)
          ≡ none_later (base + t) (pending (base + p.c_time) ps) =
        rw sum at rest in
      rw (e, due) (ground (arith, rest'))
  | inr e ↦
      let late : leb (base + p.c_time) (base + t) ≡ false = ground (arith, e) in
      rw (e, late) (ground arith)
]

timeout_last :
    (r : Request) (c : List Callo)
    → length c + 1 ≡ ncall
    → timeout r c ≡ (if none_later r.tim (pending 0 c) then panic else overrun)
unfolding timeout
timeout_last r c full =
    let sum : r.tim ≡ 0 + r.tim = omega arith in
    let key : none_later r.tim (pending 0 c) ≡ (position r.tim c == length c) =
      ap (λ t. none_later t (pending 0 c)) sum ∙ sym (position-none_later 0 r.tim c) in
    rw key (ground (arith, position-le r.tim c, full))

-- For a table of fewer than NCALL calls: `timeout` panics exactly where there is one entry left, for
-- the closing one, and no pending call is due later than the new one; it writes behind the table
-- exactly where there is one entry left and some pending call is due later.
pub timeout-full :
    (r : Request) (c : List Callo)
    → length c < ncall
    → ((timeout r c ≡ panic) ↔ ((length c + 1 ≡ ncall) × (none_later r.tim (pending 0 c) ≡ true)))
      × ((timeout r c ≡ overrun)
          ↔ ((length c + 1 ≡ ncall) × (none_later r.tim (pending 0 c) ≡ false)))
timeout-full r c fits = elim (Bool-cases (length c + 1 == ncall)) [
  | inl e ↦
      let full : length c + 1 ≡ ncall = ground (arith, e) in
      let out = timeout_last r c full in
      elim (Bool-cases (none_later r.tim (pending 0 c))) [
        | inl d ↦
            rw (out, d)
              (
                ((λ _. (full, refl)), (λ _. refl)),
                ((λ p. absurd (ground (arith, p))), (λ p. absurd (ground (arith, p.1)))),
              )
        | inr d ↦
            rw (out, d)
              (
                ((λ p. absurd (ground (arith, p))), (λ p. absurd (ground (arith, p.1)))),
                ((λ _. (full, refl)), (λ _. refl)),
              )
      ]
  | inr e ↦
      let room : length c + 1 < ncall = ground (arith, e, fits) in
      rw (timeout-insert r c room) (
        ((λ p. absurd (ground (arith, p))), (λ p. absurd (omega (arith, room, p.0)))),
        ((λ p. absurd (ground (arith, p))), (λ p. absurd (omega (arith, room, p.0)))),
      )
]
