-- ===== src/Callout.antt =====
-- The callout table of usr/sys/sys/clock.c (`timeout`, and the callout part of `clock`),
-- h/callo.h and conf/c.c.
--
-- The table is the list of its live entries, the ones before the entry with c_func 0. The c_time
-- of that last entry is written (`p2->c_time--`, `p1->c_time -= t`), and no test depends on it, so
-- it is left out. Live times are never negative: `timeout` is called with a positive time, and
-- `clock` takes one off a time that is above 0.
pub mod Deadlines
pub mod Timeout
mod Ripe
mod Tick
mod Tests
use unix_v7_c.Base.{
  ℕ, zero, suc, ◌+◌, ◌-◌, Bool, true, false, Option, none, some, List, [], ◌∷◌, ◌++◌, ltb, leb,
  ◌==◌, if◌then◌else◌, length, get_elem?,
}

-- `struct callo`: a time after the entry before it, and which function to call with which argument.
pub record Callo : Type 0 where
  pub c_time : ℕ
  pub c_arg : ℕ
  pub c_func : ℕ

-- NCALL of h/param.h, the number of entries of `callout`
abbrev pub ncall : ℕ
ncall = 20

-- How a call ends: with a table, by `panic`, or with a write behind the table's last entry.
pub data Outcome : Type 0 where
  ok : List Callo → Outcome
  panic : Outcome
  overrun : Outcome

abbrev pub and_then : Outcome → (List Callo → Outcome) → Outcome
and_then (ok c) k = k c
and_then panic k = panic
and_then overrun k = overrun

-- the arguments of a call of `timeout`
pub record Request : Type 0 where
  pub tim : ℕ
  pub arg : ℕ
  pub fun : ℕ

-- Where the first loop of `timeout` leaves p1.
pub position : ℕ → List Callo → ℕ
position t [] = 0
position t (p ∷ ps) =
    let rest = position (t - p.c_time) ps in if leb p.c_time t then suc rest else 0

-- The entries after `timeout`: those behind p1 move up by one, and the first of them loses t.
pub insert : ℕ → Request → List Callo → List Callo
insert t r [] = record { c_time = t; c_arg = r.arg; c_func = r.fun } ∷ []
insert t r (p ∷ ps) =
    let rest = insert (t - p.c_time) r ps in
    if leb p.c_time t
    then p ∷ rest
    else record { c_time = t; c_arg = r.arg; c_func = r.fun }
      ∷ record p { c_time = p.c_time - t }
      ∷ ps

-- `timeout`. The test for a full table is on p1, not on the number of entries; the copying loop
-- writes the entry behind the last one, which stands at index `length callout`.
pub timeout : Request → List Callo → Outcome
unfolding position insert
timeout r callout =
    if leb (ncall - 1) (position r.tim callout)
    then panic
    else if leb ncall (length callout + 1)
    then overrun
    else ok (insert r.tim r callout)

-- What a function that `clock` calls does to the table: the calls of `timeout` that it makes.
pub timeouts : List Request → List Callo → Outcome
unfolding timeout
timeouts [] callout = ok callout
timeouts (r ∷ rs) callout = and_then (timeout r callout) (λ c. timeouts rs c)

-- "update first non-zero time"
pub decrement : List Callo → List Callo
decrement [] = []
decrement (p ∷ ps) =
    let rest = decrement ps in
    if leb p.c_time 0 then p ∷ rest else record p { c_time = p.c_time - 1 } ∷ ps

-- the copying loop at the end: the entries from p1 on move to the front
abbrev pub drop : ℕ → List Callo → List Callo
drop zero c = c
drop (suc n) [] = []
drop (suc n) (p ∷ ps) = drop n ps

-- The functions in `c_func` belong to the device drivers; `calls f x` are the calls of `timeout`
-- that the function `f` makes at the argument `x`.
module _ (calls : ℕ → ℕ → List Request) where
  -- The loop that calls the functions whose time has come, with p1 as an index `i`; then the
  -- copying loop. It ends at the first entry with time left, or behind the last one.
  pub fire : ℕ → ℕ → List Callo → Outcome
  unfolding timeouts
  fire zero i callout = ok (drop i callout)
  fire (suc fuel) i callout = elim (get_elem? callout i) [
    | none ↦ ok (drop i callout)
    | some p ↦ elim (leb p.c_time 0) [
      | true ↦ and_then (timeouts (calls p.c_func p.c_arg) callout) (λ c. fire fuel (i + 1) c)
      | false ↦ ok (drop i callout)
    ]
  ]

  -- `if(callout[0].c_time <= 0)`
  call_due : List Callo → Outcome
  unfolding fire
  call_due [] = ok []
  call_due (p ∷ ps) = if leb p.c_time 0 then fire ncall 0 (p ∷ ps) else ok (p ∷ ps)

  -- The callout part of `clock`, once a clock tick.
  pub tick : List Callo → Outcome
  unfolding decrement call_due
  tick [] = ok []
  tick (p ∷ ps) = call_due (decrement (p ∷ ps))
