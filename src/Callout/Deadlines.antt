-- ===== src/Callout/Deadlines.antt =====
-- The specification of the callout table: what is due, and in how many ticks.
use unix_v7_c.Base.{
  ℕ, suc, ◌+◌, ◌-◌, ◌≤◌, ◌≡◌, refl, ap, List, [], ◌∷◌, ◌++◌, arith, leb, if◌then◌else◌, length,
}
use unix_v7_c.Callout.{Callo, Request}

-- A pending call: in how many ticks, the argument and the function.
pub record Pending : Type 0 where
  pub after : ℕ
  pub arg : ℕ
  pub fun : ℕ

-- The pending calls that a table stands for, given the sum of the times before it.
unfoldable pub pending : ℕ → List Callo → List Pending
pending base [] = []
pending base (p ∷ ps) =
    record { after = base + p.c_time; arg = p.c_arg; fun = p.c_func } ∷ pending (base + p.c_time) ps

-- A new call goes behind those that are due no later.
unfoldable pub add : Pending → List Pending → List Pending
add x [] = x ∷ []
add x (y ∷ ys) = let rest = add x ys in if leb y.after x.after then y ∷ rest else x ∷ y ∷ ys

abbrev pub pending_of : Request → Pending
pending_of r = record { after = r.tim; arg = r.arg; fun = r.fun }

unfoldable pub add_all : List Request → List Pending → List Pending
add_all [] ys = ys
add_all (r ∷ rs) ys = add_all rs (add (pending_of r) ys)

-- One tick later.
unfoldable pub elapse : List Pending → List Pending
elapse [] = []
elapse (y ∷ ys) = record y { after = y.after - 1 } ∷ elapse ys

-- The calls that are not due in this tick.
unfoldable pub later : List Pending → List Pending
later [] = []
later (y ∷ ys) = let rest = later ys in if leb y.after 0 then rest else y ∷ rest

-- The calls that are due in this tick, in the order of the table.
unfoldable pub due : List Pending → List Pending
due [] = []
due (y ∷ ys) = let rest = due ys in if leb y.after 0 then y ∷ rest else rest

abbrev pub IsOrdered : ℕ → List Pending → Type 0
IsOrdered n [] = Unit {0}
IsOrdered n (y ∷ ys) = (n ≤ y.after) × IsOrdered y.after ys

-- A table is always in the order of its deadlines.
pub IsOrdered-pending : (base : ℕ) (c : List Callo) → IsOrdered base (pending base c)
unfolding pending
IsOrdered-pending base [] = tt
IsOrdered-pending base (p ∷ ps) = (omega arith, IsOrdered-pending (base + p.c_time) ps)

pub length-pending : (base : ℕ) (c : List Callo) → length (pending base c) ≡ length c
unfolding pending
length-pending base [] = refl
length-pending base (p ∷ ps) = ap suc (length-pending (base + p.c_time) ps)

-- Every request is for a time to come.
abbrev pub IsAhead : List Request → Type 0
IsAhead [] = Unit {0}
IsAhead (r ∷ rs) = (1 ≤ r.tim) × IsAhead rs

-- What the functions of the calls ask for, in order.
unfoldable pub asked : (ℕ → ℕ → List Request) → List Pending → List Request
asked calls [] = []
asked calls (y ∷ ys) = calls y.fun y.arg ++ asked calls ys
