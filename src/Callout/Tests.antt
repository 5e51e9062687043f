-- ===== src/Callout/Tests.antt =====
-- The callout table at concrete tables.
use unix_v7_c.Base.{◌↔◌, true, false, ◌+◌, ℕ, ◌≡◌, refl, List, [], ◌∷◌, arith, length}
use unix_v7_c.Callout.{panic, ncall, Callo, Request, ok, overrun, timeout, tick, fire}
use unix_v7_c.Callout.Deadlines.{pending, add, add_all, pending_of, elapse, later, due, asked}
use unix_v7_c.Callout.Timeout.{timeout-adds, timeout-full, none_later}
use unix_v7_c.Callout.Tick.{tick-elapse}
use unix_v7_c.Callout.{panic}
use unix_v7_c.Callout.Timeout.{timeout-adds, timeout-full, none_later}

abbrev cell : ℕ → ℕ → Callo
cell t a = record { c_time = t; c_arg = a; c_func = 1 }

abbrev two_calls : List Callo
two_calls = cell 1 7 ∷ cell 4 8 ∷ []

abbrev after_three : Request
after_three = record { tim = 3; arg = 9; fun = 1 }

inserted : timeout after_three two_calls ≡ ok (cell 1 7 ∷ cell 2 9 ∷ cell 2 8 ∷ [])
unfolding timeout
inserted = refl

timeout-adds_example :
    (c' : List Callo) × (timeout after_three two_calls ≡ ok c')
    × (pending 0 c' ≡ add (pending_of after_three) (pending 0 two_calls))
    × (length c' ≡ 3)
timeout-adds_example = timeout-adds after_three two_calls (omega arith)

-- 19 entries, the last one of them due later than the new call
abbrev one_left : List Callo
one_left =
    cell 5 0
    ∷ cell 5 1
    ∷ cell 0 2
    ∷ cell 0 3
    ∷ cell 0 4
    ∷ cell 0 5
    ∷ cell 0 6
    ∷ cell 0 7
    ∷ cell 0 8
    ∷ cell 0 9
    ∷ cell 0 10
    ∷ cell 0 11
    ∷ cell 0 12
    ∷ cell 0 13
    ∷ cell 0 14
    ∷ cell 0 15
    ∷ cell 0 16
    ∷ cell 0 17
    ∷ cell 0 18
    ∷ []

overruns : timeout after_three one_left ≡ overrun
unfolding timeout
overruns = refl

timeout-full_example :
    ((timeout after_three one_left ≡ panic)
      ↔ ((length one_left + 1 ≡ ncall) × (none_later 3 (pending 0 one_left) ≡ true)))
    × ((timeout after_three one_left ≡ overrun)
        ↔ ((length one_left + 1 ≡ ncall) × (none_later 3 (pending 0 one_left) ≡ false)))
timeout-full_example = timeout-full after_three one_left (omega arith)

-- a function that asks to be called again in two ticks
abbrev again : ℕ → ℕ → List Request
again f x = record { tim = 2; arg = x; fun = f } ∷ []

ticked : tick again two_calls ≡ ok (cell 2 7 ∷ cell 2 8 ∷ [])
unfolding tick fire
ticked = refl

tick-elapse_example :
    (c' : List Callo) × (tick again two_calls ≡ ok c')
    × (pending 0 c'
        ≡ add_all
            (asked again (due (elapse (pending 0 two_calls))))
            (later (elapse (pending 0 two_calls))))
tick-elapse_example =
    tick-elapse again two_calls (unfold asked due elapse pending in (omega arith, tt))
      (unfold asked due elapse pending in omega arith)
