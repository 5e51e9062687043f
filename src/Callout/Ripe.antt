-- ===== src/Callout/Ripe.antt =====
-- The calls that `clock` makes: those of the leading entries whose time has come, while the calls
-- themselves put new entries behind them.
use unix_v7_c.Base.{
  ℕ, zero, suc, ◌+◌, ◌≤◌, ◌<◌, ◌≡◌, refl, ap, sym, ◌∙◌, true, false, List, [], ◌∷◌, ◌++◌, arith,
  leb, if◌then◌else◌, length, length-append, get_elem?,
}
use mathlib.Core.List.{append_assoc}
use unix_v7_c.Callout.{Callo, Request, ok, insert, timeouts, ncall, drop, fire}
use unix_v7_c.Callout.Deadlines.{pending, add_all, IsAhead}
use unix_v7_c.Callout.Timeout.{pending-insert, length-insert, timeout-insert}

-- The leading entries whose time has come, and the others.
unfoldable pub ripe : List Callo → List Callo
ripe [] = []
ripe (p ∷ ps) = let rest = ripe ps in if leb p.c_time 0 then p ∷ rest else []

unfoldable pub unripe : List Callo → List Callo
unripe [] = []
unripe (p ∷ ps) = let rest = unripe ps in if leb p.c_time 0 then rest else p ∷ ps

abbrev pub AllZero : List Callo → Type 0
AllZero [] = Unit {0}
AllZero (p ∷ ps) = (p.c_time ≡ 0) × AllZero ps

abbrev pub IsWaiting : List Callo → Type 0
IsWaiting [] = Unit {0}
IsWaiting (p ∷ ps) = 1 ≤ p.c_time

pub ripe-append-unripe : (c : List Callo) → ripe c ++ unripe c ≡ c
unfolding ripe unripe
ripe-append-unripe [] = refl
ripe-append-unripe (p ∷ ps) = ground (arith, ripe-append-unripe ps)

pub AllZero-ripe : (c : List Callo) → AllZero (ripe c)
unfolding ripe
AllZero-ripe [] = tt
AllZero-ripe (p ∷ ps) = ground (arith, AllZero-ripe ps)

pub IsWaiting-unripe : (c : List Callo) → IsWaiting (unripe c)
unfolding unripe
IsWaiting-unripe [] = tt
IsWaiting-unripe (p ∷ ps) = ground (arith, IsWaiting-unripe ps)

AllZero-append : (xs ys : List Callo) → AllZero xs → AllZero ys → AllZero (xs ++ ys)
AllZero-append [] ys h k = k
AllZero-append (x ∷ xs) ys h k = (h.0, AllZero-append xs ys h.1 k)

insert-append :
    (t : ℕ) (r : Request) (zs rest : List Callo)
    → AllZero zs
    → insert t r (zs ++ rest) ≡ zs ++ insert t r rest
unfolding insert
insert-append t r [] rest h = refl
insert-append t r (z ∷ zs) rest h = ground (arith, insert-append t r zs rest)

IsWaiting-insert :
    (t : ℕ) (r : Request) (rest : List Callo) → 1 ≤ t → IsWaiting rest → IsWaiting (insert t r rest)
unfolding insert
IsWaiting-insert t r [] ht h = ht
IsWaiting-insert t r (p ∷ ps) ht h = ground arith

-- `timeouts` on the part of the table that is not yet due
unfoldable pub inserts : List Request → List Callo → List Callo
inserts [] c = c
inserts (r ∷ rs) c = inserts rs (insert r.tim r c)

timeouts-inserts :
    (rs : List Request) (zs rest : List Callo)
    → AllZero zs
    → length (zs ++ rest) + length rs < ncall
    → timeouts rs (zs ++ rest) ≡ ok (zs ++ inserts rs rest)
unfolding timeouts inserts
timeouts-inserts [] zs rest z room = refl
timeouts-inserts (r ∷ rs) zs rest z room =
    let same = insert-append r.tim r zs rest z in
    let grown : length (zs ++ insert r.tim r rest) + length rs < ncall =
      omega (arith, ap length same, length-insert r.tim r (zs ++ rest)) in
    rw (timeout-insert r (zs ++ rest) (omega arith), same)
      (timeouts-inserts rs zs (insert r.tim r rest) z grown)

IsWaiting-inserts :
    (rs : List Request) (rest : List Callo)
    → IsAhead rs
    → IsWaiting rest
    → IsWaiting (inserts rs rest)
unfolding inserts
IsWaiting-inserts [] rest a w = w
IsWaiting-inserts (r ∷ rs) rest a w =
    IsWaiting-inserts rs (insert r.tim r rest) a.1 (IsWaiting-insert r.tim r rest a.0 w)

pub pending-inserts :
    (rs : List Request) (c : List Callo) → pending 0 (inserts rs c) ≡ add_all rs (pending 0 c)
unfolding inserts add_all
pending-inserts [] c = refl
pending-inserts (r ∷ rs) c =
    pending-inserts rs (insert r.tim r c)
    ∙ ap (add_all rs) (ground (arith, pending-insert 0 r.tim r c))

get_elem?-length : (zs rest : List Callo) → get_elem? (zs ++ rest) (length zs) ≡ get_elem? rest 0
get_elem?-length [] rest = refl
get_elem?-length (z ∷ zs) rest = get_elem?-length zs rest

drop-length : (zs rest : List Callo) → drop (length zs) (zs ++ rest) ≡ rest
drop-length [] rest = refl
drop-length (z ∷ zs) rest = drop-length zs rest

inserts-append :
    (rs qs : List Request) (c : List Callo) → inserts (rs ++ qs) c ≡ inserts qs (inserts rs c)
unfolding inserts
inserts-append [] qs c = refl
inserts-append (r ∷ rs) qs c = inserts-append rs qs (insert r.tim r c)

length-inserts : (rs : List Request) (c : List Callo) → length (inserts rs c) ≡ length rs + length c
unfolding inserts
length-inserts [] c = omega arith
length-inserts (r ∷ rs) c =
    omega (arith, length-inserts rs (insert r.tim r c), length-insert r.tim r c)

IsAhead-append : (rs qs : List Request) → IsAhead (rs ++ qs) → IsAhead rs × IsAhead qs
IsAhead-append [] qs a = (tt, a)
IsAhead-append (r ∷ rs) qs a = let (x, y) = IsAhead-append rs qs a.1 in ((a.0, x), y)

shift : (zs : List Callo) (p : Callo) (xs : List Callo) → zs ++ (p ∷ xs) ≡ (zs ++ (p ∷ [])) ++ xs
shift [] p xs = refl
shift (z ∷ zs) p xs = ap (◌∷◌ z) (shift zs p xs)

-- One call: the entries up to the called one stay, and the requests go behind those still due.
timeouts-shift :
    (rs : List Request) (zs : List Callo) (p : Callo) (ps rest : List Callo)
    → AllZero zs
    → p.c_time ≡ 0
    → AllZero ps
    → length (zs ++ (p ∷ (ps ++ rest))) + length rs < ncall
    → timeouts rs (zs ++ (p ∷ (ps ++ rest))) ≡ ok ((zs ++ (p ∷ [])) ++ (ps ++ inserts rs rest))
timeouts-shift rs zs p ps rest z e z' room =
    let front : (zs ++ (p ∷ ps)) ++ rest ≡ zs ++ (p ∷ (ps ++ rest)) =
      append_assoc zs (p ∷ ps) rest in
    let back : (zs ++ (p ∷ ps)) ++ inserts rs rest ≡ (zs ++ (p ∷ [])) ++ (ps ++ inserts rs rest) =
      append_assoc zs (p ∷ ps) (inserts rs rest) ∙ shift zs p (ps ++ inserts rs rest) in
    ap (timeouts rs) (sym front)
    ∙ timeouts-inserts rs (zs ++ (p ∷ ps)) rest (AllZero-append zs (p ∷ ps) z (e, z'))
        (rw front room)
    ∙ ap ok back

module _ (calls : ℕ → ℕ → List Request) where
  -- what the functions of the entries ask for
  unfoldable pub wanted : List Callo → List Request
  wanted [] = []
  wanted (p ∷ ps) = calls p.c_func p.c_arg ++ wanted ps

  fire-waiting :
      (fuel : ℕ) (zs rest : List Callo)
      → IsWaiting rest
      → fire calls fuel (length zs) (zs ++ rest) ≡ ok rest
  unfolding fire
  fire-waiting zero zs rest w = ap ok (drop-length zs rest)
  fire-waiting (suc fuel) zs [] w = rw (get_elem?-length zs [], fire) (ap ok (drop-length zs []))
  fire-waiting (suc fuel) zs (p ∷ ps) w =
      let later : leb p.c_time 0 ≡ false = ground arith in
      rw (get_elem?-length zs (p ∷ ps), fire) (rw later (ap ok (drop-length zs (p ∷ ps))))

  pub fire-ripe :
      (fuel : ℕ) (zs todo rest : List Callo)
      → AllZero zs
      → AllZero todo
      → IsWaiting rest
      → IsAhead (wanted todo)
      → length todo < fuel
      → length zs + length todo + length rest + length (wanted todo) < ncall
      → fire calls fuel (length zs) (zs ++ (todo ++ rest)) ≡ ok (inserts (wanted todo) rest)
  unfolding fire wanted
  fire-ripe fuel zs [] rest z z' w a f room = fire-waiting fuel zs rest w ∙ unfold inserts in refl
  fire-ripe zero zs (p ∷ ps) rest z z' w a f room = absurd (omega arith)
  fire-ripe (suc fuel) zs (p ∷ ps) rest z z' w a f room =
      let rs = calls p.c_func p.c_arg in
      let (a₁, a₂) = IsAhead-append rs (wanted ps) a in
      let due : leb p.c_time 0 ≡ true = ground arith in
      let n₁ : length (zs ++ (p ∷ [])) ≡ length zs + 1 = length-append zs (p ∷ []) in
      let n₂ = length-append zs (p ∷ (ps ++ rest)) in
      let n₃ = length-append ps rest in
      let n₄ = length-append rs (wanted ps) in
      let n₅ = length-inserts rs rest in
      let called = timeouts-shift rs zs p ps rest z z'.0 z'.1 (omega arith) in
      let ih =
        fire-ripe fuel (zs ++ (p ∷ [])) ps (inserts rs rest)
          (AllZero-append zs (p ∷ []) z (z'.0, tt)) z'.1 (IsWaiting-inserts rs rest a₁ w) a₂
          (omega arith) (omega arith) in
      rw (get_elem?-length zs (p ∷ (ps ++ rest)), fire)
        (rw due (rw called (rw (← n₁) (ih ∙ ap ok (sym (inserts-append rs (wanted ps) rest))))))
