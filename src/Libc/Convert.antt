-- ===== src/Libc/Convert.antt =====
-- Numbers and bytes in usr/src/libc/gen: atoi.c, atol.c, l3.c, swab.c and rand.c, and `printn` of
-- usr/sys/sys/prf.c. An int or a long is its bit pattern, a number below 2 ^ 32.
pub mod Decimal
pub mod Bytes3
mod Tests
use unix_v7_c.Base.{
  ℕ, zero, suc, ◌+◌, ◌-◌, ◌*◌, ◌/◌, ◌%◌, ◌^◌, Bool, true, false, ◌&&◌, ◌||◌, Option, none, some,
  List, [], ◌∷◌, ◌++◌, ◌==◌, leb, if◌then◌else◌,
}
use unix_v7_c.Libc.Str.{Bytes, cons?}

abbrev pub word : ℕ
word = 2 ^ 32

-- What the switch of `atoi` finds behind the blanks and tabs: f, and the place after the sign.
pub sign : Bytes → Option (Bool × Bytes)
sign [] = none
sign (c ∷ p) =
    let rest = sign p in
    if (c == 0x20) || (c == 9)
    then rest
    else if c == b'-'
    then some (true, p)
    else if c == b'+'
    then some (false, p)
    else some (false, c ∷ p)

-- `while(*p >= '0' && *p <= '9') n = n*10 + *p++ - '0'`, on an unsigned n
pub digits : ℕ → Bytes → Option ℕ
digits n [] = none
digits n (c ∷ p) =
    let rest = digits ((n * 10 + c - b'0') % word) p in
    if leb b'0' c && leb c b'9' then rest else some n

abbrev pub negate : Bool → Option ℕ → Option ℕ
negate f none = none
negate f (some n) = some (if f then (word - n) % word else n)

-- `atoi`; a long has 32 bits too.
pub atoi : Bytes → Option ℕ
unfolding sign digits
atoi p = elim (sign p) [ none ↦ none | some (f, q) ↦ negate f (digits 0 q) ]

-- `atol`
pub atol : Bytes → Option ℕ
unfolding sign digits
atol p = elim (sign p) [ none ↦ none | some (f, q) ↦ negate f (digits 0 q) ]

-- "0123456789ABCDEF"[d]
pub digit_char : ℕ → ℕ
digit_char d = if leb d 9 then b'0' + d else b'A' + (d - 10)

-- `printn`, the characters that it prints; the fuel is the number of calls. `none` is out of fuel.
pub printn : ℕ → ℕ → ℕ → Option Bytes
unfolding digit_char
printn zero n b = none
printn (suc fuel) n b =
    let last : Bytes = digit_char (n % b) ∷ [] in
    let front = printn fuel (n / b) b in
    if n / b == 0 then some last else elim front [ none ↦ none | some s ↦ some (s ++ last) ]

-- `ltol3`: n longs of lp into the array at cp
pub ltol3 : Bytes → List ℕ → ℕ → Option Bytes
ltol3 cp lp zero = some cp
ltol3 (x ∷ y ∷ z ∷ cp) (l ∷ lp) (suc n) =
    cons? (l % 256) (cons? (l / 256 % 256) (cons? (l / 65536 % 256) (ltol3 cp lp n)))
ltol3 _ _ (suc n) = none

-- `l3tol`: n longs from the array at cp into lp
pub l3tol : List ℕ → Bytes → ℕ → Option (List ℕ)
l3tol lp cp zero = some lp
l3tol (l ∷ lp) (x ∷ y ∷ z ∷ cp) (suc n) = cons? (x + y * 256 + z * 65536) (l3tol lp cp n)
l3tol _ _ (suc n) = none

-- The loop of `swab`, on pairs of bytes.
pub swab_pairs : Bytes → Bytes → ℕ → Option Bytes
swab_pairs pf pt zero = some pt
swab_pairs (a ∷ b ∷ pf) (x ∷ y ∷ pt) (suc n) = cons? b (cons? a (swab_pairs pf pt n))
swab_pairs _ _ (suc n) = none

-- `swab`: the bytes of pt's array afterwards
pub swab : Bytes → Bytes → ℕ → Option Bytes
unfolding swab_pairs
swab pf pt n = swab_pairs pf pt (n / 2)

-- `rand`: the new randx and the result
pub rand : ℕ → ℕ × ℕ
rand randx = let randx' = (randx * 1103515245 + 12345) % word in (randx', randx' / 2 ^ 16 % 2 ^ 15)

-- `srand`: the new randx
abbrev pub srand : ℕ → ℕ
srand x = x % word
