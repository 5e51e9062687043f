-- ===== src/Libc/Convert/Tests.antt =====
-- Conversions at concrete numbers.
use unix_v7_c.Base.{ℕ, ◌-◌, ◌≡◌, refl, some, List, [], ◌∷◌, ◌++◌, arith}
use unix_v7_c.Libc.Str.{Bytes}
use unix_v7_c.Libc.Convert.{word, atoi, sign, digits, printn, rand}
use unix_v7_c.Libc.Convert.Decimal.{atoi-printn}

minus_12 : atoi (0x20 ∷ b'-' ∷ b'1' ∷ b'2' ∷ 0 ∷ []) ≡ some (word - 12)
unfolding atoi sign digits
minus_12 = refl

octal : printn 5 83 8 ≡ some (b'1' ∷ b'2' ∷ b'3' ∷ [])
unfolding printn
octal = refl

rand_first : rand 1 ≡ (1103527590, 16838)
unfolding rand
rand_first = refl

atoi-printn_example :
    (s : Bytes) × (printn 10 1979 10 ≡ some s) × (atoi (s ++ (0 ∷ [])) ≡ some 1979)
atoi-printn_example = atoi-printn 9 1979 0 [] (omega arith) (omega arith) refl

abbrev room : Bytes
room = 9 ∷ 9 ∷ 9 ∷ 9 ∷ 9 ∷ 9 ∷ []

abbrev addrs : List ℕ
addrs = 70000 ∷ 16777217 ∷ []
