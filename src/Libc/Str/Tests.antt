-- ===== src/Libc/Str/Tests.antt =====
-- The string routines on short texts.
use unix_v7_c.Base.{◌≡◌, some, [], ◌∷◌, arith, length, drop}
use unix_v7_c.Libc.Str.{Bytes, strcpy}
use unix_v7_c.Libc.Str.Text.{string, IsText}
use unix_v7_c.Libc.Str.Copy.{strcpy-string}
use unix_v7_c.Base.{suc}

abbrev ab : Bytes
ab = b'a' ∷ b'b' ∷ []

abbrev aba : Bytes
aba = b'a' ∷ b'b' ∷ b'a' ∷ []

abbrev space : Bytes
space = 1 ∷ 2 ∷ 3 ∷ 4 ∷ 5 ∷ []

ab-IsText : IsText ab
ab-IsText = omega arith

aba-IsText : IsText aba
aba-IsText = omega arith

strcpy-string_example :
    strcpy space (string ab []) ≡ some (string ab (drop (suc (length ab)) space))
strcpy-string_example = strcpy-string space ab [] ab-IsText (omega arith)
