-- ===== src/Libc/Str/Text.antt =====
-- C strings: the bytes up to the first 0.
use unix_v7_c.Base.{ℕ, ◌≡◌, ◌≢◌, refl, false, some, [], ◌∷◌, ◌++◌, ◌==◌, arith, length}
use unix_v7_c.Libc.Str.{Bytes, strlen}

-- No byte is 0.
abbrev pub IsText : Bytes → Type 0
IsText [] = Unit {0}
IsText (c ∷ t) = (c ≢ 0) × IsText t

-- The text t as a string, with more of its array behind it.
abbrev pub string : Bytes → Bytes → Bytes
string t rest = t ++ (0 ∷ rest)

pub ne_zero : (c : ℕ) → c ≢ 0 → (c == 0) ≡ false
ne_zero c h = ground arith

-- `strlen` of a string is the length of its text.
pub strlen-string : (t rest : Bytes) → IsText t → strlen (string t rest) ≡ some (length t)
unfolding strlen
strlen-string [] rest h = refl
strlen-string (c ∷ t) rest h = rw (ne_zero c h.0, strlen-string t rest h.1)
