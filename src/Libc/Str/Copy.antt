-- ===== src/Libc/Str/Copy.antt =====
-- The copying routines write the text that they should, and nothing behind it.
use unix_v7_c.Base.{
  ℕ, zero, suc, ◌≤◌, ◌<◌, ◌≡◌, refl, ap, some, [], ◌∷◌, ◌++◌, arith, length, take, drop, replicate,
  min,
}
use unix_v7_c.Libc.Str.{Bytes, strcpy, strncpy, pad, strcat, strncat, copy_n}
use unix_v7_c.Libc.Str.Text.{IsText, string, ne_zero}

-- `strcpy` to an array that has room for the text and its 0 writes these, and keeps the bytes
-- behind.
pub strcpy-string :
    (s1 t rest : Bytes)
    → IsText t
    → length t < length s1
    → strcpy s1 (string t rest) ≡ some (string t (drop (suc (length t)) s1))
unfolding strcpy
strcpy-string [] t rest h room = absurd (omega arith)
strcpy-string (d ∷ s1) [] rest h room = refl
strcpy-string (d ∷ s1) (c ∷ t) rest h room =
    rw (ne_zero c h.0, strcpy-string s1 t rest h.1 (omega arith))

-- `strcat` puts the second text behind the first, if the array has room for it.
pub strcat-string :
    (s r t rest : Bytes)
    → IsText s
    → IsText t
    → length t ≤ length r
    → strcat (string s r) (string t rest) ≡ some (string (s ++ t) (drop (length t) r))
unfolding strcat
strcat-string [] r t rest hs h room = strcpy-string (0 ∷ r) t rest h (omega arith)
strcat-string (c ∷ s) r t rest hs h room = rw (ne_zero c hs.0, strcat-string s r t rest hs.1 h room)

pad-replicate : (n : ℕ) (s1 : Bytes) → n ≤ length s1 → pad n s1 ≡ some (replicate n 0 ++ drop n s1)
unfolding pad
pad-replicate zero s1 room = refl
pad-replicate (suc n) [] room = absurd (omega arith)
pad-replicate (suc n) (d ∷ s1) room = rw (pad-replicate n s1 (omega arith))

-- the n bytes that `strncpy` writes: the text, cut off or filled up with 0
abbrev pub field : ℕ → Bytes → Bytes
field zero t = []
field (suc n) [] = 0 ∷ field n []
field (suc n) (c ∷ t) = c ∷ field n t

field-nil : (n : ℕ) → field n [] ≡ replicate n 0
field-nil zero = refl
field-nil (suc n) = ap (◌∷◌ 0) (field-nil n)

-- `strncpy` writes exactly n bytes, the text cut off or filled up with 0, and keeps those behind.
pub strncpy-string :
    (s1 t rest : Bytes) (n : ℕ)
    → IsText t
    → n ≤ length s1
    → strncpy s1 (string t rest) n ≡ some (field n t ++ drop n s1)
unfolding strncpy
strncpy-string s1 t rest zero h room = refl
strncpy-string [] t rest (suc n) h room = absurd (omega arith)
strncpy-string (d ∷ s1) [] rest (suc n) h room = rw (pad-replicate n s1 (omega arith), field-nil n)
strncpy-string (d ∷ s1) (c ∷ t) rest (suc n) h room =
    rw (ne_zero c h.0, strncpy-string s1 t rest n h.1 (omega arith))

copy_n-string :
    (s1 t rest : Bytes) (n : ℕ)
    → IsText t
    → min n (length t) < length s1
    → copy_n s1 (string t rest) n ≡ some (string (take n t) (drop (suc (min n (length t))) s1))
unfolding copy_n
copy_n-string [] t rest n h room = absurd (omega arith)
copy_n-string (d ∷ s1) [] rest zero h room = refl
copy_n-string (d ∷ s1) [] rest (suc n) h room = let m : min (suc n) 0 ≡ 0 = omega arith in rw m
copy_n-string (d ∷ s1) (c ∷ t) rest zero h room =
    let m : min 0 (suc (length t)) ≡ 0 = omega arith in rw m
copy_n-string (d ∷ s1) (c ∷ t) rest (suc n) h room =
    let m : min (suc n) (suc (length t)) ≡ suc (min n (length t)) = omega arith in
    rw (ne_zero c h.0, m, copy_n-string s1 t rest n h.1 (omega arith))

-- `strncat` puts the first n bytes of the second text, or all of it if it is shorter, behind the
-- first text, with a 0 after them.
pub strncat-string :
    (s r t rest : Bytes) (n : ℕ)
    → IsText s
    → IsText t
    → min n (length t) ≤ length r
    → strncat (string s r) (string t rest) n
      ≡ some (string (s ++ take n t) (drop (min n (length t)) r))
unfolding strncat
strncat-string [] r t rest n hs h room = copy_n-string (0 ∷ r) t rest n h (omega arith)
strncat-string (c ∷ s) r t rest n hs h room =
    rw (ne_zero c hs.0, strncat-string s r t rest n hs.1 h room)
