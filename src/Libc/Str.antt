-- ===== src/Libc/Str.antt =====
-- The string routines of usr/src/libc/gen: strlen.c, strcpy.c, strncpy.c, strcat.c, strncat.c,
-- strcmp.c, strncmp.c, index.c and rindex.c.
--
-- A pointer is the bytes from it to the end of its array, and `none` is an access behind that end.
-- The arrays do not overlap. A byte is a number below 256; where the code masks with 0377 nothing
-- changes. A result that points into the string is the offset from its start.
pub mod Text
pub mod Copy
pub mod Compare
pub mod Find
mod Tests
use unix_v7_c.Base.{
  ℕ, zero, suc, ◌+◌, ◌-◌, Bool, true, false, Option, none, some, List, [], ◌∷◌, ◌==◌, if◌then◌else◌,
  leb,
}
use unix_v7_c.Base.Int.{ℤ, pos, negsuc, sub_ℕ}

abbrev pub Bytes : Type 0
Bytes = List ℕ

abbrev pub cons? : ℕ → Option Bytes → Option Bytes
cons? c none = none
cons? c (some s) = some (c ∷ s)

abbrev pub suc? : Option ℕ → Option ℕ
suc? none = none
suc? (some n) = some (suc n)

-- `strlen`
pub strlen : Bytes → Option ℕ
strlen [] = none
strlen (c ∷ s) = let rest = strlen s in if c == 0 then some 0 else suc? rest

-- `strcpy`: the bytes of s1's array afterwards
pub strcpy : Bytes → Bytes → Option Bytes
strcpy [] s2 = none
strcpy (d ∷ s1) [] = none
strcpy (d ∷ s1) (c ∷ s2) = let rest = strcpy s1 s2 in if c == 0 then some (0 ∷ s1) else cons? c rest

-- `while (++i < n) *s1++ = '\0'`
pub pad : ℕ → Bytes → Option Bytes
pad zero s1 = some s1
pad (suc n) [] = none
pad (suc n) (d ∷ s1) = cons? 0 (pad n s1)

-- `strncpy`
pub strncpy : Bytes → Bytes → ℕ → Option Bytes
unfolding pad
strncpy s1 s2 zero = some s1
strncpy [] s2 (suc n) = none
strncpy (d ∷ s1) [] (suc n) = none
strncpy (d ∷ s1) (c ∷ s2) (suc n) =
    let rest = strncpy s1 s2 n in if c == 0 then cons? 0 (pad n s1) else cons? c rest

-- `strcat`
pub strcat : Bytes → Bytes → Option Bytes
unfolding strcpy
strcat [] s2 = none
strcat (d ∷ s1) s2 = let rest = strcat s1 s2 in if d == 0 then strcpy (d ∷ s1) s2 else cons? d rest

-- The second loop of `strncat`. The byte that makes n negative is overwritten by the closing 0.
pub copy_n : Bytes → Bytes → ℕ → Option Bytes
copy_n [] s2 n = none
copy_n (d ∷ s1) [] n = none
copy_n (d ∷ s1) (c ∷ s2) zero = some (0 ∷ s1)
copy_n (d ∷ s1) (c ∷ s2) (suc n) =
    let rest = copy_n s1 s2 n in if c == 0 then some (0 ∷ s1) else cons? c rest

-- `strncat`
pub strncat : Bytes → Bytes → ℕ → Option Bytes
unfolding copy_n
strncat [] s2 n = none
strncat (d ∷ s1) s2 n =
    let rest = strncat s1 s2 n in if d == 0 then copy_n (d ∷ s1) s2 n else cons? d rest

-- `strcmp`
pub strcmp : Bytes → Bytes → Option ℤ
strcmp [] s2 = none
strcmp (a ∷ s1) [] = none
strcmp (a ∷ s1) (b ∷ s2) =
    let rest = strcmp s1 s2 in
    if a == b then (if a == 0 then some (pos 0) else rest) else some (sub_ℕ a b)

-- `strncmp`
pub strncmp : Bytes → Bytes → ℕ → Option ℤ
strncmp s1 s2 zero = some (pos 0)
strncmp [] s2 (suc n) = none
strncmp (a ∷ s1) [] (suc n) = none
strncmp (a ∷ s1) (b ∷ s2) (suc n) =
    let rest = strncmp s1 s2 n in
    if a == b then (if a == 0 then some (pos 0) else rest) else some (sub_ℕ a b)

-- A pointer result: an access behind the array, NULL, or an offset.
pub data Pointer : Type 0 where
  outside : Pointer
  null : Pointer
  at : ℕ → Pointer

abbrev pub next : Pointer → Pointer
next outside = outside
next null = null
next (at n) = at (suc n)

-- `index`
pub index : Bytes → ℕ → Pointer
index [] c = outside
index (x ∷ sp) c =
    let rest = next (index sp c) in if x == c then at 0 else if x == 0 then null else rest

-- The loop of `rindex` with r, and the offset i of sp.
pub rindex_from : ℕ → Pointer → Bytes → ℕ → Pointer
rindex_from i r [] c = outside
rindex_from i r (x ∷ sp) c =
    let r' = if x == c then at i else r in
    let rest = rindex_from (i + 1) r' sp c in if x == 0 then r' else rest

-- `rindex`
pub rindex : Bytes → ℕ → Pointer
unfolding rindex_from
rindex sp c = rindex_from 0 null sp c
