-- ===== src/Libc/Crypt/Password.antt =====
-- `crypt` of usr/src/libc/gen/crypt.c.
--
-- pw is the text before its closing 0, and the two characters of the salt are among those that `crypt`
-- itself prints: `.`, `/`, digits and letters. The result is the text of iobuf.
use unix_v7_c.Base.{
  ℕ, zero, suc, ◌+◌, ◌-◌, ◌*◌, ◌/◌, ◌%◌, ◌^◌, false, List, [], ◌∷◌, ◌++◌, ◌==◌, ltb, if◌then◌else◌,
  get_or, set, replicate, length,
}
use unix_v7_c.Libc.Str.{Bytes}
use unix_v7_c.Libc.Crypt.{Bits, num, setkey, encrypt}
use unix_v7_c.Libc.Crypt.Tables.{selection}

-- (c>>(6-j)) & 01 for j from 0 to 6
abbrev pub char_bits : ℕ → Bits
char_bits c =
    (c / 64 % 2 == 1)
    ∷ (c / 32 % 2 == 1)
    ∷ (c / 16 % 2 == 1)
    ∷ (c / 8 % 2 == 1)
    ∷ (c / 4 % 2 == 1)
    ∷ (c / 2 % 2 == 1)
    ∷ (c % 2 == 1)
    ∷ []

-- The loop over pw, at most n characters more.
pub key_bits : ℕ → Bytes → Bits
key_bits zero pw = []
key_bits (suc n) [] = []
key_bits (suc n) (c ∷ pw) = char_bits c ++ (false ∷ key_bits n pw)

abbrev pub fill : Bits → Bits
fill bits = bits ++ replicate (66 - length bits) false

-- The value of a character of the salt.
pub salt_value : ℕ → ℕ
salt_value c =
    let c' = if ltb b'Z' c then c - 6 else c in
    let c'' = if ltb b'9' c' then c' - 7 else c' in c'' - b'.'

-- The exchange of E[k] and E[k+24].
pub exchange : ℕ → List ℕ → List ℕ
exchange k table = set (set table k (get_or table (k + 24) 0)) (k + 24) (get_or table k 0)

-- `for(j=0;j<6;j++)` in the loop over the salt, the last n rounds
pub salted : ℕ → (i c : ℕ) → List ℕ → List ℕ
unfolding exchange
salted zero i c table = table
salted (suc n) i c table =
    let j = 5 - n in salted n i c (if c / 2 ^ j % 2 == 1 then exchange (6 * i + j) table else table)

pub repeat : ℕ → List ℕ → List Bits → Bits → Bits
unfolding encrypt
repeat zero table ks block = block
repeat (suc n) table ks block = repeat n table ks (encrypt table ks block false)

-- The character for six bits.
pub print_value : ℕ → ℕ
print_value v =
    let c = v + b'.' in
    let c' = if ltb b'9' c then c + 7 else c in if ltb b'Z' c' then c' + 6 else c'

-- `for(i=0; i<11; i++)` at the end, the last n rounds
pub printed : ℕ → Bits → Bytes
unfolding print_value
printed zero block = []
printed (suc n) (a ∷ b ∷ c ∷ d ∷ e ∷ f ∷ block) =
    print_value (num a * 32 + num b * 16 + num c * 8 + num d * 4 + num e * 2 + num f)
    ∷ printed n block
printed (suc n) _ = []

-- `crypt`
unfoldable pub crypt : Bytes → (salt0 salt1 : ℕ) → Bytes
unfolding key_bits salt_value salted repeat printed setkey
crypt pw salt0 salt1 =
    let ks = setkey (fill (key_bits 8 pw)) in
    let table = salted 6 1 (salt_value salt1) (salted 6 0 (salt_value salt0) selection) in
    let block = repeat 25 table ks (replicate 64 false) in
    salt0 ∷ (if salt1 == 0 then salt0 else salt1) ∷ printed 11 (block ++ (false ∷ false ∷ []))
