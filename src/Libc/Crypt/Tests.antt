-- ===== src/Libc/Crypt/Tests.antt =====
-- The zero block under a key.
use unix_v7_c.Base.{◌++◌, ℕ, List, get_or, ◌≡◌, refl, true, false, [], ◌∷◌, replicate}
use unix_v7_c.Libc.Crypt.{Bits, setkey, encrypt}
use unix_v7_c.Libc.Crypt.Password.{crypt}
use unix_v7_c.Libc.Crypt.Tables.{selection}
use unix_v7_c.Libc.Crypt.Inverse.{encrypt-encrypt}

abbrev zeros : Bits
zeros = replicate 64 false

encrypt-encrypt_example :
    encrypt selection (setkey zeros) (encrypt selection (setkey zeros) zeros false) true ≡ zeros
encrypt-encrypt_example = encrypt-encrypt selection (setkey zeros) zeros refl refl

-- 8CA64DE9C1B123A7, the known answer of the standard for a zero key.
encrypt_runs :
    encrypt selection (setkey zeros) zeros false
    ≡ true ∷ false ∷ false ∷ false ∷ true ∷ true ∷ false ∷ false ∷ true ∷ false ∷ true ∷ false
      ∷ false ∷ true ∷ true ∷ false ∷ false ∷ true ∷ false ∷ false ∷ true ∷ true ∷ false ∷ true
      ∷ true ∷ true ∷ true ∷ false ∷ true ∷ false ∷ false ∷ true ∷ true ∷ true ∷ false ∷ false
      ∷ false ∷ false ∷ false ∷ true ∷ true ∷ false ∷ true ∷ true ∷ false ∷ false ∷ false ∷ true
      ∷ false ∷ false ∷ true ∷ false ∷ false ∷ false ∷ true ∷ true ∷ true ∷ false ∷ true ∷ false
      ∷ false ∷ true ∷ true ∷ true ∷ []
unfolding encrypt setkey
encrypt_runs = refl

-- The password "password" with the salt "ab" gives "abJnggxhB/yWI".
crypt_runs :
    crypt (112 ∷ 97 ∷ 115 ∷ 115 ∷ 119 ∷ 111 ∷ 114 ∷ 100 ∷ []) b'a' b'b'
    ≡ 97 ∷ 98 ∷ 74 ∷ 110 ∷ 103 ∷ 103 ∷ 120 ∷ 104 ∷ 66 ∷ 47 ∷ 121 ∷ 87 ∷ 73 ∷ []
unfolding crypt
crypt_runs = refl

-- The array E before `crypt` fills it.
abbrev unfilled : List ℕ
unfilled = replicate 48 0

abbrev one_bit : Bits
one_bit = replicate 6 false ++ (true ∷ replicate 57 false)

abbrev there_and_back : Bits
there_and_back =
    encrypt unfilled (setkey zeros) (encrypt unfilled (setkey zeros) one_bit false) true

-- Then `encrypt` does not decrypt: the bit that was set is not.
unfilled_fails : (get_or one_bit 6 false ≡ true) × (get_or there_and_back 6 false ≡ false)
unfolding encrypt setkey
unfilled_fails = (refl, refl)
