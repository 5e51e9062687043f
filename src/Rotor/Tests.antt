-- ===== src/Rotor/Tests.antt =====
-- Runs of the machine.
use unix_v7_c.Base.{ℕ, ◌≡◌, refl, List, [], ◌∷◌, some, arith}
use unix_v7_c.Rotor.{Rotors, rounds, setup, crypt}
use unix_v7_c.Rotor.Machine.{Reciprocal, setup-Reciprocal, crypt-crypt}

-- "AiH0K6vFJ4jqw"
abbrev key : List ℕ
key = 65 ∷ 105 ∷ 72 ∷ 48 ∷ 75 ∷ 54 ∷ 118 ∷ 70 ∷ 74 ∷ 52 ∷ 106 ∷ 113 ∷ 119 ∷ []

abbrev text : List ℕ
text = 104 ∷ 101 ∷ 108 ∷ 108 ∷ 111 ∷ 10 ∷ []

-- The last four rounds, from empty tables.
rounds_run :
    rounds 4 key 123 (0 ∷ 1 ∷ 2 ∷ 3 ∷ []) (0 ∷ 0 ∷ 0 ∷ 0 ∷ [])
    ≡ some (2 ∷ 3 ∷ 0 ∷ 1 ∷ [], 1 ∷ 0 ∷ 3 ∷ 2 ∷ [])
unfolding rounds
rounds_run = refl

setup-Reciprocal_example : (r : Rotors) × (setup key ≡ some r) × Reciprocal r
setup-Reciprocal_example = setup-Reciprocal key

crypt-crypt_example : (r : Rotors) × (setup key ≡ some r) × (crypt r 0 0 (crypt r 0 0 text) ≡ text)
crypt-crypt_example =
    crypt-crypt key text
      (omega arith, (omega arith, (omega arith, (omega arith, (omega arith, (omega arith, tt))))))
