-- ===== src/Rotor.antt =====
-- The command crypt, a machine with one rotor: usr/src/cmd/crypt.c.
--
-- `buf` is the 13 characters that makekey wrote on the pipe. The entries of the rotors are of type
-- char there and are masked wherever they are used; here they are from 0 to 255. A long
-- and an int have 32 bits, as on the ARM machine that the system runs on. `none` is a division by 0, or a search that does not end.
pub mod Search
pub mod Pairs
pub mod Shuffle
pub mod Machine
mod Tests
use unix_v7_c.Base.{
  ℕ, zero, suc, ◌+◌, ◌-◌, ◌*◌, ◌/◌, ◌%◌, ◌^◌, Bool, true, false, Option, none, some, ◌>>=◌, List,
  [], ◌∷◌, ltb, ◌==◌, if◌then◌else◌, get_or, set, replicate,
}

-- ROTORSZ
abbrev pub rotorsz : ℕ
rotorsz = 256

pub record Rotors : Type 0 where
  pub t1 : List ℕ
  pub t2 : List ℕ
  pub t3 : List ℕ

-- "seed = seed*buf[i] + i", an unsigned long
pub key_seed : ℕ → ℕ → List ℕ → ℕ
key_seed seed i [] = seed
key_seed seed i (c ∷ buf) = key_seed ((seed * c + i) % 2 ^ 32) (suc i) buf

-- "5*seed + buf[i%13]"
pub next_seed : List ℕ → ℕ → ℕ → ℕ
next_seed buf i seed = (5 * seed + get_or buf (i % 13) 0) % 2 ^ 32

-- "(long)seed % 65521", which is negative where the seed is as a long, stored as unsigned
pub random : ℕ → ℕ
random seed =
    if ltb seed (2 ^ 31) then seed % 65521 else (2 ^ 32 - (2 ^ 32 - seed) % 65521) % 2 ^ 32

-- t1[k] and t1[ic] change places
abbrev pub exchange : List ℕ → ℕ → ℕ → List ℕ
exchange t1 k ic = set (set t1 k (get_or t1 ic 0)) ic (get_or t1 k 0)

-- "while(t3[ic]!=0) ic = (ic+1) % k", in as many rounds at most as there are places
pub search : ℕ → List ℕ → ℕ → ℕ → Option ℕ
search zero t3 k ic = none
search (suc n) t3 k ic =
    let rest = search n t3 k ((ic + 1) % k) in if get_or t3 ic 0 == 0 then some ic else rest

abbrev pub pair_up : List ℕ → ℕ → ℕ → List ℕ
pair_up t3 k ic = set (set t3 k ic) ic k

-- What a round does to t3.
pub reflect : ℕ → ℕ → List ℕ → Option (List ℕ)
unfolding search
reflect k number t3 =
    if get_or t3 k 0 == 0
    then (if k == 0
        then none
        else (search k t3 k (number / 256 % 256 % k) >>= (λ ic. some (pair_up t3 k ic))))
    else some t3

-- The rounds of `setup` for k from `left` - 1 down to 0, with i = 255 - k.
pub rounds : ℕ → List ℕ → ℕ → List ℕ → List ℕ → Option (List ℕ × List ℕ)
unfolding next_seed random reflect
rounds zero buf seed t1 t3 = some (t1, t3)
rounds (suc k) buf seed t1 t3 =
    let seed' = next_seed buf (rotorsz - 1 - k) seed in
    let number = random seed' in
    reflect k number t3 >>= (λ t3'. rounds k buf seed' (exchange t1 k (number % 256 % (k + 1))) t3')

-- "t2[t1[i]&MASK] = i" for the n numbers from i on
pub invert : ℕ → ℕ → List ℕ → List ℕ → List ℕ
invert zero i t1 t2 = t2
invert (suc n) i t1 t2 = invert n (suc i) t1 (set t2 (get_or t1 i 0) i)

-- "t1[i] = i" for the n numbers from i on
pub count_up : ℕ → ℕ → List ℕ
count_up zero i = []
count_up (suc n) i = i ∷ count_up n (suc i)

-- `setup` behind the call of makekey
pub setup : List ℕ → Option Rotors
unfolding key_seed rounds invert count_up
setup buf =
    rounds rotorsz buf (key_seed 123 0 buf) (count_up rotorsz 0) (replicate rotorsz 0)
    >>= (λ r. some (record { t1 = r.0; t2 = invert rotorsz 0 r.0 (replicate rotorsz 0); t3 = r.1 }))

-- How n1 and n2 move on behind a character.
abbrev pub next_n1 : ℕ → ℕ
next_n1 n1 = if n1 + 1 == rotorsz then 0 else n1 + 1

abbrev pub next_n2 : ℕ → ℕ → ℕ
next_n2 n1 n2 = if n1 + 1 == rotorsz then (if n2 + 1 == rotorsz then 0 else n2 + 1) else n2

module _ (r : Rotors) where
  -- One character, with n1 and n2 the positions of the rotor.
  pub turn : ℕ → ℕ → ℕ → ℕ
  turn n1 n2 i =
      let a = get_or r.t1 ((i + n1) % 256) 0 in
      let b = get_or r.t3 ((a + n2) % 256) 0 in
      let c = get_or r.t2 ((b + 256 - n2) % 256) 0 in (c + 256 - n1) % 256

  -- The loop of `main`.
  pub crypt : ℕ → ℕ → List ℕ → List ℕ
  unfolding turn
  crypt n1 n2 [] = []
  crypt n1 n2 (i ∷ text) = turn n1 n2 i ∷ crypt (next_n1 n1) (next_n2 n1 n2) text
