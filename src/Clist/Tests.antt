-- ===== src/Clist/Tests.antt =====
-- A list in one block, at two places of a block's end.
use unix_v7_c.Base.{ℕ, inr, ◌⊎◌, ◌≡◌, refl, List, [], ◌∷◌, arith, some, none, ◌==◌, if◌then◌else◌}
use unix_v7_c.Clist.{Blocks, Clist, getc, q_to_b, getw, putw}
use unix_v7_c.Clist.Write.{puts, b_to_q-puts}
use unix_v7_c.Clist.{b_to_q}
use unix_v7_c.Clist.Init.{cinit, ndqb}
use unix_v7_c.Clist.Chunks.{IsQueue, nil, cons, blocks_of, Frees}
use unix_v7_c.Clist.Get.{getc-IsQueue, q_to_b-IsQueue}
use unix_v7_c.Clist.Put.{putc-IsQueue, Added}
use unix_v7_c.Base.{◌⊎◌}

-- The blocks at 32 and 48 are free.
abbrev fresh : Blocks
fresh = record { byte = λ a. 0; next = λ a. if a == 32 then 48 else 0; cfreelist = 32 }

abbrev none_yet : Clist
none_yet = record { c_cc = 0; c_cf = 0; c_cl = 0 }

fresh-IsQueue : IsQueue none_yet fresh (32 ∷ 48 ∷ []) []
fresh-IsQueue =
    nil refl refl (refl, (refl, refl))
      (refl, (λ z. absurd (omega (arith, z))), (refl, (λ z. absurd (omega (arith, z))), tt))
      (refl, (refl, tt))

-- The characters 97 and 98 stand at 46 and, in the next block, at 52.
abbrev two : Blocks
two = record {
  byte = λ a. if a == 47 then 97 else if a == 52 then 98 else 0;
  next = λ a. if a == 32 then 48 else 0;
  cfreelist = 64;
}

abbrev pair : Clist
pair = record { c_cc = 2; c_cf = 47; c_cl = 53 }

abbrev text : List ℕ
text = 97 ∷ 98 ∷ []

pair-IsQueue : IsQueue pair two (64 ∷ []) text
pair-IsQueue =
    cons 32 15 (48 ∷ []) 97 (98 ∷ []) refl refl (refl, tt)
      (omega arith, omega arith, refl, inr (refl, (omega arith, omega arith, refl, refl)))
      (refl, refl)
      (
        refl,
        (λ z. absurd (omega (arith, z))),
        (refl, (λ z. absurd (omega (arith, z))), (refl, (λ z. absurd (omega (arith, z))), tt)),
      )
      (refl, (refl, (refl, tt)))

getc_runs : (getc pair two).0 ≡ some 97
unfolding getc
getc_runs = refl

getc_frees : (getc pair two).2.cfreelist ≡ 32
unfolding getc
getc_frees = refl

q_to_b_runs : (q_to_b 5 pair two).0 ≡ 97 ∷ 98 ∷ []
unfolding q_to_b
q_to_b_runs = refl

word_runs : (let (_, p, m) = putw 0x4142 none_yet fresh in (getw p m).0) ≡ some 0x4142
unfolding putw getw
word_runs = refl

getc-IsQueue_example :
    (((getc pair two).0 ≡ none)
      × (text ≡ [])
      × IsQueue (getc pair two).1 (getc pair two).2 (64 ∷ []) [])
    ⊎ ((x : ℕ) × (rest : List ℕ) × ((getc pair two).0 ≡ some x)
        × (text ≡ x ∷ rest)
        × (fs' : List ℕ) × (q' : IsQueue (getc pair two).1 (getc pair two).2 fs' rest) × Frees
            (blocks_of pair-IsQueue)
            (64 ∷ [])
            (blocks_of q')
            fs')
getc-IsQueue_example = getc-IsQueue pair two (64 ∷ []) text pair-IsQueue

q_to_b-IsQueue_example :
    ((q_to_b 1 pair two).0 ≡ 97 ∷ [])
    × (fs' : List ℕ) × IsQueue (q_to_b 1 pair two).1 (q_to_b 1 pair two).2 fs' (98 ∷ [])
q_to_b-IsQueue_example = q_to_b-IsQueue 1 pair two (64 ∷ []) text pair-IsQueue

putc-IsQueue_example : Added 99 pair two (64 ∷ []) text
putc-IsQueue_example = putc-IsQueue 99 pair two (64 ∷ []) text pair-IsQueue

b_to_q_runs : (let (left, p, m) = b_to_q text none_yet fresh in (q_to_b 9 p m).0) ≡ text
unfolding b_to_q q_to_b
b_to_q_runs = refl

b_to_q-puts_example : b_to_q text none_yet fresh ≡ puts text none_yet fresh
b_to_q-puts_example = b_to_q-puts text none_yet fresh refl

cinit_runs : (cinit 20 3 fresh).cfreelist ≡ 48
unfolding cinit
cinit_runs = refl

ndqb_runs : ndqb pair 0 two ≡ 1
unfolding ndqb
ndqb_runs = refl
