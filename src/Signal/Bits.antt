-- ===== src/Signal/Bits.antt =====
-- Bits of a number, set and cleared, and the lowest that is set.
use unix_v7_c.Base.{
  ℕ, zero, suc, ◌+◌, ◌*◌, ◌/◌, ◌%◌, ◌^◌, ◌≡◌, ◌<◌, ◌≤◌, inl, inr, refl, ap, ◌∙◌, true, false, ◌||◌,
  ◌==◌, if◌then◌else◌, arith, Bool-cases, subst,
}
use unix_v7_c.Signal.{bit, set_bit, clear_bit, fsig_from}

same_suc : (j k : ℕ) → (j == k) ≡ (suc j == suc k)
same_suc j k = ground arith

-- The number below its last bit.
half : (m n : ℕ) → (m * 2 + n % 2) / 2 ≡ m
half m n = omega arith

low : (m n : ℕ) → (m * 2 + n % 2) % 2 ≡ n % 2
low m n = omega arith

pub bit-clear_bit : (j k n : ℕ) → bit j (clear_bit k n) ≡ (if j == k then false else bit j n)
unfolding bit clear_bit
bit-clear_bit zero zero n = ground arith
bit-clear_bit zero (suc k) n = rw (low (clear_bit k (n / 2)) n) (ground arith)
bit-clear_bit (suc j) zero n = let e : n / 2 * 2 / 2 ≡ n / 2 = omega arith in rw e (ground arith)
bit-clear_bit (suc j) (suc k) n =
    rw (half (clear_bit k (n / 2)) n)
      (bit-clear_bit j k (n / 2) ∙ ap (λ b. if b then false else bit j (n / 2)) (same_suc j k))

pub bit-set_bit : (j k n : ℕ) → bit j (set_bit k n) ≡ ((j == k) || bit j n)
unfolding bit set_bit
bit-set_bit zero zero n = ground arith
bit-set_bit zero (suc k) n = rw (low (set_bit k (n / 2)) n) (ground arith)
bit-set_bit (suc j) zero n =
    let e : (n / 2 * 2 + 1) / 2 ≡ n / 2 = omega arith in rw e (ground arith)
bit-set_bit (suc j) (suc k) n =
    rw (half (set_bit k (n / 2)) n)
      (bit-set_bit j k (n / 2) ∙ ap (λ b. b || bit j (n / 2)) (same_suc j k))

-- A number below 2 ^ w has a bit below w set, or is 0.
pub bits_zero : (w n : ℕ) → n < 2 ^ w → ((j : ℕ) → j < w → bit j n ≡ false) → n ≡ 0
unfolding bit
bits_zero zero n lt h = omega (arith, lt)
bits_zero (suc w) n lt h =
    let even = h 0 (omega arith) in
    let rest = bits_zero w (n / 2) (omega arith) (λ j l. h (suc j) (omega (arith, l))) in
    ground (arith, even, rest)

-- The lowest bit of n below w.
pub data Lowest (w i n : ℕ) : ℕ → Type 0 where
  clear : ((j : ℕ) → j < w → bit j n ≡ false) → Lowest w i n 0
  lowest :
      (k : ℕ) → k < w → bit k n ≡ true → ((j : ℕ) → j < k → bit j n ≡ false) → Lowest w i n (i + k)

behind :
    (n w : ℕ)
    → bit 0 n ≡ false
    → ((j : ℕ) → j < w → bit j (n / 2) ≡ false)
    → (j : ℕ) → j < suc w
    → bit j n ≡ false
unfolding bit
behind n w even h zero lt = even
behind n w even h (suc j) lt = h j (omega (arith, lt))

Lowest-next :
    (w i n : ℕ) {r : ℕ} → bit 0 n ≡ false → Lowest w (i + 1) (n / 2) r → Lowest (suc w) i n r
unfolding bit
Lowest-next w i n even (clear h) = clear (behind n w even h)
Lowest-next w i n even (lowest k lt b h) =
    let e : i + suc k ≡ i + 1 + k = omega arith in
    subst (Lowest (suc w) i n) e (lowest (suc k) (omega (arith, lt)) b (behind n k even h))

pub fsig_from-Lowest : (w i n : ℕ) → Lowest w i n (fsig_from w i n)
unfolding fsig_from bit
fsig_from-Lowest zero i n = clear (λ j h. absurd (omega (arith, h)))
fsig_from-Lowest (suc w) i n = elim (Bool-cases (n % 2 == 1)) [
  | inl odd ↦ rw odd (
      subst (Lowest (suc w) i n) (omega arith)
        (lowest 0 (omega arith) odd (λ j h. absurd (omega (arith, h)))))
  | inr even ↦ rw even (Lowest-next w i n even (fsig_from-Lowest w (i + 1) (n / 2)))
]

pub bit-zero : (k : ℕ) → bit k 0 ≡ false
unfolding bit
bit-zero zero = refl
bit-zero (suc k) = bit-zero k

pub clear_bit_le : (k n : ℕ) → clear_bit k n ≤ n
unfolding clear_bit
clear_bit_le zero n = omega arith
clear_bit_le (suc k) n = let h = clear_bit_le k (n / 2) in omega (arith, h)
