-- ===== src/Signal/Pending.antt =====
-- `issig` finds the first signal that asks for something.
use unix_v7_c.Base.{
  ℕ, zero, suc, ◌+◌, ◌-◌, ◌%◌, ◌^◌, ◌≡◌, ◌<◌, ◌≤◌, inl, inr, refl, sym, ◌∙◌, Bool, true, false,
  ◌||◌, ◌==◌, if◌then◌else◌, arith, Bool-cases, subst, some, leb, ltb,
}
use unix_v7_c.Signal.{bit, clear_bit, fsig, issig}
use unix_v7_c.Signal.Bits.{
  bit-clear_bit, bits_zero, Lowest, clear, lowest, fsig_from-Lowest, bit-zero, clear_bit_le,
}

-- The signal asks for something: it is not ignored, or the process is traced.
abbrev pub asks : (ℕ → ℕ) → Bool → ℕ → Bool
asks u_signal strc sig = (u_signal sig % 2 == 0) || strc

-- What `issig` answers for the pending signals n, and what is pending afterwards.
pub data Answer (u_signal : ℕ → ℕ) (strc : Bool) (n : ℕ) : ℕ → ℕ → Type 0 where
  nothing :
      ((k : ℕ) → k < 16 → bit k n ≡ true → asks u_signal strc (1 + k) ≡ false)
      → Answer u_signal strc n 0 0
  pending :
      (k n' : ℕ)
      → k < 16
      → bit k n ≡ true
      → asks u_signal strc (1 + k) ≡ true
      → ((j : ℕ) → j < k → bit j n ≡ true → asks u_signal strc (1 + j) ≡ false)
      → ((j : ℕ) → j < k → bit j n' ≡ false)
      → ((j : ℕ) → k ≤ j → bit j n' ≡ bit j n)
      → Answer u_signal strc n (1 + k) n'

other : (j k n : ℕ) → (j == k) ≡ false → bit j (clear_bit k n) ≡ bit j n
other j k n ne = rw (bit-clear_bit j k n, ne) refl

own : (k n : ℕ) → bit k (clear_bit k n) ≡ false
own k n = let e : (k == k) ≡ true = ground arith in rw (bit-clear_bit k k n, e) refl

above_low : (i k n : ℕ) → bit i (clear_bit k n) ≡ true → ((j : ℕ) → j < k → bit j n ≡ false) → k < i
above_low i k n b low = elim (Bool-cases (ltb k i)) [
  | inl e ↦ ground (arith, e)
  | inr e ↦ elim (Bool-cases (i == k)) [
    | inl same ↦
        let eq : i ≡ k = ground (arith, same) in
        let off : bit k (clear_bit k n) ≡ true = subst (λ z. bit z (clear_bit k n) ≡ true) eq b in
        absurd (ground (arith, own k n, off))
    | inr ne ↦
        let lt : i < k = ground (arith, e, ne) in
        let off : bit i n ≡ false = low i lt in absurd (ground (arith, other i k n ne, off, b))
  ]
]

-- The lowest pending signal is ignored and dropped.
Answer-drop :
    (u_signal : ℕ → ℕ) (strc : Bool) (n k r n' : ℕ)
    → asks u_signal strc (1 + k) ≡ false
    → ((j : ℕ) → j < k → bit j n ≡ false)
    → Answer u_signal strc (clear_bit k n) r n'
    → Answer u_signal strc n r n'
Answer-drop u_signal strc n k _ _ ignored low (nothing h) = nothing (λ j lt b.
    elim (Bool-cases (j == k)) [
      | inl e ↦ let eq : j ≡ k = ground (arith, e) in rw eq ignored
      | inr e ↦ h j lt (other j k n e ∙ b)
    ])
Answer-drop u_signal strc n k _ _ ignored low (pending i n' lt b ask before gone kept) =
    let above : k < i = above_low i k n b low in
    pending i n' lt (sym (other i k n (ground (arith, above))) ∙ b) ask
      (λ j l bj. elim (Bool-cases (j == k)) [
        | inl e ↦ let eq : j ≡ k = ground (arith, e) in rw eq ignored
        | inr e ↦ before j l (other j k n e ∙ bj)
      ])
      gone (λ j l. kept j l ∙ other j k n (ground (arith, above, l)))

fsig-Lowest : (n : ℕ) → Lowest 16 1 n (fsig n)
unfolding fsig
fsig-Lowest n = fsig_from-Lowest 16 1 n

-- With this fuel `issig` gives an answer.
abbrev pub Answers : ℕ → (ℕ → ℕ) → Bool → ℕ → Type 0
Answers fuel u_signal strc n =
    (r : ℕ) × (n' : ℕ) × (issig fuel u_signal strc n ≡ some (r, n')) × Answer u_signal strc n r n'

issig-none :
    (fuel n : ℕ) (u_signal : ℕ → ℕ) (strc : Bool)
    → n ≡ 0
    → issig (suc fuel) u_signal strc n ≡ some (0, 0)
unfolding issig
issig-none fuel n u_signal strc h = rw h refl

issig-round :
    (fuel n k : ℕ) (u_signal : ℕ → ℕ) (strc : Bool)
    → (n == 0) ≡ false
    → fsig n ≡ 1 + k
    → issig (suc fuel) u_signal strc n ≡ (
        if asks u_signal strc (1 + k)
        then some (1 + k, n)
        else issig fuel u_signal strc (clear_bit k n))
unfolding issig
issig-round fuel n k u_signal strc some' low =
    let back : 1 + k - 1 ≡ k = omega arith in rw (some', low, back)

bits_below :
    (k n : ℕ)
    → ((j : ℕ) → j < k → bit j n ≡ false)
    → (j : ℕ) → j < suc k
    → bit j (clear_bit k n) ≡ false
bits_below k n low j lt = elim (Bool-cases (j == k)) [
  | inl e ↦ let eq : j ≡ k = ground (arith, e) in rw eq (own k n)
  | inr e ↦ other j k n e ∙ low j (ground (arith, lt, e))
]

above_clear : (c k n : ℕ) → ((j : ℕ) → j < c → bit j n ≡ false) → bit k n ≡ true → c ≤ k
above_clear c k n low b = elim (Bool-cases (leb c k)) [
  | inl e ↦ ground (arith, e)
  | inr e ↦ let off = low k (ground (arith, e)) in absurd (ground (arith, off, b))
]

issig-next :
    (fuel c n : ℕ) (u_signal : ℕ → ℕ) (strc : Bool)
    → n < 2 ^ 16
    → (n == 0) ≡ false
    → ((j : ℕ) → j < c → bit j n ≡ false)
    → ((c' m : ℕ)
        → c < c'
        → c' ≤ 16
        → m < 2 ^ 16
        → ((j : ℕ) → j < c' → bit j m ≡ false)
        → Answers fuel u_signal strc m)
    → (f : ℕ) → fsig n ≡ f
    → Lowest 16 1 n f
    → Answers (suc fuel) u_signal strc n
issig-next fuel c n u_signal strc lt some' low again _ eq (clear h) =
    let z = bits_zero 16 n lt h in absurd (ground (arith, z, some'))
issig-next fuel c n u_signal strc lt some' low again _ eq (lowest k l b h) =
    elim (Bool-cases (asks u_signal strc (1 + k))) [
      | inl yes' ↦ (
        1 + k,
        n,
        issig-round fuel n k u_signal strc some' eq ∙ rw yes' refl,
        pending k n l b yes' (λ j lj bj. absurd (ground (arith, h j lj, bj))) h (λ j lj. refl),
      )
      | inr ignored ↦
          let above = above_clear c k n low b in
          let le = clear_bit_le k n in
          let (r, n', run, answer) =
            again (suc k) (clear_bit k n) (omega (arith, above)) (omega (arith, l))
              (omega (arith, lt, le)) (bits_below k n h) in
          (
            r,
            n',
            issig-round fuel n k u_signal strc some' eq ∙ (rw ignored run),
            Answer-drop u_signal strc n k r n' ignored h answer,
          )
    ]

issig-from :
    (fuel c n : ℕ) (u_signal : ℕ → ℕ) (strc : Bool)
    → c ≤ 16
    → 17 ≤ fuel + c
    → n < 2 ^ 16
    → ((j : ℕ) → j < c → bit j n ≡ false)
    → Answers fuel u_signal strc n
issig-from zero c n u_signal strc most enough lt low = absurd (omega (arith, most, enough))
issig-from (suc fuel) c n u_signal strc most enough lt low = elim (Bool-cases (n == 0)) [
  | inl e ↦
      let none' : n ≡ 0 = ground (arith, e) in
      (
        0,
        0,
        issig-none fuel n u_signal strc none',
        rw none' (nothing (λ k l b. absurd (ground (arith, bit-zero k, b)))),
      )
  | inr e ↦
      issig-next fuel c n u_signal strc lt e low
        (λ c' m above most' lt' low'.
          issig-from fuel c' m u_signal strc most' (omega (arith, enough, above)) lt' low')
        (fsig n) refl (fsig-Lowest n)
]

-- For signals below NSIG, 17 rounds are enough for `issig`. It returns the lowest pending signal that
-- is not ignored, or the lowest of all if the process is traced, and drops the ignored ones below it;
-- it returns 0 only if every pending signal is ignored, and then none is left.
pub issig-Answers :
    (n : ℕ) (u_signal : ℕ → ℕ) (strc : Bool) → n < 2 ^ 16 → Answers 17 u_signal strc n
issig-Answers n u_signal strc lt =
    issig-from 17 0 n u_signal strc (omega arith) (omega arith) lt
      (λ j l. absurd (omega (arith, l)))
