-- ===== src/Libc/Convert/Decimal.antt =====
-- `atoi` reads decimal numbers, and what `printn` prints in base 10 it reads back.
use unix_v7_c.Base.{
  ℕ, zero, suc, ◌+◌, ◌-◌, ◌*◌, ◌/◌, ◌%◌, ◌^◌, ◌≤◌, ◌<◌, ◌≡◌, ◌≢◌, refl, ap, ◌∙◌, Bool, true, false,
  ◌&&◌, ◌||◌, some, inl, inr, [], ◌∷◌, ◌++◌, ◌==◌, arith, leb, Bool-cases,
}
use native.Mathlib.Nat.{pow-suc}
use unix_v7_c.Libc.Str.{Bytes}
use unix_v7_c.Libc.Convert.{word, sign, digits, atoi, digit_char, printn}

abbrev pub is_digit : ℕ → Bool
is_digit c = leb b'0' c && leb c b'9'

abbrev pub IsDigits : Bytes → Type 0
IsDigits [] = Unit {0}
IsDigits (c ∷ t) = (is_digit c ≡ true) × IsDigits t

abbrev pub IsBlank : Bytes → Type 0
IsBlank [] = Unit {0}
IsBlank (c ∷ t) = (((c == 0x20) || (c == 9)) ≡ true) × IsBlank t

-- the number that decimal digits stand for, behind those of `acc`
abbrev pub value : ℕ → Bytes → ℕ
value acc [] = acc
value acc (c ∷ t) = value (acc * 10 + (c - b'0')) t

digits-value :
    (n c : ℕ) (t rest : Bytes)
    → IsDigits t
    → is_digit c ≡ false
    → digits (n % word) (t ++ (c ∷ rest)) ≡ some (value n t % word)
unfolding digits
digits-value n c [] rest h stop = rw stop
digits-value n c (d ∷ t) rest h stop =
    let low : b'0' ≤ d = ground (arith, h.0) in
    let step : (n % word * 10 + d - b'0') % word ≡ (n * 10 + (d - b'0')) % word = omega arith in
    rw (h.0, step) (digits-value (n * 10 + (d - b'0')) c t rest h.1 stop)

sign-blank : (bs p : Bytes) → IsBlank bs → sign (bs ++ p) ≡ sign p
unfolding sign
sign-blank [] p h = refl
sign-blank (c ∷ bs) p h = rw (h.0, sign-blank bs p h.1)

sign-digit : (d : ℕ) (p : Bytes) → is_digit d ≡ true → sign (d ∷ p) ≡ some (false, d ∷ p)
unfolding sign
sign-digit d p h = ground (arith, h)

-- `atoi` skips blanks and tabs, takes a sign if there is one, and returns the value of the digits
-- that follow, modulo 2 ^ 32, or with a minus its negative.
pub atoi-value :
    (bs t rest : Bytes) (d c : ℕ)
    → IsBlank bs
    → IsDigits (d ∷ t)
    → is_digit c ≡ false
    → let v = value 0 (d ∷ t) % word in
      (atoi (bs ++ (d ∷ (t ++ (c ∷ rest)))) ≡ some v)
      × (atoi (bs ++ (b'+' ∷ d ∷ (t ++ (c ∷ rest)))) ≡ some v)
      × (atoi (bs ++ (b'-' ∷ d ∷ (t ++ (c ∷ rest)))) ≡ some ((word - v) % word))
unfolding atoi
atoi-value bs t rest d c b h stop =
    let all = digits-value 0 c (d ∷ t) rest h stop in
    (
      rw (sign-blank bs (d ∷ (t ++ (c ∷ rest))) b, atoi)
          (rw (sign-digit d (t ++ (c ∷ rest)) h.0, atoi) (rw all)),
      rw (sign-blank bs (b'+' ∷ d ∷ (t ++ (c ∷ rest))) b, atoi) (unfold sign in rw all),
      rw (sign-blank bs (b'-' ∷ d ∷ (t ++ (c ∷ rest))) b, atoi) (unfold sign in rw all),
    )

value-append : (acc c : ℕ) (s : Bytes) → value acc (s ++ (c ∷ [])) ≡ value acc s * 10 + (c - b'0')
value-append acc c [] = refl
value-append acc c (d ∷ s) = value-append (acc * 10 + (d - b'0')) c s

IsDigits-append : (s : Bytes) (c : ℕ) → IsDigits s → is_digit c ≡ true → IsDigits (s ++ (c ∷ []))
IsDigits-append [] c h k = (k, tt)
IsDigits-append (d ∷ s) c h k = (h.0, IsDigits-append s c h.1 k)

-- What `printn` prints in base 10: at least one digit, and digits that stand for the number.
pub record Prints (n : ℕ) (s : Bytes) : Type 0 where
  pub some_digit : s ≢ []
  pub only_digits : IsDigits s
  pub number : value 0 s ≡ n

digit_char-digit : (d : ℕ) → d < 10 → (is_digit (digit_char d) ≡ true) × (digit_char d - b'0' ≡ d)
unfolding digit_char
digit_char-digit d h = (ground arith, ground arith)

Prints-digit : (n : ℕ) → n < 10 → Prints n (digit_char (n % 10) ∷ [])
Prints-digit n h =
    let (digit, val) = digit_char-digit (n % 10) (omega arith) in
    record { some_digit = λ e. cc; only_digits = (digit, tt); number = omega (arith, val) }

append-ne-nil : (s : Bytes) (c : ℕ) → s ++ (c ∷ []) ≢ []
append-ne-nil [] c e = cc
append-ne-nil (x ∷ s) c e = cc

Prints-append : (n : ℕ) (s : Bytes) → Prints (n / 10) s → Prints n (s ++ (digit_char (n % 10) ∷ []))
Prints-append n s p =
    let (digit, val) = digit_char-digit (n % 10) (omega arith) in
    record {
      some_digit = append-ne-nil s (digit_char (n % 10));
      only_digits = IsDigits-append s (digit_char (n % 10)) p.only_digits digit;
      number = value-append 0 (digit_char (n % 10)) s ∙ omega (arith, val, p.number);
    }

printn-Prints :
    (fuel n : ℕ) → n < 10 ^ suc fuel → (s : Bytes) × (printn (suc fuel) n 10 ≡ some s) × Prints n s
unfolding printn
printn-Prints zero n h =
    let last : (n / 10 == 0) ≡ true = ground (arith, pow-suc 10 0) in
    (_, rw last, Prints-digit n (omega (arith, pow-suc 10 0)))
printn-Prints (suc fuel) n h = elim (Bool-cases (n / 10 == 0)) [
  | inl last ↦ (_, rw last, Prints-digit n (ground arith))
  | inr more ↦
      let (s, e, p) = printn-Prints fuel (n / 10) (omega (arith, pow-suc 10 (suc fuel))) in
      (_, rw (more, e), Prints-append n s p)
]

-- With fuel for the digits, `printn` in base 10 prints a text from which `atoi` reads the number
-- back, if it is below 2 ^ 32 and no digit follows.
pub atoi-printn :
    (fuel n c : ℕ) (rest : Bytes)
    → n < 10 ^ suc fuel
    → n < word
    → is_digit c ≡ false
    → (s : Bytes) × (printn (suc fuel) n 10 ≡ some s) × (atoi (s ++ (c ∷ rest)) ≡ some n)
atoi-printn fuel n c rest h w stop = let (s, e, p) = printn-Prints fuel n h in (s, e, read s p)
  where
    read : (s : Bytes) → Prints n s → atoi (s ++ (c ∷ rest)) ≡ some n
    read [] p = absurd (p.some_digit refl)
    read (d ∷ t) p =
        (atoi-value [] t rest d c tt p.only_digits stop).0 ∙ ap some (omega (arith, p.number))
