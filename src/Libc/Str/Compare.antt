-- ===== src/Libc/Str/Compare.antt =====
-- `strcmp` and `strncmp` compare texts in the order of a dictionary.
use unix_v7_c.Base.{
  ℕ, zero, suc, ◌-◌, ◌<◌, ◌≡◌, ◌≢◌, refl, ap, false, Option, some, [], ◌∷◌, ◌==◌, arith, take,
  Bool-cases, inl, inr,
}
use unix_v7_c.Base.Int.{ℤ, pos, negsuc, sub_ℕ}
use unix_v7_c.Libc.Str.{Bytes, strcmp, strncmp}
use unix_v7_c.Libc.Str.Text.{IsText, string, ne_zero}
use unix_v7_c.Base.{leb}

-- The order of texts: a text comes before each longer text that begins with it.
pub data Before : Bytes → Bytes → Type 0 where
  shorter : (b : ℕ) (t : Bytes) → Before [] (b ∷ t)
  smaller : (a b : ℕ) (s t : Bytes) → a < b → Before (a ∷ s) (b ∷ t)
  further : (a : ℕ) {s t : Bytes} → Before s t → Before (a ∷ s) (a ∷ t)

-- The result is 0 for equal texts, negative if the first comes before, positive if it comes after.
pub data Compared (s t : Bytes) : Option ℤ → Type 0 where
  equal : s ≡ t → Compared s t (some (pos 0))
  less : (n : ℕ) → Before s t → Compared s t (some (negsuc n))
  greater : (n : ℕ) → Before t s → Compared s t (some (pos (suc n)))

Compared-further :
    (a : ℕ) {s t : Bytes} {o : Option ℤ} → Compared s t o → Compared (a ∷ s) (a ∷ t) o
Compared-further a (equal e) = equal (ap (◌∷◌ a) e)
Compared-further a (less n b) = less n (further a b)
Compared-further a (greater n b) = greater n (further a b)

-- Two bytes that differ decide.
Compared-differ :
    (a b : ℕ) (s t : Bytes)
    → (a < b → Before s t)
    → (b < a → Before t s)
    → a ≢ b
    → Compared s t (some (sub_ℕ a b))
Compared-differ a b s t lt gt ne = elim (Bool-cases (leb b a)) [
  | inl ge ↦
      let d : sub_ℕ a b ≡ pos (suc (a - b - 1)) = ground arith in
      rw d (greater (a - b - 1) (gt (ground arith)))
  | inr below ↦
      let d : sub_ℕ a b ≡ negsuc (b - a - 1) = ground arith in
      rw d (less (b - a - 1) (lt (ground arith)))
]

-- On strings `strcmp` stays inside them and compares the texts.
pub strcmp-Compared :
    (s t r r' : Bytes) → IsText s → IsText t → Compared s t (strcmp (string s r) (string t r'))
unfolding strcmp
strcmp-Compared [] [] r r' hs ht = equal refl
strcmp-Compared [] (b ∷ t) r r' hs ht =
    let ne : (0 == b) ≡ false = ground arith in
    rw ne
      (Compared-differ 0 b [] (b ∷ t) (λ _. shorter b t) (λ h. absurd (omega arith)) (ground arith))
strcmp-Compared (a ∷ s) [] r r' hs ht =
    rw (ne_zero a hs.0)
      (Compared-differ a 0 (a ∷ s) [] (λ h. absurd (omega arith)) (λ _. shorter a s) (ground arith))
strcmp-Compared (a ∷ s) (b ∷ t) r r' hs ht = elim (Bool-cases (a == b)) [
  | inl same ↦
      let e : a ≡ b = ground arith in
      rw (same, ne_zero a hs.0) (rw (← e) (Compared-further a (strcmp-Compared s t r r' hs.1 ht.1)))
  | inr differ ↦
      rw differ
        (Compared-differ a b (a ∷ s) (b ∷ t) (smaller a b s t) (smaller b a t s) (ground arith))
]

-- `strncmp` compares the first n bytes of the texts.
pub strncmp-Compared :
    (s t r r' : Bytes) (n : ℕ)
    → IsText s
    → IsText t
    → Compared (take n s) (take n t) (strncmp (string s r) (string t r') n)
unfolding strncmp
strncmp-Compared s t r r' zero hs ht = equal refl
strncmp-Compared [] [] r r' (suc n) hs ht = equal refl
strncmp-Compared [] (b ∷ t) r r' (suc n) hs ht =
    let ne : (0 == b) ≡ false = ground arith in
    rw ne (
      Compared-differ 0 b [] (b ∷ take n t) (λ _. shorter b (take n t)) (λ h. absurd (omega arith))
        (ground arith))
strncmp-Compared (a ∷ s) [] r r' (suc n) hs ht = rw (ne_zero a hs.0) (
    Compared-differ a 0 (a ∷ take n s) [] (λ h. absurd (omega arith)) (λ _. shorter a (take n s))
      (ground arith))
strncmp-Compared (a ∷ s) (b ∷ t) r r' (suc n) hs ht = elim (Bool-cases (a == b)) [
  | inl same ↦
      let e : a ≡ b = ground arith in
      rw (same, ne_zero a hs.0)
        (rw (← e) (Compared-further a (strncmp-Compared s t r r' n hs.1 ht.1)))
  | inr differ ↦ rw differ (
      Compared-differ a b (a ∷ take n s) (b ∷ take n t) (smaller a b _ _) (smaller b a _ _)
        (ground arith))
]
