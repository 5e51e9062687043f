-- ===== src/Files/Descriptors.antt =====
-- `ufalloc` and `falloc` take what is free.
use unix_v7_c.Base.{
  ℕ, zero, suc, ◌+◌, ◌≡◌, ◌≢◌, ◌<◌, inl, inr, refl, ap, ◌==◌, arith, Bool-cases, Option, none, some,
  List, [], ◌∷◌, ◌++◌, length, set,
}
use unix_v7_c.Files.{
  User, File, emfile, enfile, first_null, first_file, ufalloc, falloc, descriptor,
}

-- The descriptor i is the first that is NULL.
pub data FirstNull (ds : List (Option ℕ)) : Option ℕ → Type 0 where
  used : ((i : ℕ) → i < length ds → descriptor ds i ≢ none) → FirstNull ds none
  free :
      (i : ℕ)
      → i < length ds
      → descriptor ds i ≡ none
      → ((j : ℕ) → j < i → descriptor ds j ≢ none)
      → FirstNull ds (some i)

some_ne : (a : ℕ) → some a ≢ none
some_ne a e = ground (arith, e)

first_null-FirstNull : (ds : List (Option ℕ)) → FirstNull ds (first_null ds)
unfolding first_null
first_null-FirstNull [] = used (λ i h. absurd (omega (arith, h)))
first_null-FirstNull (none ∷ ds) = free 0 (omega arith) refl (λ j h. absurd (omega (arith, h)))
first_null-FirstNull (some fp ∷ ds) = next fp ds (first_null ds) (first_null-FirstNull ds)
  where
    behind :
        (fp : ℕ) (ds : List (Option ℕ)) (n : ℕ)
        → ((i : ℕ) → i < n → descriptor ds i ≢ none)
        → (i : ℕ) → i < suc n
        → descriptor (some fp ∷ ds) i ≢ none
    behind fp ds n h zero lt = some_ne fp
    behind fp ds n h (suc i) lt = h i (omega (arith, lt))

    next :
        (fp : ℕ) (ds : List (Option ℕ)) (r : Option ℕ)
        → FirstNull ds r
        → FirstNull (some fp ∷ ds) (elim r [ none ↦ none | some i ↦ some (suc i) ])
    next fp ds _ (used h) = used (behind fp ds (length ds) h)
    next fp ds _ (free i lt e h) = free (suc i) (omega (arith, lt)) e (behind fp ds i h)

abbrev pub AllUsed : List File → Type 0
AllUsed [] = Unit {0}
AllUsed (f ∷ fs) = (f.f_count ≢ 0) × AllUsed fs

abbrev pub opened_file : File
opened_file = record { f_count = 1; f_offset = 0 }

-- The first file that is not in use, if there is one, is taken.
pub data FirstFree (fs : List File) : Option (ℕ × List File) → Type 0 where
  full : AllUsed fs → FirstFree fs none
  taken :
      (l : List File) (f : File) (r : List File)
      → fs ≡ l ++ (f ∷ r)
      → f.f_count ≡ 0
      → AllUsed l
      → FirstFree fs (some (length l, l ++ (opened_file ∷ r)))

first_file-FirstFree : (fs : List File) → FirstFree fs (first_file fs)
unfolding first_file
first_file-FirstFree [] = full tt
first_file-FirstFree (f ∷ fs) = elim (Bool-cases (f.f_count == 0)) [
  | inl unused ↦
      let none : f.f_count ≡ 0 = ground (arith, unused) in
      let one : f.f_count + 1 ≡ 1 = omega (arith, none) in
      rw (unused, one) (taken [] f fs refl none tt)
  | inr busy ↦
      let ne : f.f_count ≢ 0 = ground (arith, busy) in
      rw busy (behind f fs ne (first_file fs) (first_file-FirstFree fs))
]
  where
    behind :
        (f : File) (fs : List File)
        → f.f_count ≢ 0
        → (r : Option (ℕ × List File)) → FirstFree fs r
        → FirstFree (f ∷ fs) (elim r [ none ↦ none | some (i, fs') ↦ some (suc i, f ∷ fs') ])
    behind f fs ne _ (full u) = full (ne, u)
    behind f fs ne _ (taken l g r e z u) = taken (f ∷ l) g r (ap (◌∷◌ f) e) z (ne, u)

-- What `falloc` may do.
pub data Opened (u : User) (file : List File) : Option ℕ → User → List File → Type 0 where
  no_descriptor : FirstNull u.u_ofile none → Opened u file none (record u { u_error = emfile }) file
  no_file :
      (i : ℕ)
      → FirstNull u.u_ofile (some i)
      → AllUsed file
      → Opened u file none
          (record u { r_val1 = i; u_pofile = set u.u_pofile i 0; u_error = enfile })
          file
  opens :
      (i : ℕ) (l : List File) (f : File) (r : List File)
      → FirstNull u.u_ofile (some i)
      → file ≡ l ++ (f ∷ r)
      → f.f_count ≡ 0
      → AllUsed l
      → Opened u file
          (some (length l))
          (record u {
            r_val1 = i;
            u_pofile = set u.u_pofile i 0;
            u_ofile = set u.u_ofile i (some (length l));
          })
          (l ++ (opened_file ∷ r))

-- `falloc` makes the first descriptor that is NULL point to the first file that is not in use, which
-- then has one reference and the offset 0, and returns that file. It returns NULL with EMFILE when no
-- descriptor is NULL, and with ENFILE when every file is in use, and then opens nothing.
pub falloc-Opened :
    (u : User) (file : List File) → let (fp, u', file') = falloc u file in Opened u file fp u' file'
unfolding falloc
falloc-Opened u file =
    go (first_null u.u_ofile) refl (first_null-FirstNull u.u_ofile) (first_file file) refl
      (first_file-FirstFree file)
  where
    go :
        (d : Option ℕ)
        → first_null u.u_ofile ≡ d
        → FirstNull u.u_ofile d
        → (t : Option (ℕ × List File)) → first_file file ≡ t
        → FirstFree file t
        → let (fp, u', file') = falloc u file in Opened u file fp u' file'
    go _ e (used h) t e' table = rw (falloc, e, ufalloc, e) (no_descriptor (used h))
    go _ e (free i lt z h) _ e' (full all) =
        rw (falloc, e, e', ufalloc, e) (no_file i (free i lt z h) all)
    go _ e (free i lt z h) _ e' (taken l f r eq idle busy) =
        rw (falloc, e, e', ufalloc, e) (opens i l f r (free i lt z h) eq idle busy)
