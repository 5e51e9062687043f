-- ===== src/Inode/Truncate.antt =====
-- `itrunc` gives every block of the file back, in the order of the file.
use unix_v7_c.Base.{
  ℕ, zero, suc, ◌+◌, ◌-◌, ◌≡◌, ◌<◌, ◌⊎◌, refl, ap, sym, ◌∙◌, Bool, true, false, ◌||◌, inl, inr,
  List, [], ◌∷◌, ◌++◌, arith, ◌==◌, if◌then◌else◌, length, replicate, has, Distinct, Bool-cases,
  subst,
}
use mathlib.Core.List.{append_assoc}
use unix_v7_c.Bmap.{naddr}
use unix_v7_c.Inode.{
  Inode, sweep, tloop, release_slot, release_all, itrunc, file_type, ifreg, ifdir,
}

-- What `itrunc` relies on when it calls `free`: the block goes in front of the free ones.
pub record Releaser (S : Type 0) : Type 1 where
  pub free : ℕ → S → S
  pub Holds : S → List ℕ → Type 0
  pub Usable : ℕ → Type 0
  pub puts :
      (s : S) (b : ℕ) (l : List ℕ)
      → Holds s l
      → Usable b
      → has b l ≡ false
      → Holds (free b s) (b ∷ l)

-- The blocks behind the addresses of a table.
abbrev pub gather : (ℕ → List ℕ) → List ℕ → List ℕ
gather g [] = []
gather g (a ∷ rest) = if a == 0 then gather g rest else g a ++ gather g rest

module _ (blocks : ℕ → List ℕ) where
  -- An indirect block with all that it leads to, through as many levels.
  abbrev pub below : ℕ → ℕ → List ℕ
  below zero bn = bn ∷ []
  below (suc k) bn = bn ∷ gather (below k) (blocks bn)

  -- The blocks of a file, from the address with index i on: an address leads through no indirect
  -- block below index 10, and through i - 9 of them from there on.
  abbrev pub file_blocks : ℕ → List ℕ → List ℕ
  file_blocks i [] = []
  file_blocks i (bn ∷ rest) =
      if bn == 0 then file_blocks (suc i) rest else below (i - 9) bn ++ file_blocks (suc i) rest

Distinct-drop : (xs ys : List ℕ) → Distinct (xs ++ ys) → Distinct ys
Distinct-drop [] ys h = h
Distinct-drop (x ∷ xs) ys h = Distinct-drop xs ys h.1

module _ {S : Type 0} (R : Releaser S) (blocks : ℕ → List ℕ) (unreadable : ℕ → Bool)
    (readable : (c : ℕ) → unreadable c ≡ false) where
  abbrev pub Usables : List ℕ → Type 0
  Usables [] = Unit {0}
  Usables (x ∷ xs) = R.Usable x × Usables xs

  Usables-right : (xs ys : List ℕ) → Usables (xs ++ ys) → Usables ys
  Usables-right [] ys h = h
  Usables-right (x ∷ xs) ys h = Usables-right xs ys h.1

  Usables-left : (xs ys : List ℕ) → Usables (xs ++ ys) → Usables xs
  Usables-left [] ys h = tt
  Usables-left (x ∷ xs) ys h = (h.0, Usables-left xs ys h.1)

  -- A routine that puts the blocks xs in front of the free ones, if they are not free yet.
  abbrev Puts : (S → S) → List ℕ → Type 0
  Puts f xs =
      (s : S) (l : List ℕ) → R.Holds s l → Usables xs → Distinct (xs ++ l) → R.Holds (f s) (xs ++ l)

  Puts-both :
      (f g : S → S) (xs ys : List ℕ) → Puts f xs → Puts g ys → Puts (λ s. f (g s)) (xs ++ ys)
  Puts-both f g xs ys hf hg s l held ok apart =
      let e : (xs ++ ys) ++ l ≡ xs ++ (ys ++ l) = append_assoc xs ys l in
      let apart' : Distinct (xs ++ (ys ++ l)) = subst Distinct e apart in
      subst (R.Holds (f (g s))) (sym e) (
        hf (g s) (ys ++ l)
          (hg s l held (Usables-right xs ys ok) (Distinct-drop xs (ys ++ l) apart'))
          (Usables-left xs ys ok) apart')

  free-Puts : (b : ℕ) → Puts (R.free b) (b ∷ [])
  free-Puts b s l held ok apart = R.puts s b l held ok.0 apart.0

  sweep-Puts :
      (release : ℕ → S → S) (g : ℕ → List ℕ) (bap : List ℕ)
      → ((a : ℕ) → Puts (release a) (g a))
      → Puts (sweep release bap) (gather g bap)
  unfolding sweep
  sweep-Puts release g [] h = λ s l held ok apart. held
  sweep-Puts release g (a ∷ bap) h = elim (Bool-cases (a == 0)) [
    | inl z ↦ rw z (sweep-Puts release g bap h)
    | inr z ↦ rw z (
        Puts-both (release a) (sweep release bap) (g a) (gather g bap) (h a)
          (sweep-Puts release g bap h))
  ]

  tloop-Puts : (k bn : ℕ) → Puts (tloop R.free blocks unreadable k bn) (below blocks (suc k) bn)
  unfolding tloop
  tloop-Puts zero bn = rw (readable bn) (
      Puts-both (R.free bn) (sweep R.free (blocks bn)) (bn ∷ []) _ (free-Puts bn)
        (sweep-Puts R.free (below blocks 0) (blocks bn) free-Puts))
  tloop-Puts (suc k) bn = rw (readable bn) (
      Puts-both (R.free bn) (sweep (tloop R.free blocks unreadable k) (blocks bn)) (bn ∷ []) _
        (free-Puts bn)
        (sweep-Puts (tloop R.free blocks unreadable k) (below blocks (suc k)) (blocks bn)
          (tloop-Puts k)))

  slot-Puts :
      (i bn : ℕ)
      → i < naddr
      → Puts (release_slot R.free blocks unreadable i bn) (below blocks (i - 9) bn)
  unfolding release_slot
  slot-Puts i bn h = elim (Bool-cases (i == 10)) [
    | inl e ↦ let k : i - 9 ≡ 1 = ground (arith, e) in rw (e, k) (tloop-Puts 0 bn)
    | inr e ↦ elim (Bool-cases (i == 11)) [
      | inl f ↦ let k : i - 9 ≡ 2 = ground (arith, f) in rw (e, f, k) (tloop-Puts 1 bn)
      | inr f ↦ elim (Bool-cases (i == 12)) [
        | inl g ↦ let k : i - 9 ≡ 3 = ground (arith, g) in rw (e, f, g, k) (tloop-Puts 2 bn)
        | inr g ↦ let k : i - 9 ≡ 0 = ground (arith, e, f, g, h) in rw (e, f, g, k) (free-Puts bn)
      ]
    ]
  ]

  all-Puts :
      (i : ℕ) (addr : List ℕ)
      → i + length addr ≡ naddr
      → Puts (λ s. (release_all R.free blocks unreadable i addr s).1) (file_blocks blocks i addr)
  unfolding release_all
  all-Puts i [] h = λ s l held ok apart. held
  all-Puts i (bn ∷ rest) h = elim (Bool-cases (bn == 0)) [
    | inl z ↦ rw z (all-Puts (suc i) rest (omega (arith, h)))
    | inr z ↦ rw z (
        Puts-both (release_slot R.free blocks unreadable i bn) _ (below blocks (i - 9) bn) _
          (slot-Puts i bn (omega (arith, h))) (all-Puts (suc i) rest (omega (arith, h))))
  ]

  all_cleared :
      (i : ℕ) (addr : List ℕ) (s : S)
      → (release_all R.free blocks unreadable i addr s).0 ≡ replicate (length addr) 0
  unfolding release_all
  all_cleared i [] s = refl
  all_cleared i (bn ∷ rest) s = elim (Bool-cases (bn == 0)) [
    | inl z ↦
        let z' : bn ≡ 0 = ground (arith, z) in
        rw (z, z') (ap (λ bs. 0 ∷ bs) (all_cleared (suc i) rest s))
    | inr z ↦ rw z (ap (λ bs. 0 ∷ bs) (all_cleared (suc i) rest s))
  ]

  -- `itrunc` of a plain file or a directory, whose blocks are all different, in use and readable,
  -- leaves it with no address and the size 0, and puts every block of it in front of the free ones,
  -- each once: the first block of the file first, and an indirect block before those it leads to.
  pub itrunc-file_blocks :
      (ip : Inode) (s : S) (l : List ℕ)
      → R.Holds s l
      → length ip.i_addr ≡ naddr
      → (file_type ip.i_mode ≡ ifreg) ⊎ (file_type ip.i_mode ≡ ifdir)
      → Usables (file_blocks blocks 0 ip.i_addr)
      → Distinct (file_blocks blocks 0 ip.i_addr ++ l)
      → ((itrunc R.free blocks unreadable ip s).0
          ≡ record ip { i_addr = replicate naddr 0; i_size = 0; changed = true })
        × R.Holds (itrunc R.free blocks unreadable ip s).1 (file_blocks blocks 0 ip.i_addr ++ l)
  unfolding itrunc
  itrunc-file_blocks ip s l held size plain ok apart =
      let file : ((file_type ip.i_mode == ifreg) || (file_type ip.i_mode == ifdir)) ≡ true =
        ground (arith, plain) in
      let none_left : (release_all R.free blocks unreadable 0 ip.i_addr s).0 ≡ replicate naddr 0 =
        all_cleared 0 ip.i_addr s ∙ ap (λ n. replicate n 0) size in
      rw (file, none_left) (refl, all-Puts 0 ip.i_addr (omega (arith, size)) s l held ok apart)
