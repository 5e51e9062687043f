-- ===== src/Clist/Put.antt =====
-- `putc` adds a character at the end.
use unix_v7_c.Base.{
  ℕ, suc, ◌+◌, ◌-◌, ◌%◌, ◌<◌, ◌≡◌, ◌≢◌, true, false, ◌⊎◌, inl, inr, refl, sym, List, [], ◌∷◌, ◌++◌,
  arith, ◌==◌, length, has, Distinct, Bool-cases, length-append, subst,
}
use unix_v7_c.Clist.{Blocks, Clist, update, block_size, info, make_room, no_block, putc}
use unix_v7_c.Clist.Chunks.{
  Reads, Linked, IsFree, AreBlocks, IsQueue, nil, cons, Linked-update, IsFree-update,
  AreBlocks-right, Distinct-right,
}
use unix_v7_c.Clist.Append.{
  last_block, Reads-last_block, Reads-update, Reads-snoc, Reads-block, Linked-last_block,
  Linked-snoc, has-last_block,
}
use unix_v7_c.Clist.Apart.{
  byte_at, append_block, AreBlocks-left, Distinct-left, last_block-mod, Distinct-out, Distinct-has,
}

-- What `putc` does to a queue.
abbrev pub Added : ℕ → Clist → Blocks → List ℕ → List ℕ → Type 0
Added c p m fs xs =
    let (ok, p', m') = putc c p m in
    ((ok ≡ true) × (fs' : List ℕ) × IsQueue p' m' fs' (xs ++ (c % 256 ∷ [])))
    ⊎ ((ok ≡ false) × (fs ≡ []) × IsQueue p' m' [] xs)

pub putc-none :
    (c : ℕ) (p : Clist) (m : Blocks) → p.c_cl ≡ 0 → m.cfreelist ≡ 0 → putc c p m ≡ (false, p, m)
unfolding putc
putc-none c p m cl free =
    let here : (p.c_cl == 0) ≡ true = ground arith in
    let no : (m.cfreelist == 0) ≡ true = ground arith in
    rw (putc, make_room, here, no, no_block, here)

pub putc-first :
    (c : ℕ) (p : Clist) (m : Blocks) (f : ℕ)
    → p.c_cl ≡ 0
    → m.cfreelist ≡ f
    → f ≢ 0
    → putc c p m ≡ (
      true,
      record { c_cc = p.c_cc + 1; c_cf = info f; c_cl = info f + 1 },
      record {
        byte = update m.byte (info f) (c % 256);
        next = update m.next f 0;
        cfreelist = m.next f;
      },
    )
unfolding putc
putc-first c p m f cl free ne =
    let here : (p.c_cl == 0) ≡ true = ground arith in
    let some : (f == 0) ≡ false = ground arith in rw (putc, make_room, here, free, some)

pub putc-inside :
    (c : ℕ) (p : Clist) (m : Blocks)
    → p.c_cl ≢ 0
    → p.c_cl % 16 ≢ 0
    → putc c p m ≡ (
      true,
      record p { c_cc = p.c_cc + 1; c_cl = p.c_cl + 1 },
      record m { byte = update m.byte p.c_cl (c % 256) },
    )
unfolding putc
putc-inside c p m cl edge =
    let here : (p.c_cl == 0) ≡ false = ground arith in
    let no : (p.c_cl % 16 == 0) ≡ false = ground arith in rw (putc, make_room, here, no)

pub putc-full :
    (c : ℕ) (p : Clist) (m : Blocks)
    → p.c_cl ≢ 0
    → p.c_cl % 16 ≡ 0
    → m.cfreelist ≡ 0
    → putc c p m ≡ (false, p, record m { next = update m.next (p.c_cl - block_size) 0 })
unfolding putc
putc-full c p m cl edge free =
    let here : (p.c_cl == 0) ≡ false = ground arith in
    let yes : (p.c_cl % 16 == 0) ≡ true = ground arith in
    let no : (m.cfreelist == 0) ≡ true = ground arith in
    rw (putc, make_room, here, yes, no, no_block, here)

pub putc-block :
    (c : ℕ) (p : Clist) (m : Blocks) (f : ℕ)
    → p.c_cl ≢ 0
    → p.c_cl % 16 ≡ 0
    → m.cfreelist ≡ f
    → f ≢ 0
    → putc c p m ≡ (
      true,
      record p { c_cc = p.c_cc + 1; c_cl = info f + 1 },
      record {
        byte = update m.byte (info f) (c % 256);
        next = update (update m.next (p.c_cl - block_size) f) f 0;
        cfreelist = m.next f;
      },
    )
unfolding putc
putc-block c p m f cl edge free ne =
    let here : (p.c_cl == 0) ≡ false = ground arith in
    let yes : (p.c_cl % 16 == 0) ≡ true = ground arith in
    let some : (f == 0) ≡ false = ground arith in rw (putc, make_room, here, yes, free, some)

-- The last block is full.
add_block :
    (c : ℕ) (p : Clist) (m : Blocks) (fs : List ℕ) (b k : ℕ) (bs : List ℕ) (x : ℕ) (xs : List ℕ)
    → p.c_cc ≡ suc (length xs)
    → p.c_cf ≡ b + k
    → Linked m.next b bs
    → Reads m.byte p.c_cl b k bs (x ∷ xs)
    → IsFree m.next m.cfreelist fs
    → AreBlocks (b ∷ (bs ++ fs))
    → Distinct (b ∷ (bs ++ fs))
    → p.c_cl ≢ 0
    → p.c_cl % 16 ≡ 0
    → p.c_cl - 16 ≡ last_block b bs
    → Added c p m fs (x ∷ xs)
add_block c p m [] b k bs x xs count cf links reads free blocks distinct ne full back =
    let apart = Distinct-left (b ∷ bs) [] distinct in
    rw (putc-full c p m ne full free) (
      inr (
        refl,
        refl,
        cons b k bs x xs count cf
            (subst (λ a. Linked (update m.next a 0) b bs) (sym back)
              (Linked-last_block m.next 0 b bs apart links))
            reads free blocks distinct,
      ))
add_block c p m (f ∷ fs) b k bs x xs count cf links reads free blocks distinct ne full back =
    let own = AreBlocks-left (b ∷ bs) (f ∷ fs) blocks in
    let apart = Distinct-left (b ∷ bs) (f ∷ fs) distinct in
    let others = AreBlocks-right (b ∷ bs) (f ∷ fs) blocks in
    let out : has f (b ∷ bs) ≡ false = Distinct-out f (b ∷ bs) fs distinct in
    let last = has-last_block b bs in
    let away = Distinct-has (last_block b bs) (b ∷ bs) (f ∷ fs) distinct last in
    let other : (f == last_block b bs) ≡ false = ground arith in
    let same : (last_block b bs == last_block b bs) ≡ true = ground arith in
    let next' = update m.next (last_block b bs) f in
    rw (putc-block c p m f ne full free.0 others.1) (
      inl (
        refl,
        fs,
        subst
            (λ a.
              IsQueue (record p { c_cc = p.c_cc + 1; c_cl = info f + 1 })
                (record {
                  byte = update m.byte (info f) (c % 256);
                  next = update (update m.next a f) f 0;
                  cfreelist = m.next f;
                })
                fs (x ∷ (xs ++ (c % 256 ∷ []))))
            (sym back)
            (cons b k (bs ++ (f ∷ [])) x (xs ++ (c % 256 ∷ []))
              (omega (arith, count, length-append xs (c % 256 ∷ []))) cf
              (Linked-snoc (update next' f 0) f b bs (rw (other, same) refl)
                (Linked-update next' f 0 b bs out (Linked-last_block m.next f b bs apart links)))
              (Reads-block (update m.byte (f + 4) (c % 256)) (c % 256) p.c_cl f b k bs x xs
                (Reads-update m.byte (c % 256) f 4 p.c_cl b k bs x xs reads own apart others.0
                  (omega arith) (inl out))
                own full (byte_at m.byte (f + 4) c))
              (IsFree-update next' f 0 (m.next f) fs (Distinct-right (b ∷ bs) (f ∷ fs) distinct).0
                (IsFree-update m.next (last_block b bs) f (m.next f) fs (ground arith) free.1))
              (rw (append_block f bs fs) blocks) (rw (append_block f bs fs) distinct)),
      ))

inside_lt : (l j a : ℕ) → a ≡ l + j + 1 → l % 16 ≡ 0 → j < 16 → a % 16 ≢ 0 → j + 1 < 16
inside_lt l j a end mult hi edge = elim (Bool-cases (j == 15)) [
  | inl e ↦ let eq : j ≡ 15 = ground (arith, e) in absurd (edge (omega (arith, eq)))
  | inr e ↦ ground (arith, e)
]

-- The queue has a character: the places for the next.
add_more :
    (c : ℕ) (p : Clist) (m : Blocks) (fs : List ℕ) (x : ℕ) (xs : List ℕ)
    → IsQueue p m fs (x ∷ xs)
    → Added c p m fs (x ∷ xs)
add_more c p m fs x xs (cons b k bs _ _ count cf links reads free blocks distinct) =
    let own = AreBlocks-left (b ∷ bs) fs blocks in
    let apart = Distinct-left (b ∷ bs) fs distinct in
    let (j, lo, hi, end, _) = Reads-last_block m.byte p.c_cl b k bs x xs reads in
    let mult = last_block-mod b bs own in
    let ne : p.c_cl ≢ 0 = λ z. absurd (omega (arith, z, end)) in
    elim (Bool-cases (p.c_cl % 16 == 0)) [
      | inl full ↦
          add_block c p m fs b k bs x xs count cf links reads free blocks distinct ne
            (ground (arith, full))
            (let edge : p.c_cl % 16 ≡ 0 = ground (arith, full) in
              omega (arith, edge, end, mult, hi))
      | inr room ↦
          let edge : p.c_cl % 16 ≢ 0 = ground (arith, room) in
          let at : p.c_cl ≡ last_block b bs + (j + 1) = omega (arith, end) in
          let lt : j + 1 < 16 = inside_lt (last_block b bs) j p.c_cl end mult hi edge in
          rw (putc-inside c p m ne edge) (
            inl (
              refl,
              fs,
              cons b k bs x (xs ++ (c % 256 ∷ []))
                  (omega (arith, count, length-append xs (c % 256 ∷ []))) cf links
                  (Reads-snoc (update m.byte p.c_cl (c % 256)) (c % 256) p.c_cl b k bs x xs
                    (subst (λ a. Reads (update m.byte a (c % 256)) p.c_cl b k bs (x ∷ xs)) (sym at)
                      (Reads-update m.byte (c % 256) (last_block b bs) (j + 1) p.c_cl b k bs x xs
                        reads own apart mult lt (inr (refl, omega (arith, at)))))
                    own edge (byte_at m.byte p.c_cl c))
                  free blocks distinct,
            ))
    ]

-- `putc` adds the character's byte at the end of the queue. It fails only without a free block, and
-- then leaves the queue as it is.
pub putc-IsQueue :
    (c : ℕ) (p : Clist) (m : Blocks) (fs xs : List ℕ) → IsQueue p m fs xs → Added c p m fs xs
putc-IsQueue c p m [] [] (nil count cl free blocks distinct) =
    rw (putc-none c p m cl free) (inr (refl, refl, nil count cl free blocks distinct))
putc-IsQueue c p m (f ∷ fs) [] (nil count cl free blocks distinct) =
    rw (putc-first c p m f cl free.0 blocks.1) (
      inl (
        refl,
        fs,
        cons f 4 [] (c % 256) [] (omega (arith, count)) refl tt
            (omega arith, omega arith, byte_at m.byte (f + 4) c, refl)
            (IsFree-update m.next f 0 (m.next f) fs distinct.0 free.1) blocks distinct,
      ))
putc-IsQueue c p m fs (x ∷ xs) q = add_more c p m fs x xs q
