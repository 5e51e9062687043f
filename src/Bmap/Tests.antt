-- ===== src/Bmap/Tests.antt =====
-- A file without blocks, on a file system with four free ones.
use unix_v7_c.Base.{
  ℕ, zero, suc, ◌≤◌, ◌<◌, ◌≡◌, ◌≢◌, refl, Bool, true, false, inr, List, [], ◌∷◌, arith, replicate,
  get_or,
}
use unix_v7_c.Base.Int.{ℤ, pos, negsuc}
use unix_v7_c.FreeList.{Filsys, Disk, cleared, alloc}
use unix_v7_c.FreeList.Chain.{Holds}
use unix_v7_c.Bmap.{State, bmap}
use unix_v7_c.Bmap.Node.{Good}
use unix_v7_c.Bmap.Reach.{at}
use unix_v7_c.Bmap.Numbers.{capacity, route}
use unix_v7_c.Bmap.Read.{Reads, bmap-answer}
use unix_v7_c.Bmap.After.{Enters, bmap-Enters, read-write, bmap-efbig}
use unix_v7_c.Bmap.Space.{free_list, alloc_buffer}

abbrev readable : ℕ → Bool
readable b = false

abbrev super : Filsys
super = record {
  s_isize = 2;
  s_fsize = 10;
  s_nfree = 5;
  s_free = 0 ∷ 5 ∷ 6 ∷ 7 ∷ 8 ∷ replicate 45 0;
  s_flock = false;
  s_fmod = false;
}

abbrev four : List ℕ
four = 8 ∷ 7 ∷ 6 ∷ 5 ∷ []

abbrev blank : Disk
blank b = cleared

super-Holds : Holds readable super blank four
super-Holds = record {
  unlocked = refl;
  array = refl;
  chain = (
    omega arith,
    omega arith,
    refl,
    omega arith,
    refl,
    inr (
      omega arith,
      (
        omega arith,
        omega arith,
        refl,
        omega arith,
        refl,
        inr (
          omega arith,
          (
            omega arith,
            omega arith,
            refl,
            omega arith,
            refl,
            inr (
              omega arith,
              (
                omega arith,
                omega arith,
                refl,
                omega arith,
                refl,
                inr (omega arith, inr (refl, refl)),
              ),
            ),
          ),
        ),
      ),
    ),
  );
  distinct = (refl, (refl, (refl, (refl, tt))));
}

abbrev empty : State (Filsys × Disk)
empty = record {
  i_addr = replicate 13 0;
  changed = false;
  blocks = λ c. replicate 128 0;
  space = (super, blank);
  rablock = 0;
  efbig = false;
}

zeros : (n i : ℕ) → ◌≡◌ {A = ℕ} (get_or (replicate n 0) i 0) 0
zeros zero i = refl
zeros (suc n) zero = refl
zeros (suc n) (suc i) = zeros n i

holes : (p : List ℕ) → at empty p ≡ 0
holes [] = refl
holes (i ∷ []) = zeros 13 i
holes (i ∷ (k ∷ q)) = rw (holes (k ∷ q)) refl

empty-Good : Good empty.i_addr empty.blocks four
empty-Good = record {
  addresses = refl;
  tables = λ c. refl;
  once = λ p q rp rq nz e. absurd (nz (holes p));
  not_free = λ p r. rw (holes p) refl;
  nonzero = refl;
  distinct = (refl, (refl, (refl, (refl, tt))));
}

-- Logical block 300 is behind two indirect blocks.
abbrev filled : ℤ × State (Filsys × Disk)
filled = bmap (alloc_buffer readable) readable true (pos 300) empty

filled_runs : (filled.0 ≡ pos 6) × (get_or filled.1.i_addr 11 0 ≡ 8)
unfolding bmap alloc
filled_runs = (refl, refl)

again_runs :
    ((bmap (alloc_buffer readable) readable false (pos 300) filled.1).0 ≡ pos 6)
    × ((bmap (alloc_buffer readable) readable false (pos 301) filled.1).0 ≡ negsuc 0)
    × ((bmap (alloc_buffer readable) readable true (pos 300) filled.1).0 ≡ pos 6)
unfolding bmap alloc
again_runs = (refl, refl, refl)

bmap-Enters_example :
    (b : ℕ) × (t : State (Filsys × Disk)) × (l' : List ℕ) × Enters
      (free_list readable)
      readable
      empty
      four
      300
      t
      l'
      b
bmap-Enters_example =
    bmap-Enters (free_list readable) readable (λ c. refl) empty four empty-Good super-Holds 300
      (omega arith) (omega arith)

read-write_example :
    (b : ℕ) × (t : State (Filsys × Disk)) × (bmap
        (alloc_buffer readable)
        readable
        true
        (pos 300)
        empty
      ≡ (pos b, t))
    × ((bmap (alloc_buffer readable) readable false (pos 300) t).0 ≡ pos b)
    × ((other : ℕ)
        → other < capacity
        → other ≢ 300
        → (bmap (alloc_buffer readable) readable false (pos other) t).0
          ≡ (bmap (alloc_buffer readable) readable false (pos other) empty).0)
read-write_example =
    read-write (free_list readable) readable (λ c. refl) empty four empty-Good super-Holds 300
      (omega arith) (omega arith)

bmap-answer_example :
    Reads filled.1
      (at filled.1 (route 300))
      (bmap (alloc_buffer readable) readable false (pos 300) filled.1)
bmap-answer_example =
    bmap-answer (alloc_buffer readable) readable (λ c. refl) 300 filled.1 (omega arith)

bmap-efbig_example :
    ((n : ℕ)
      → bmap (alloc_buffer readable) readable true (negsuc n) empty
        ≡ (pos 0, record empty { efbig = true }))
    × ((bn : ℕ)
        → capacity ≤ bn
        → bmap (alloc_buffer readable) readable true (pos bn) empty
          ≡ (pos 0, record empty { rablock = 0; efbig = true }))
bmap-efbig_example = bmap-efbig (alloc_buffer readable) readable true empty
