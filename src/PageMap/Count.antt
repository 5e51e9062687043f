-- ===== src/PageMap/Count.antt =====
-- `mapalloc` takes just the pages that `mapneed` counts, and `mapfree` gives back as many.
use unix_v7_c.Base.{
  ℕ, zero, suc, ◌+◌, ◌-◌, ◌/◌, ◌%◌, ◌≤◌, ◌≡◌, refl, true, false, ◌&&◌, arith, ltb, leb, ◌==◌,
  if◌then◌else◌, Bool-cases, inl, inr,
}
use unix_v7_c.PageMap.{
  npm, Core, pgalloc, pgfree, mapneed, new_list, new_entry, grow, new_root, mapalloc, drop_entry,
  shrink, mapfree,
}

-- The pages that the loops take or give back for entry i.
abbrev pub cost : ℕ → ℕ
cost i = if i % npm == 0 then 2 else 1

-- The pages for n entries from i on.
abbrev pub total : ℕ → ℕ → ℕ
total zero i = 0
total (suc n) i = cost i + total n (i + 1)

lists : ℕ → ℕ
lists n = (n + npm - 1) / npm

total-lists : (n i : ℕ) → total n i + lists i ≡ n + lists (i + n)
unfolding lists
total-lists zero i = ground arith
total-lists (suc n) i = ground (arith, total-lists n (i + 1))

-- `mapneed` is the sum over the entries, with the root page.
mapneed-total :
    (n0 n1 : ℕ) → mapneed n0 n1 ≡ total (n1 - n0) n0 + (if ltb n0 n1 && (n0 == 0) then 1 else 0)
unfolding mapneed lists
mapneed-total n0 n1 = elim (Bool-cases (leb n1 n0)) [
  | inl none_new ↦
      let z : n1 - n0 ≡ 0 = ground arith in
      let t : ltb n0 n1 ≡ false = ground arith in rw (none_new, z, t)
  | inr more ↦
      let t : ltb n0 n1 ≡ true = ground arith in
      let e : n0 + (n1 - n0) ≡ n1 = ground arith in
      rw (more, t) (omega (arith, rw e at (total-lists (n1 - n0) n0)))
]

pgalloc-npgfree : (k : Core) → (pgalloc k).1.npgfree ≡ k.npgfree - 1
unfolding pgalloc
pgalloc-npgfree k = ground arith

pgfree-npgfree : (pg : ℕ) (k : Core) → (pgfree pg k).npgfree ≡ k.npgfree + 1
unfolding pgfree
pgfree-npgfree pg k = ground arith

new_entry-npgfree : (map i : ℕ) (k : Core) → (new_entry map i k).npgfree ≡ k.npgfree - cost i
unfolding new_entry new_list
new_entry-npgfree map i k = ground arith

grow-npgfree : (n map i : ℕ) (k : Core) → (grow n map i k).npgfree ≡ k.npgfree - total n i
unfolding grow
grow-npgfree zero map i k = omega arith
grow-npgfree (suc n) map i k =
    omega (arith, grow-npgfree n map (i + 1) (new_entry map i k), new_entry-npgfree map i k)

drop_entry-npgfree : (map i : ℕ) (k : Core) → (drop_entry map i k).npgfree ≡ k.npgfree + cost i
unfolding drop_entry
drop_entry-npgfree map i k = ground arith

total-last : (n i : ℕ) → total (suc n) i ≡ total n i + cost (i + n)
total-last zero i = ground arith
total-last (suc n) i = ground (arith, total-last n (i + 1))

shrink-npgfree : (n map n0 : ℕ) (k : Core) → (shrink n map n0 k).npgfree ≡ k.npgfree + total n n0
unfolding shrink
shrink-npgfree zero map n0 k = omega arith
shrink-npgfree (suc n) map n0 k = omega (
  arith,
  shrink-npgfree n map n0 (drop_entry map (n0 + n) k),
  drop_entry-npgfree map (n0 + n) k,
  total-last n n0,
)

new_root-npgfree :
    (map n0 n1 : ℕ) (k : Core)
    → (new_root map n0 n1 k).1.npgfree ≡ k.npgfree - (if ltb n0 n1 && (n0 == 0) then 1 else 0)
unfolding new_root
new_root-npgfree map n0 n1 k = ground (arith, pgalloc-npgfree k)

-- `mapalloc` fails only where there are fewer free pages than `mapneed` says, and then changes
-- nothing; otherwise it takes exactly that many.
pub mapalloc-npgfree :
    (map n0 n1 : ℕ) (k : Core)
    → let (done, map', k') = mapalloc map n0 n1 k in
      (done ≡ leb (mapneed n0 n1) k.npgfree)
      × (k'.npgfree ≡ (if done then k.npgfree - mapneed n0 n1 else k.npgfree))
      × (done ≡ false → (map' ≡ map) × (k' ≡ k))
unfolding mapalloc
mapalloc-npgfree map n0 n1 k = elim (Bool-cases (ltb k.npgfree (mapneed n0 n1))) [
  | inl short ↦ rw short (ground arith, refl, λ _. (refl, refl))
  | inr enough ↦
      let (root, k') = new_root map n0 n1 k in
      rw enough (
        ground arith,
        omega (
          arith,
          grow-npgfree (n1 - n0) root n0 k',
          new_root-npgfree map n0 n1 k,
          mapneed-total n0 n1,
        ),
        λ e. cc,
      )
]

-- `mapfree` gives back exactly the pages that `mapneed` counts.
pub mapfree-npgfree :
    (map n0 n1 : ℕ) (k : Core)
    → n0 ≤ n1
    → (mapfree map n0 n1 k).1.npgfree ≡ k.npgfree + mapneed n0 n1
unfolding mapfree
mapfree-npgfree map n0 n1 k h =
    let k' = shrink (n1 - n0) map n0 k in
    let n = shrink-npgfree (n1 - n0) map n0 k in
    ground (arith, n, mapneed-total n0 n1, pgfree-npgfree map k')
