-- ===== src/SwapMap/Canonical.antt =====
-- A set of free units has one list of areas, so `mfree` undoes `malloc`.
use unix_v7_c.Base.{
  ℕ, ◌+◌, ◌≤◌, ◌<◌, ◌≡◌, ◌≢◌, sym, ◌∙◌, false, ◌||◌, Option, some, inl, inr, List, [], ◌∷◌, arith,
  ◌==◌, if◌then◌else◌, length,
}
use unix_v7_c.SwapMap.{Entry, Map, malloc, mfree}
use unix_v7_c.SwapMap.Invariant.{
  IsMap, within, is_free, is_free-of_le, areas, size-eq_zero, size-ne_zero, is_free-end,
  is_free-cons,
}
use unix_v7_c.SwapMap.Malloc.{Malloced, Takes, takes, no_space, malloc_first_fit}
use unix_v7_c.SwapMap.Mfree.{mfree-Frees}

-- the entries of the areas, without the array behind them
unfoldable pub live : Map → List Entry
live [] = []
live (e ∷ r) = let rest = live r in if e.m_size == 0 then [] else e ∷ rest

live-end : (e : Entry) (r : Map) → e.m_size ≡ 0 → live (e ∷ r) ≡ []
unfolding live
live-end e r z = rw (size-eq_zero e r z)

live-cons : (e : Entry) (r : Map) → 1 ≤ e.m_size → live (e ∷ r) ≡ e ∷ live r
unfolding live
live-cons e r p = rw (size-ne_zero e r p)

module _ (lo : ℕ) (e f : Entry) (r s : Map) (p : 1 ≤ e.m_size) (q : 1 ≤ f.m_size)
    (v : IsMap (e.m_addr + e.m_size) r) (w : IsMap (f.m_addr + f.m_size) s)
    (same : (x : ℕ) → is_free x (e ∷ r) ≡ is_free x (f ∷ s)) where
  at :
      (x : ℕ)
      → (within x e.m_addr e.m_size || is_free x r) ≡ (within x f.m_addr f.m_size || is_free x s)
  at x = sym (is_free-cons e r p x) ∙ same x ∙ is_free-cons f s q x

  outside_e : (x : ℕ) → x ≤ e.m_addr + e.m_size → is_free x r ≡ false
  outside_e x = is_free-of_le x (e.m_addr + e.m_size) r v

  outside_f : (x : ℕ) → x ≤ f.m_addr + f.m_size → is_free x s ≡ false
  outside_f x = is_free-of_le x (f.m_addr + f.m_size) s w

  addr_same : e.m_addr ≡ f.m_addr
  addr_same = ground (arith, at e.m_addr, at f.m_addr, outside_e f.m_addr, outside_f e.m_addr)

  size_same : e.m_size ≡ f.m_size
  size_same =
      let x = e.m_addr + e.m_size in
      let y = f.m_addr + f.m_size in
      ground (arith, addr_same, at x, at y, outside_e x, outside_f y, outside_e y, outside_f x)

  rest_same : (x : ℕ) → is_free x r ≡ is_free x s
  rest_same x = ground (arith, addr_same, size_same, at x, outside_e x, outside_f x)

live_unique :
    (lo lo' : ℕ) (m m' : Map)
    → IsMap lo m
    → IsMap lo' m'
    → ((x : ℕ) → is_free x m ≡ is_free x m')
    → live m ≡ live m'
live_unique lo lo' [] m' v w same = absurd v
live_unique lo lo' (e ∷ r) [] v w same = absurd w
live_unique lo lo' (e ∷ r) (f ∷ s) (inl v) (inl w) same = live-end e r v.0 ∙ sym (live-end f s w.0)
live_unique lo lo' (e ∷ r) (f ∷ s) (inl v) (inr w) same =
    absurd
      (ground (arith, same f.m_addr, is_free-end e r v.0 f.m_addr, is_free-cons f s w.0 f.m_addr))
live_unique lo lo' (e ∷ r) (f ∷ s) (inr v) (inl w) same =
    absurd
      (ground (arith, same e.m_addr, is_free-end f s w.0 e.m_addr, is_free-cons e r v.0 e.m_addr))
live_unique lo lo' (e ∷ r) (f ∷ s) (inr v) (inr w) same =
    let a = addr_same lo e f r s v.0 w.0 v.2 w.2 same in
    let n = size_same lo e f r s v.0 w.0 v.2 w.2 same in
    let ih =
      live_unique (e.m_addr + e.m_size) (f.m_addr + f.m_size) r s v.2 w.2
        (rest_same lo e f r s v.0 w.0 v.2 w.2 same) in
    rw (live-cons e r v.0, live-cons f s w.0) (ground (arith, a, n, ih))

-- In a valid map with a spare entry, besides the closing one, freeing the one or more units that
-- `malloc` has just returned finishes inside the array and leaves the list of areas as it was
-- before the two calls.
pub mfree-malloc :
    (size a : ℕ) (m m' : Map)
    → 1 ≤ size
    → IsMap 0 m
    → areas m + 1 < length m
    → malloc size m ≡ some (a, m')
    → a ≢ 0
    → (m'' : Map) × (mfree size a m' ≡ some m'') × (live m'' ≡ live m)
mfree-malloc size a m m' pos v room e ne = go (malloc size m) (malloc_first_fit size m pos v) e
  where
    freed : Takes 0 size m a m' → (m'' : Map) × (mfree size a m' ≡ some m'') × (live m'' ≡ live m)
    freed t =
        let (n, less, (m'', g, h)) =
          mfree-Frees size a m' pos t.above t.valid (λ x w. ground (arith, t.units x))
            (omega (arith, t.count, t.room)) in
        (
          m'',
          g,
          live_unique 0 0 m'' m h.valid v (λ x. ground (arith, h.units x, t.units x, t.was_free x)),
        )

    go :
        (o : Option (ℕ × Map))
        → Malloced 0 size m o
        → o ≡ some (a, m')
        → (m'' : Map) × (mfree size a m' ≡ some m'') × (live m'' ≡ live m)
    go _ (no_space _) q = absurd (ne (ground arith))
    go _ (takes b n t) q =
        let b_is : b ≡ a = cc in let n_is : n ≡ m' = cc in freed (rw (b_is, n_is) at t)
