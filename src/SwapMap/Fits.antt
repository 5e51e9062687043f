-- ===== src/SwapMap/Fits.antt =====
-- `swapfits` answers whether `malloc` would find swap space for an image.
use unix_v7_c.Base.{
  ℕ, ◌+◌, ◌-◌, ◌≡◌, refl, Bool, true, not, Option, some, none, inl, inr, [], ◌∷◌, arith, leb, ◌==◌,
  Bool-cases,
}
use unix_v7_c.SwapMap.{Entry, Map, malloc, swapfits, ptod, behind}
use unix_v7_c.SwapMap.Invariant.{IsMap, size-eq_zero, size-ne_zero}
use unix_v7_c.SwapMap.Shift.{move_down-Gives}

-- Did the call return an address other than 0?
abbrev pub got_space : Option (ℕ × Map) → Option Bool
got_space none = none
got_space (some (a, m)) = some (not (a == 0))

got_space-behind : (e : Entry) (o : Option (ℕ × Map)) → got_space (behind e o) ≡ got_space o
got_space-behind e none = refl
got_space-behind e (some (a, m)) = refl

swapfits-got_space :
    (lo n : ℕ) (m : Map) → IsMap lo m → swapfits n m ≡ got_space (malloc (ptod n) m)
unfolding swapfits malloc
swapfits-got_space lo n [] v = absurd v
swapfits-got_space lo n (e ∷ r) (inl v) = rw (size-eq_zero e r v.0)
swapfits-got_space lo n (e ∷ r) (inr v) =
    let nonzero : not (e.m_addr == 0) ≡ true = ground arith in
    rw (size-ne_zero e r v.0) (elim (Bool-cases (leb (ptod n) e.m_size)) [
      | inl fits ↦ elim (Bool-cases (e.m_size - ptod n == 0)) [
        | inl all ↦
            let (m, g, h) =
              move_down-Gives (e.m_addr + e.m_size)
                (record { m_size = e.m_size - ptod n; m_addr = e.m_addr + ptod n }) r v.2 in
            rw (fits, all, g, nonzero)
        | inr part ↦ rw (fits, part, nonzero)
      ]
      | inr big ↦
          rw (big, got_space-behind e (malloc (ptod n) r))
            (swapfits-got_space (e.m_addr + e.m_size) n r v.2)
    ])

-- On a valid map, `swapfits` says yes exactly when `malloc` of that many pages, in blocks, would
-- return an address other than 0.
pub swapfits-malloc : (n : ℕ) (m : Map) → IsMap 0 m → swapfits n m ≡ got_space (malloc (ptod n) m)
swapfits-malloc n m v = swapfits-got_space 0 n m v
