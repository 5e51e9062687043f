-- ===== src/SwapMap/Malloc.antt =====
-- `malloc` is first fit: it takes the lowest area of the size asked for, and fails only where none is.
use unix_v7_c.Base.{
  ℕ, ◌+◌, ◌-◌, ◌≤◌, ◌<◌, ◌≡◌, refl, true, false, not, ◌&&◌, ◌||◌, Option, some, inl, inr, [], ◌∷◌,
  arith, leb, ◌==◌, length, Bool-cases,
}
use unix_v7_c.SwapMap.{Entry, Map, malloc, with_addr, behind, move_down}
use unix_v7_c.SwapMap.Invariant.{
  IsMap, IsMap-mono, within, is_free, is_free-of_le, areas, size-eq_zero, size-ne_zero, is_free-end,
  is_free-cons, areas-cons,
}
use unix_v7_c.SwapMap.Shift.{move_down-Gives}

-- All n units from b on are free.
abbrev pub AllFree : ℕ → ℕ → Map → Type 0
AllFree b n m = (x : ℕ) → within x b n ≡ true → is_free x m ≡ true

-- What a successful call has done: a is the lowest place, and m' has its units no more.
pub record Takes (lo size : ℕ) (m : Map) (a : ℕ) (m' : Map) : Type 0 where
  pub above : lo < a
  pub was_free : AllFree a size m
  pub lowest : (b : ℕ) → AllFree b size m → a ≤ b
  pub valid : IsMap lo m'
  pub units : (x : ℕ) → is_free x m' ≡ (is_free x m && not (within x a size))
  pub count : areas m' ≤ areas m
  pub room : length m' ≡ length m

pub data Malloced (lo size : ℕ) (m : Map) : Option (ℕ × Map) → Type 0 where
  takes : (a : ℕ) (m' : Map) → Takes lo size m a m' → Malloced lo size m (some (a, m'))
  no_space : ((b : ℕ) → ¬ AllFree b size m) → Malloced lo size m (some (0, m))

module _ (lo size : ℕ) (e : Entry) (r : Map) (pos : 1 ≤ size) (p : 1 ≤ e.m_size) (q : lo < e.m_addr)
    (v : IsMap (e.m_addr + e.m_size) r) where
  units_of : (x : ℕ) → is_free x (e ∷ r) ≡ (within x e.m_addr e.m_size || is_free x r)
  units_of = is_free-cons e r p

  -- No unit up to the end of the first area is free further on.
  apart : (x : ℕ) → x ≤ e.m_addr + e.m_size → is_free x r ≡ false
  apart x = is_free-of_le x (e.m_addr + e.m_size) r v

  -- A place cannot begin before the first area.
  first_le : (b : ℕ) → AllFree b size (e ∷ r) → e.m_addr ≤ b
  first_le b h = ground (arith, h b, units_of b, apart b)

  -- A place that is too large for the first area lies behind it.
  AllFree-tail : (b : ℕ) → e.m_size < size → AllFree b size (e ∷ r) → AllFree b size r
  AllFree-tail b big h x w =
      let end = e.m_addr + e.m_size in
      ground (arith, h x, units_of x, h b, units_of b, apart b, h end, units_of end, apart end)

  AllFree-head : size ≤ e.m_size → AllFree e.m_addr size (e ∷ r)
  AllFree-head fits x w = ground (arith, units_of x)

  -- The whole area goes.
  take_all :
      size ≡ e.m_size
      → (e' : Entry) → Malloced lo size (e ∷ r) (with_addr e.m_addr (move_down (e' ∷ r)))
  take_all same e' =
      let (m, g, h) = move_down-Gives (e.m_addr + e.m_size) e' r v in
      rw g (
        takes e.m_addr m (record {
          above = q;
          was_free = AllFree-head (omega arith);
          lowest = first_le;
          valid = IsMap-mono _ lo m (omega arith) h.valid;
          units = λ x. ground (arith, h.units x, units_of x, apart x);
          count = omega (arith, h.count, areas-cons e r p);
          room = h.room;
        }))

  -- The front of the area goes.
  take_front :
      size < e.m_size
      → Takes lo size
          (e ∷ r)
          e.m_addr
          (record { m_size = e.m_size - size; m_addr = e.m_addr + size } ∷ r)
  take_front less =
      let e' : Entry = record { m_size = e.m_size - size; m_addr = e.m_addr + size } in
      let end : e.m_addr + e.m_size ≡ e'.m_addr + e'.m_size = omega arith in
      let pos' : 1 ≤ e'.m_size = omega arith in
      record {
        above = q;
        was_free = AllFree-head (omega arith);
        lowest = first_le;
        valid = inr (pos', omega arith, rw end at v);
        units = λ x. ground (arith, is_free-cons e' r pos' x, units_of x, apart x);
        count = omega (arith, areas-cons e r p, areas-cons e' r pos');
        room = refl;
      }

  -- The area is too small, and the rest of the map is searched.
  take_later :
      e.m_size < size
      → (o : Option (ℕ × Map)) → Malloced (e.m_addr + e.m_size) size r o
      → Malloced lo size (e ∷ r) (behind e o)
  take_later big _ (no_space h) = no_space (λ b f. h b (AllFree-tail b big f))
  take_later big _ (takes a m t) = takes a (e ∷ m) (record {
    above = omega (arith, t.above);
    was_free = λ x w. ground (arith, t.was_free x w, units_of x);
    lowest = λ b f. t.lowest b (AllFree-tail b big f);
    valid = inr (p, q, t.valid);
    units = λ x. ground (arith, is_free-cons e m p x, units_of x, t.units x, t.above);
    count = omega (arith, t.count, areas-cons e r p, areas-cons e m p);
    room = rw t.room;
  })

malloc-Malloced :
    (lo size : ℕ) (m : Map) → 1 ≤ size → IsMap lo m → Malloced lo size m (malloc size m)
unfolding malloc
malloc-Malloced lo size [] pos v = absurd v
malloc-Malloced lo size (e ∷ r) pos (inl v) =
    rw (size-eq_zero e r v.0) (no_space (λ b f. ground (arith, f b, is_free-end e r v.0 b)))
malloc-Malloced lo size (e ∷ r) pos (inr v) =
    let (p, q, v') = v in
    rw (size-ne_zero e r p) (elim (Bool-cases (leb size e.m_size)) [
      | inl fits ↦ elim (Bool-cases (e.m_size - size == 0)) [
        | inl all ↦
            rw (fits, all)
              (take_all lo size e r pos p q v' (ground arith)
                (record { m_size = e.m_size - size; m_addr = e.m_addr + size }))
        | inr some_left ↦
            rw (fits, some_left) (takes _ _ (take_front lo size e r pos p q v' (ground arith)))
      ]
      | inr big ↦ rw big (
          take_later lo size e r pos p q v' (ground arith) _
            (malloc-Malloced (e.m_addr + e.m_size) size r pos v'))
    ])

-- On a valid map with no area at 0, `malloc` of at least one unit always finishes inside the array.
-- If some place has enough free units it returns the lowest one, an address other than 0, and the
-- map is again valid, without the units taken and with no other change, in the same array and with
-- no more areas than before. Otherwise it returns 0 and the map unchanged.
pub malloc_first_fit :
    (size : ℕ) (m : Map) → 1 ≤ size → IsMap 0 m → Malloced 0 size m (malloc size m)
malloc_first_fit size m = malloc-Malloced 0 size m
