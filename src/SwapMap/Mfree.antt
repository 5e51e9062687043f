-- ===== src/SwapMap/Mfree.antt =====
-- `mfree` makes the units free, and joins the area with those that it touches.
use unix_v7_c.Base.{
  ℕ, suc, ◌+◌, ◌-◌, ◌≤◌, ◌<◌, ◌≡◌, refl, true, false, not, ◌&&◌, ◌||◌, Option, some, inl, inr, [],
  ◌∷◌, arith, ◌==◌, length, Bool-cases,
}
use unix_v7_c.SwapMap.{Entry, Map, mfree, free_behind, free_here, join, close_gap, passes, cons?}
use unix_v7_c.SwapMap.Invariant.{
  IsMap, within, is_free, areas, is_free-cons, areas-cons, Holds, Holds-cons, Holds-ext, Gives,
  Gives-cons, Gives-ext,
}
use unix_v7_c.SwapMap.Shift.{move_down-Gives, close_gap-eq-move_down, move_up-Gives}

-- None of the n units from a on is free.
abbrev pub NoneFree : ℕ → ℕ → Map → Type 0
NoneFree a n m = (x : ℕ) → within x a n ≡ true → is_free x m ≡ false

-- The call finishes in the array; the units are free after it, and no others than before; there is
-- at most one area more.
abbrev pub Frees : ℕ → ℕ → ℕ → Map → Option Map → Type 0
Frees lo size a m o =
    (n : ℕ) × (n ≤ suc (areas m)) × Gives lo n (length m) (λ x. within x a size || is_free x m) o

module _ (size a : ℕ) (pos : 1 ≤ size) where
  -- The next area begins behind the units, unless it begins just there.
  gap :
      (lo : ℕ) (e : Entry) (r : Map)
      → IsMap lo (e ∷ r)
      → NoneFree a size (e ∷ r)
      → passes a e ≡ false
      → ((a + size == e.m_addr) && not (e.m_size == 0)) ≡ false
      → IsMap (a + size) (e ∷ r)
  gap lo e r (inl v) none t u = inl v
  gap lo e r (inr v) none t u =
      inr (v.0, ground (arith, none e.m_addr, is_free-cons e r v.0 e.m_addr), v.2)

  -- The area joins the next one.
  touch :
      (lo : ℕ) (e : Entry) (r : Map)
      → IsMap lo (e ∷ r)
      → lo < a
      → ((a + size == e.m_addr) && not (e.m_size == 0)) ≡ true
      → Holds lo
          (areas (e ∷ r))
          (length (e ∷ r))
          (λ x. within x a size || is_free x (e ∷ r))
          (record { m_size = e.m_size + size; m_addr = e.m_addr - size } ∷ r)
  touch lo e r (inl v) q joins = absurd (ground arith)
  touch lo e r (inr v) q joins =
      let e' : Entry = record { m_size = e.m_size + size; m_addr = e.m_addr - size } in
      let pos' : 1 ≤ e'.m_size = omega arith in
      let same : e'.m_addr ≡ a = ground arith in
      let end : e.m_addr + e.m_size ≡ e'.m_addr + e'.m_size = ground arith in
      record {
        valid = inr (pos', omega arith, rw end at v.2);
        units = λ x. ground (arith, is_free-cons e' r pos' x, is_free-cons e r v.0 x);
        count = omega (arith, areas-cons e r v.0, areas-cons e' r pos');
        room = refl;
      }

  free_here-Frees :
      (lo : ℕ) (e : Entry) (r : Map)
      → IsMap lo (e ∷ r)
      → lo < a
      → NoneFree a size (e ∷ r)
      → areas (e ∷ r) + 1 < length (e ∷ r)
      → passes a e ≡ false
      → Frees lo size a (e ∷ r) (free_here size a (e ∷ r))
  unfolding free_here
  free_here-Frees lo e r v q none room t =
      elim (Bool-cases ((a + size == e.m_addr) && not (e.m_size == 0))) [
        | inl joins ↦ rw joins (areas (e ∷ r), omega arith, (_, refl, touch lo e r v q joins))
        | inr free ↦
            let nonzero : (size == 0) ≡ false = ground arith in
            rw (free, nonzero)
              (
                suc (areas (e ∷ r)),
                omega arith,
                move_up-Gives lo size a (e ∷ r) pos q (gap lo e r v none t free) room,
              )
      ]

  -- The area joins the one before bp.
  module _ (lo : ℕ) (p e : Entry) (r : Map) (p₁ : 1 ≤ p.m_size) (p₂ : lo < p.m_addr)
      (end : p.m_addr + p.m_size ≡ a) where
    join_one :
        IsMap (a + size) (e ∷ r)
        → Holds lo
            (areas (p ∷ e ∷ r))
            (length (p ∷ e ∷ r))
            (λ x. within x a size || is_free x (p ∷ e ∷ r))
            (record p { m_size = p.m_size + size } ∷ e ∷ r)
    join_one kept =
        let p' : Entry = record p { m_size = p.m_size + size } in
        let grown : p'.m_addr + p'.m_size ≡ a + size = omega arith in
        let pos' : 1 ≤ p'.m_size = omega arith in
        record {
          valid = inr (pos', p₂, rw grown kept);
          units = λ x. ground (arith, is_free-cons p' (e ∷ r) pos' x, is_free-cons p (e ∷ r) p₁ x);
          count = omega (arith, areas-cons p' (e ∷ r) pos', areas-cons p (e ∷ r) p₁);
          room = refl;
        }

    join_both :
        (w : (1 ≤ e.m_size) × (p.m_addr + p.m_size < e.m_addr) × IsMap (e.m_addr + e.m_size) r)
        → a + size ≡ e.m_addr
        → Frees lo size a
            (p ∷ e ∷ r)
            (cons? (record p { m_size = p.m_size + size + e.m_size }) (close_gap (e ∷ r)))
    join_both w both =
        let p' : Entry = record p { m_size = p.m_size + size + e.m_size } in
        let grown : e.m_addr + e.m_size ≡ p'.m_addr + p'.m_size = omega arith in
        let (m, g, h) = move_down-Gives (e.m_addr + e.m_size) e r w.2 in
        let h' = rw grown at h in
        let n = areas-cons e r w.0 in
        rw (close_gap-eq-move_down (e.m_addr + e.m_size) e r w.0 w.2, g)
          (
            suc (areas r),
            omega (arith, n, areas-cons p (e ∷ r) p₁),
            (
              p' ∷ m,
              refl,
              Holds-ext (Holds-cons p' (omega arith) p₂ h') refl refl
                  (λ x. ground (arith, is_free-cons p (e ∷ r) p₁ x, is_free-cons e r w.0 x)),
            ),
          )

  close_gap-end : (e : Entry) (r : Map) → e.m_size ≡ 0 → close_gap (e ∷ r) ≡ some (e ∷ r)
  unfolding close_gap
  close_gap-end e [] z = ground arith
  close_gap-end e (f ∷ r) z = ground arith

  join-Frees :
      (lo : ℕ) (p e : Entry) (r : Map)
      → 1 ≤ p.m_size
      → lo < p.m_addr
      → IsMap (p.m_addr + p.m_size) (e ∷ r)
      → NoneFree a size (e ∷ r)
      → passes a e ≡ false
      → p.m_addr + p.m_size ≡ a
      → Frees lo size a (p ∷ e ∷ r) (join size a p (e ∷ r))
  unfolding join
  join-Frees lo p e r p₁ p₂ (inl v) none t end =
      let merged : p.m_size + size + e.m_size ≡ p.m_size + size = omega arith in
      let done = join_one lo p e r p₁ p₂ end (inl v) in
      rw (close_gap-end e r v.0, merged) (areas (p ∷ e ∷ r), omega arith, (_, ground arith, done))
  join-Frees lo p e r p₁ p₂ (inr v) none t end = elim (Bool-cases (a + size == e.m_addr)) [
    | inl both ↦ rw both (join_both lo p e r p₁ p₂ end v (ground arith))
    | inr one ↦
        let kept = gap (p.m_addr + p.m_size) e r (inr v) none t (ground arith) in
        rw one (areas (p ∷ e ∷ r), omega arith, (_, refl, join_one lo p e r p₁ p₂ end kept))
  ]

  Frees-cons :
      (lo : ℕ) (p : Entry) (m : Map) (o : Option Map)
      → 1 ≤ p.m_size
      → lo < p.m_addr
      → Frees (p.m_addr + p.m_size) size a m o
      → Frees lo size a (p ∷ m) (cons? p o)
  Frees-cons lo p m o p₁ p₂ (n, less, g) = (
    suc n,
    omega (arith, areas-cons p m p₁),
    Gives-ext _ (Gives-cons p o p₁ p₂ g) refl refl (λ x. ground (arith, is_free-cons p m p₁ x)),
  )

  free_behind-Frees :
      (lo : ℕ) (p : Entry) (m : Map)
      → 1 ≤ p.m_size
      → lo < p.m_addr
      → p.m_addr ≤ a
      → IsMap (p.m_addr + p.m_size) m
      → NoneFree a size (p ∷ m)
      → areas (p ∷ m) + 1 < length (p ∷ m)
      → Frees lo size a (p ∷ m) (free_behind size a p m)
  unfolding free_behind
  free_behind-Frees lo p [] p₁ p₂ q v none room = absurd v
  free_behind-Frees lo p (e ∷ r) p₁ p₂ q v none room =
      let n = areas-cons p (e ∷ r) p₁ in
      let above : p.m_addr + p.m_size ≤ a = ground (arith, none a, is_free-cons p (e ∷ r) p₁ a) in
      let none' : NoneFree a size (e ∷ r) =
        λ x w. ground (arith, none x w, is_free-cons p (e ∷ r) p₁ x) in
      elim (Bool-cases (passes a e)) [
        | inl on ↦ rw on (
            Frees-cons lo p (e ∷ r) _ p₁ p₂ (
              pass_on e r v none' (omega arith) on (λ p₁' p₂' q' v'.
                free_behind-Frees (p.m_addr + p.m_size) e r p₁' p₂' q' v' none' (omega arith))))
        | inr stop ↦ elim (Bool-cases (p.m_addr + p.m_size == a)) [
          | inl joins ↦ rw (stop, joins) (join-Frees lo p e r p₁ p₂ v none' stop (ground arith))
          | inr free ↦
              rw (stop, free)
                (Frees-cons lo p (e ∷ r) _ p₁ p₂ (
                  free_here-Frees (p.m_addr + p.m_size) e r v (ground arith) none' (omega arith)
                    stop))
        ]
      ]
    where
      pass_on :
          (e : Entry) (r : Map)
          → IsMap (p.m_addr + p.m_size) (e ∷ r)
          → NoneFree a size (e ∷ r)
          → areas (e ∷ r) + 1 < length (e ∷ r)
          → passes a e ≡ true
          → (1 ≤ e.m_size
              → p.m_addr + p.m_size < e.m_addr
              → e.m_addr ≤ a
              → IsMap (e.m_addr + e.m_size) r
              → Frees (p.m_addr + p.m_size) size a (e ∷ r) (free_behind size a e r))
          → Frees (p.m_addr + p.m_size) size a (e ∷ r) (free_behind size a e r)
      pass_on e r (inl v) none room on k = absurd (ground arith)
      pass_on e r (inr v) none room on k = k v.0 v.1 (ground arith) v.2

  mfree-Frees_above :
      (lo : ℕ) (m : Map)
      → IsMap lo m
      → lo < a
      → NoneFree a size m
      → areas m + 1 < length m
      → Frees lo size a m (mfree size a m)
  unfolding mfree
  mfree-Frees_above lo [] v q none room = absurd v
  mfree-Frees_above lo (e ∷ r) (inl v) q none room =
      let stop : passes a e ≡ false = ground arith in
      rw stop (free_here-Frees lo e r (inl v) q none room stop)
  mfree-Frees_above lo (e ∷ r) (inr v) q none room = elim (Bool-cases (passes a e)) [
    | inl on ↦ rw on (free_behind-Frees lo e r v.0 v.1 (ground arith) v.2 none room)
    | inr stop ↦ rw stop (free_here-Frees lo e r (inr v) q none room stop)
  ]

-- On a valid map, freeing units of which none is free yet finishes inside the array and leaves a
-- valid map, in which they are free and all else is as it was, if the array has one entry to spare
-- behind the one that ends the list. There is at most one area more.
pub mfree-Frees :
    (size a : ℕ) (m : Map)
    → 1 ≤ size
    → 0 < a
    → IsMap 0 m
    → NoneFree a size m
    → areas m + 1 < length m
    → Frees 0 size a m (mfree size a m)
mfree-Frees size a m pos q v none room = mfree-Frees_above size a pos 0 m v q none room
