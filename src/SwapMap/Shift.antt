-- ===== src/SwapMap/Shift.antt =====
-- The loops of `malloc` and `mfree` that move entries keep the other areas as they are.
use unix_v7_c.Base.{
  ℕ, suc, ◌+◌, ◌≤◌, ◌<◌, ◌≡◌, refl, sym, ap, ◌||◌, inl, inr, [], ◌∷◌, arith, length,
}
use unix_v7_c.SwapMap.{Entry, Map, cons?, move_down, close_gap, move_up}
use unix_v7_c.SwapMap.Invariant.{
  IsMap, within, is_free, areas, size-eq_zero, size-ne_zero, is_free-end, is_free-cons, areas-end,
  areas-cons, Holds-end, Holds-cons, Holds-ext, Gives, Gives-cons, Gives-ext,
}

pub move_down-Gives :
    (lo : ℕ) (e : Entry) (r : Map)
    → IsMap lo r
    → Gives lo (areas r) (suc (length r)) (λ x. is_free x r) (move_down (e ∷ r))
unfolding move_down
move_down-Gives lo e [] v = absurd v
move_down-Gives lo e (f ∷ r) (inl v) = (
  f ∷ f ∷ r,
  rw (size-eq_zero f r v.0),
  Holds-ext (Holds-end lo f (f ∷ r) v.0 v) (sym (areas-end f r v.0)) refl
      (λ x. sym (is_free-end f r v.0 x)),
)
move_down-Gives lo e (f ∷ r) (inr v) = rw (size-ne_zero f r v.0) (
    Gives-ext _ (Gives-cons f _ v.0 v.1 (move_down-Gives (f.m_addr + f.m_size) f r v.2))
      (sym (areas-cons f r v.0)) refl (λ x. sym (is_free-cons f r v.0 x)))

-- After an area the loop of `mfree` does what the loop of `malloc` does.
pub close_gap-eq-move_down :
    (lo : ℕ) (e : Entry) (r : Map)
    → 1 ≤ e.m_size
    → IsMap lo r
    → close_gap (e ∷ r) ≡ move_down (e ∷ r)
unfolding close_gap move_down
close_gap-eq-move_down lo e [] p v = absurd v
close_gap-eq-move_down lo e (f ∷ []) p (inl v) = ground arith
close_gap-eq-move_down lo e (f ∷ g ∷ r) p (inl v) = ground arith
close_gap-eq-move_down lo e (f ∷ r) p (inr v) =
    rw (size-ne_zero e r p, size-ne_zero f r v.0)
      (ap (cons? f) (close_gap-eq-move_down (f.m_addr + f.m_size) f r v.0 v.2))

-- The new area goes in front, if the array has an entry to spare.
pub move_up-Gives :
    (lo size a : ℕ) (r : Map)
    → 1 ≤ size
    → lo < a
    → IsMap (a + size) r
    → areas r + 1 < length r
    → Gives lo (suc (areas r)) (length r) (λ x. within x a size || is_free x r) (move_up size a r)
unfolding move_up
move_up-Gives lo size a [] p q v room = absurd v
move_up-Gives lo size a (e ∷ []) p q (inl v) room = absurd (omega (arith, areas-end e [] v.0))
move_up-Gives lo size a (e ∷ f ∷ r) p q (inl v) room = rw (size-eq_zero e r v.0) (
  record { m_size = size; m_addr = a } ∷ f ∷ r,
  refl,
  Holds-ext (Holds-cons _ p q (Holds-end (a + size) f r v.1.0 v.1.1))
      (ap suc (sym (areas-end e (f ∷ r) v.0))) refl
      (λ x. ap (λ b. within x a size || b) (sym (is_free-end e (f ∷ r) v.0 x))),
)
move_up-Gives lo size a (e ∷ r) p q (inr v) room =
    let n = areas-cons e r v.0 in
    rw (size-ne_zero e r v.0) (
      Gives-ext _
        (Gives-cons _ _ p q
          (move_up-Gives (a + size) e.m_size e.m_addr r v.0 v.1 v.2 (omega arith)))
        (ap suc (sym n)) refl (λ x. ap (λ b. within x a size || b) (sym (is_free-cons e r v.0 x))))
