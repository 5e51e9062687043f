-- ===== src/SwapMap/Invariant.antt =====
-- What holds of a map between two calls, and the set of free units that it stands for.
use unix_v7_c.Base.{
  ℕ, suc, ◌+◌, ◌≤◌, ◌<◌, ◌≡◌, refl, Bool, true, false, ◌&&◌, ◌||◌, ◌⊎◌, inl, inr, [], ◌∷◌, arith,
  ltb, leb, ◌==◌, if◌then◌else◌, length, ◌∙◌, Option, some,
}
use unix_v7_c.SwapMap.{Entry, Map, cons?}

-- Only entries of size 0 follow the end of the list.
abbrev pub IsEnd : Map → Type 0
IsEnd [] = Unit {0}
IsEnd (e ∷ r) = (e.m_size ≡ 0) × IsEnd r

-- The areas lie in order above `lo`, none of them empty, no two of them touching; an entry of size 0
-- ends them.
abbrev pub IsMap : ℕ → Map → Type 0
IsMap lo [] = ⊥
IsMap lo (e ∷ r) =
    ((e.m_size ≡ 0) × IsEnd r) ⊎ ((1 ≤ e.m_size) × (lo < e.m_addr) × IsMap (e.m_addr + e.m_size) r)

-- Is the unit x one of the n units from a on?
abbrev pub within : ℕ → ℕ → ℕ → Bool
within x a n = leb a x && ltb x (a + n)

-- Is the unit x free?
unfoldable pub is_free : ℕ → Map → Bool
is_free x [] = false
is_free x (e ∷ r) =
    let rest = is_free x r in if e.m_size == 0 then false else within x e.m_addr e.m_size || rest

-- the number of areas
unfoldable pub areas : Map → ℕ
areas [] = 0
areas (e ∷ r) = let rest = areas r in if e.m_size == 0 then 0 else suc rest

-- Units at or below `lo` are not free.
pub is_free-of_le : (x lo : ℕ) (m : Map) → IsMap lo m → x ≤ lo → is_free x m ≡ false
unfolding is_free
is_free-of_le x lo [] v h = absurd v
is_free-of_le x lo (e ∷ r) (inl v) h = ground arith
is_free-of_le x lo (e ∷ r) (inr v) h = ground (arith, is_free-of_le x (e.m_addr + e.m_size) r v.2)

pub IsMap-mono : (lo lo' : ℕ) (m : Map) → lo' ≤ lo → IsMap lo m → IsMap lo' m
IsMap-mono lo lo' [] h v = v
IsMap-mono lo lo' (e ∷ r) h (inl v) = inl v
IsMap-mono lo lo' (e ∷ r) h (inr v) = inr (v.0, omega arith, v.2)

module _ (e : Entry) (r : Map) where
  pub size-eq_zero : e.m_size ≡ 0 → (e.m_size == 0) ≡ true
  size-eq_zero h = ground arith

  pub size-ne_zero : 1 ≤ e.m_size → (e.m_size == 0) ≡ false
  size-ne_zero h = ground arith

  pub is_free-end : e.m_size ≡ 0 → (x : ℕ) → is_free x (e ∷ r) ≡ false
  unfolding is_free
  is_free-end h x = rw (size-eq_zero h)

  pub is_free-cons :
      1 ≤ e.m_size → (x : ℕ) → is_free x (e ∷ r) ≡ within x e.m_addr e.m_size || is_free x r
  unfolding is_free
  is_free-cons h x = rw (size-ne_zero h)

  pub areas-end : e.m_size ≡ 0 → areas (e ∷ r) ≡ 0
  unfolding areas
  areas-end h = rw (size-eq_zero h)

  pub areas-cons : 1 ≤ e.m_size → areas (e ∷ r) ≡ suc (areas r)
  unfolding areas
  areas-cons h = rw (size-ne_zero h)

-- A map above `lo` that stands for the free units `free`, with `n` areas, in an array of `size` entries.
pub record Holds (lo n size : ℕ) (free : ℕ → Bool) (m : Map) : Type 0 where
  pub valid : IsMap lo m
  pub units : (x : ℕ) → is_free x m ≡ free x
  pub count : areas m ≡ n
  pub room : length m ≡ size

pub Holds-self :
    (lo : ℕ) (m : Map) → IsMap lo m → Holds lo (areas m) (length m) (λ x. is_free x m) m
Holds-self lo m v = record { valid = v; units = λ x. refl; count = refl; room = refl }

pub Holds-end :
    (lo : ℕ) (e : Entry) (r : Map)
    → e.m_size ≡ 0
    → IsEnd r
    → Holds lo 0 (suc (length r)) (λ x. false) (e ∷ r)
Holds-end lo e r z v = record {
  valid = inl (z, v);
  units = is_free-end e r z;
  count = areas-end e r z;
  room = refl;
}

pub Holds-cons :
    {lo n size : ℕ} {free : ℕ → Bool} {m : Map} (e : Entry)
    → 1 ≤ e.m_size
    → lo < e.m_addr
    → Holds (e.m_addr + e.m_size) n size free m
    → Holds lo (suc n) (suc size) (λ x. within x e.m_addr e.m_size || free x) (e ∷ m)
Holds-cons {m} e p q h = record {
  valid = inr (p, q, h.valid);
  units = λ x. rw (is_free-cons e m p x, h.units x);
  count = rw (areas-cons e m p, h.count);
  room = rw h.room;
}

pub Holds-ext :
    {lo n n' size size' : ℕ} {free free' : ℕ → Bool} {m : Map}
    → Holds lo n size free m
    → n ≡ n'
    → size ≡ size'
    → ((x : ℕ) → free x ≡ free' x)
    → Holds lo n' size' free' m
Holds-ext h p q f = record {
  valid = h.valid;
  units = λ x. h.units x ∙ f x;
  count = h.count ∙ p;
  room = h.room ∙ q;
}

-- The operation finishes within the array, with such a map.
abbrev pub Gives : ℕ → ℕ → ℕ → (ℕ → Bool) → Option Map → Type 0
Gives lo n size free o = (m : Map) × (o ≡ some m) × Holds lo n size free m

pub Gives-cons :
    {lo n size : ℕ} {free : ℕ → Bool} (e : Entry) (o : Option Map)
    → 1 ≤ e.m_size
    → lo < e.m_addr
    → Gives (e.m_addr + e.m_size) n size free o
    → Gives lo (suc n) (suc size) (λ x. within x e.m_addr e.m_size || free x) (cons? e o)
Gives-cons e o p q (m, g, h) = (e ∷ m, rw g, Holds-cons e p q h)

pub Gives-ext :
    {lo n n' size size' : ℕ} {free free' : ℕ → Bool} (o : Option Map)
    → Gives lo n size free o
    → n ≡ n'
    → size ≡ size'
    → ((x : ℕ) → free x ≡ free' x)
    → Gives lo n' size' free' o
Gives-ext o (m, g, h) p q f = (m, g, Holds-ext h p q f)
