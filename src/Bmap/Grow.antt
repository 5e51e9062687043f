-- ===== src/Bmap/Grow.antt =====
-- A new block at the end of a route, and nothing else in the tree changes.
use unix_v7_c.Base.{
  ℕ, zero, suc, ◌<◌, ◌≡◌, ◌≢◌, refl, ap, sym, ◌∙◌, false, inl, inr, List, [], ◌∷◌, arith, ◌==◌,
  if◌then◌else◌, length, get_or, set, replicate, has, Bool-cases, get_or-set_self, get_or-set_ne,
}
use unix_v7_c.Bmap.{naddr, nindir}
use unix_v7_c.Bmap.Node.{node, Route, Good, same_or_not, node-child}
use unix_v7_c.Bmap.Node.{new_child}
use unix_v7_c.Bmap.Node.{same_child}

zeros_read : (n k : ℕ) → ◌≡◌ {A = ℕ} (get_or (replicate n 0) k 0) 0
zeros_read zero k = refl
zeros_read (suc n) zero = refl
zeros_read (suc n) (suc k) = zeros_read n k

-- The block b, cleared, in the disk.
abbrev pub fresh : (ℕ → List ℕ) → ℕ → ℕ → List ℕ
fresh blocks b c = if b == c then replicate nindir 0 else blocks c

abbrev pub enter : (ℕ → List ℕ) → ℕ → ℕ → ℕ → ℕ → List ℕ
enter blocks a i b c = if a == c then set (blocks a) i b else fresh blocks b c

-- The tree after as before, but for b at the end of p.
pub record Grown (p : List ℕ) (b : ℕ) (addr : List ℕ) (blocks : ℕ → List ℕ) (addr' : List ℕ)
    (blocks' : ℕ → List ℕ) : Type 0 where
  pub here : node addr' blocks' p ≡ b
  pub others : (q : List ℕ) → Route q → q ≢ p → node addr' blocks' q ≡ node addr blocks q

module _ (addr : List ℕ) (blocks : ℕ → List ℕ) (b : ℕ) (new : b ≢ 0)
    (unused : (q : List ℕ) → Route q → node addr blocks q ≢ b) where
  fresh_same : (k c : ℕ) → c ≢ b → get_or (fresh blocks b c) k 0 ≡ get_or (blocks c) k 0
  fresh_same k c ne = ground (arith, ne)

  -- The inode's address i was 0.
  module _ (i : ℕ) (was : get_or addr i 0 ≡ 0) where
    root_here : i < length addr → node (set addr i b) (fresh blocks b) (i ∷ []) ≡ b
    root_here h = get_or-set_self addr i b 0 h

    root_others :
        i < length addr
        → (q : List ℕ) → Route q
        → q ≢ i ∷ []
        → node (set addr i b) (fresh blocks b) q ≡ node addr blocks q
    root_others h [] r ne = refl
    root_others h (k ∷ []) r ne = get_or-set_ne addr i k b 0 (λ e. ne (ap (λ x. x ∷ []) (sym e)))
    root_others h (k ∷ (j ∷ q)) r ne = elim (same_or_not (j ∷ q) (i ∷ [])) [
      | inl e ↦
          let now = ap (node (set addr i b) (fresh blocks b)) e ∙ root_here h in
          let blank : get_or (fresh blocks b b) k 0 ≡ 0 = ground (arith, zeros_read nindir k) in
          new_child addr blocks (set addr i b) (fresh blocks b) k j q b new now blank
            (ap (node addr blocks) e ∙ was)
      | inr other ↦
          same_child addr blocks (set addr i b) (fresh blocks b) k j q
            (root_others h (j ∷ q) r.0 other)
            λ z. fresh_same k (node addr blocks (j ∷ q)) (unused (j ∷ q) r.0)
    ]

    pub root-Grown : i < length addr → Grown (i ∷ []) b addr blocks (set addr i b) (fresh blocks b)
    root-Grown h = record { here = root_here h; others = root_others h }

  -- The entry i of the indirect block at the end of p was 0.
  module _ (i j : ℕ) (p : List ℕ) (a : ℕ) (at : node addr blocks (j ∷ p) ≡ a) (an : a ≢ 0)
      (was : get_or (blocks a) i 0 ≡ 0) (inside : i < length (blocks a))
      (only : (q : List ℕ) → Route q → node addr blocks q ≡ a → q ≡ j ∷ p)
      (above : Route (j ∷ p)) where
    hole : node addr blocks (i ∷ (j ∷ p)) ≡ 0
    hole = node-child addr blocks i (j ∷ p) a at an ∙ was

    apart : (b == a) ≡ false
    apart = ground (arith, unused (j ∷ p) above, at)

    agree :
        (k m : ℕ) (q : List ℕ)
        → Route (m ∷ q)
        → (k ∷ (m ∷ q)) ≢ (i ∷ (j ∷ p))
        → get_or (enter blocks a i b (node addr blocks (m ∷ q))) k 0
          ≡ get_or (blocks (node addr blocks (m ∷ q))) k 0
    agree k m q r ne = elim (Bool-cases (a == node addr blocks (m ∷ q))) [
      | inl e ↦
          let e' : node addr blocks (m ∷ q) ≡ a = ground (arith, e) in
          let same : m ∷ q ≡ j ∷ p = only (m ∷ q) r e' in
          let k' : i ≢ k = λ f. ne (ap (λ x. x ∷ (m ∷ q)) (sym f) ∙ ap (λ x. i ∷ x) same) in
          rw (e, e') (get_or-set_ne (blocks a) i k b 0 k')
      | inr e ↦ rw e (fresh_same k (node addr blocks (m ∷ q)) (unused (m ∷ q) r))
    ]

    table_short :
        (q : List ℕ)
        → Route q
        → length q < suc (suc (length p))
        → node addr (enter blocks a i b) q ≡ node addr blocks q
    table_short [] r h = refl
    table_short (k ∷ []) r h = refl
    table_short (k ∷ (m ∷ q)) r h =
        same_child addr blocks addr (enter blocks a i b) k m q
          (table_short (m ∷ q) r.0 (omega (arith, h)))
          (λ z. agree k m q r.0 (λ e. absurd (omega (arith, h, ap length e))))

    table_here : node addr (enter blocks a i b) (i ∷ (j ∷ p)) ≡ b
    table_here =
        node-child addr (enter blocks a i b) i (j ∷ p) a
          (table_short (j ∷ p) above (omega arith) ∙ at) an
        ∙ own
      where
        own : get_or (enter blocks a i b a) i 0 ≡ b
        own = ground (arith, get_or-set_self (blocks a) i b 0 inside)

    table_others :
        (q : List ℕ)
        → Route q
        → q ≢ i ∷ (j ∷ p)
        → node addr (enter blocks a i b) q ≡ node addr blocks q
    table_others [] r ne = refl
    table_others (k ∷ []) r ne = refl
    table_others (k ∷ (m ∷ q)) r ne = elim (same_or_not (m ∷ q) (i ∷ (j ∷ p))) [
      | inl e ↦
          let off : (a == b) ≡ false = ground (arith, apart) in
          let blank : get_or (enter blocks a i b b) k 0 ≡ 0 =
            rw off (ground (arith, zeros_read nindir k)) in
          new_child addr blocks addr (enter blocks a i b) k m q b new
            (ap (node addr (enter blocks a i b)) e ∙ table_here) blank
            (ap (node addr blocks) e ∙ hole)
      | inr other ↦
          same_child addr blocks addr (enter blocks a i b) k m q (table_others (m ∷ q) r.0 other)
            (λ z. agree k m q r.0 ne)
    ]

    pub table_Grown : Grown (i ∷ (j ∷ p)) b addr blocks addr (enter blocks a i b)
    table_Grown = record { here = table_here; others = table_others }

-- A tree that is good stays good, with one free block fewer.
module _ (addr : List ℕ) (blocks : ℕ → List ℕ) (addr' : List ℕ) (blocks' : ℕ → List ℕ) (b : ℕ)
    (p l : List ℕ) (good : Good addr blocks (b ∷ l)) (route : Route p)
    (grown : Grown p b addr blocks addr' blocks') where
  pub unused_block : (q : List ℕ) → Route q → node addr blocks q ≢ b
  unused_block q r e = ground (arith, good.not_free q r)

  once_more :
      (q s : List ℕ)
      → Route q
      → Route s
      → node addr' blocks' q ≢ 0
      → node addr' blocks' q ≡ node addr' blocks' s
      → q ≡ s
  once_more q s rq rs nz e = elim (same_or_not q p) [
    | inl qp ↦ elim (same_or_not s p) [
      | inl sp ↦ qp ∙ sym sp
      | inr sp ↦ absurd (
          unused_block s rs
            (sym (grown.others s rs sp) ∙ (sym e ∙ (ap (node addr' blocks') qp ∙ grown.here))))
    ]
    | inr qp ↦
        let old = grown.others q rq qp in
        elim (same_or_not s p) [
          | inl sp ↦
              absurd (unused_block q rq (sym old ∙ (e ∙ (ap (node addr' blocks') sp ∙ grown.here))))
          | inr sp ↦ good.once q s rq rs (λ z. nz (old ∙ z)) (sym old ∙ (e ∙ grown.others s rs sp))
        ]
  ]

  still_not_free : (q : List ℕ) → Route q → has (node addr' blocks' q) l ≡ false
  still_not_free q r = elim (same_or_not q p) [
    | inl e ↦ rw (ap (node addr' blocks') e ∙ grown.here) (good.distinct.0)
    | inr e ↦ rw (grown.others q r e) (ground (arith, good.not_free q r))
  ]

  pub Grown-Good :
      length addr' ≡ naddr → ((c : ℕ) → length (blocks' c) ≡ nindir) → Good addr' blocks' l
  Grown-Good addresses tables = record {
    addresses = addresses;
    tables = tables;
    once = once_more;
    not_free = still_not_free;
    nonzero = ground (arith, good.nonzero);
    distinct = good.distinct.1;
  }
