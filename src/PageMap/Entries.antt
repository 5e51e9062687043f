-- ===== src/PageMap/Entries.antt =====
-- The entries of a page map, and what a write of one does to the others.
use unix_v7_c.Base.{ℕ, ◌/◌, ◌<◌, ◌≡◌, ◌≢◌, refl, sym, ◌∙◌, arith, ◌==◌, if◌then◌else◌}
use unix_v7_c.PageMap.{npm, Memory, entry, set_entry, exchange}

-- The list pages of the first n entries are different pages, and none is the root.
pub record IsTable (n map : ℕ) (m : Memory) : Type 0 where
  pub not_root : (i : ℕ) → i < n → m map (i / npm) ≢ map
  pub distinct : (i j : ℕ) → i < n → j < n → m map (i / npm) ≡ m map (j / npm) → i / npm ≡ j / npm

abbrev pub SameRoot : ℕ → Memory → Memory → Type 0
SameRoot map m m' = (k : ℕ) → m' map k ≡ m map k

pub IsTable-root :
    (n map : ℕ) (m m' : Memory) → SameRoot map m m' → IsTable n map m → IsTable n map m'
IsTable-root n map m m' same t = record {
  not_root = λ i h e. t.not_root i h (sym (same (i / npm)) ∙ e);
  distinct = λ i j h k e. t.distinct i j h k (sym (same (i / npm)) ∙ e ∙ same (j / npm));
}

module _ (n map : ℕ) (m : Memory) (t : IsTable n map m) (i v : ℕ) (h : i < n) where
  pub root-set_entry : SameRoot map m (set_entry m map i v)
  unfolding set_entry
  root-set_entry k = ground (arith, t.not_root i h)

  pub entry-set_entry :
      (j : ℕ) → j < n → entry (set_entry m map i v) map j ≡ (if i == j then v else entry m map j)
  unfolding entry set_entry
  entry-set_entry j hj = rw (root-set_entry (j / npm)) (ground (arith, t.distinct i j h hj))

exchange-set_entry :
    (map a c : ℕ) (m : Memory)
    → exchange map a c m ≡ set_entry (set_entry m map a (entry m map c)) map c (entry m map a)
unfolding exchange
exchange-set_entry map a c m = refl

module _ (n map : ℕ) (m : Memory) (t : IsTable n map m) (a c : ℕ) (ha : a < n) (hc : c < n) where
  table' : IsTable n map (set_entry m map a (entry m map c))
  table' = IsTable-root n map m _ (root-set_entry n map m t a (entry m map c) ha) t

  pub root-exchange : SameRoot map m (exchange map a c m)
  root-exchange k = rw exchange-set_entry (
      root-set_entry n map (set_entry m map a (entry m map c)) table' c (entry m map a) hc k
      ∙ root-set_entry n map m t a (entry m map c) ha k)

  pub entry-exchange :
      (j : ℕ)
      → j < n
      → entry (exchange map a c m) map j
        ≡ (if c == j then entry m map a else if a == j then entry m map c else entry m map j)
  entry-exchange j hj = rw (
    exchange-set_entry,
    entry-set_entry n map (set_entry m map a (entry m map c)) table' c (entry m map a) hc j hj,
    entry-set_entry n map m t a (entry m map c) ha j hj,
  )
