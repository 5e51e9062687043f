-- ===== src/SwapMap/Tests.antt =====
-- The allocator on a map of two areas in an array of five entries.
use unix_v7_c.Base.{ℕ, ◌≡◌, refl, some, inl, inr, [], ◌∷◌, arith}
use unix_v7_c.SwapMap.{Entry, Map, malloc, mfree}
use unix_v7_c.SwapMap.Invariant.{IsMap, is_free, areas}
use unix_v7_c.SwapMap.Malloc.{Malloced, malloc_first_fit}
use unix_v7_c.SwapMap.Mfree.{NoneFree, Frees, mfree-Frees}
use unix_v7_c.SwapMap.Canonical.{live, mfree-malloc}

abbrev entry : ℕ → ℕ → Entry
entry n a = record { m_size = n; m_addr = a }

abbrev two_areas : Map
two_areas = entry 4 10 ∷ entry 8 20 ∷ entry 0 0 ∷ entry 0 0 ∷ entry 0 0 ∷ []

two_areas-IsMap : IsMap 0 two_areas
two_areas-IsMap =
    inr (omega arith, omega arith, inr (omega arith, omega arith, inl (refl, omega arith)))

abbrev after_malloc : Map
after_malloc = entry 4 10 ∷ entry 0 0 ∷ entry 0 0 ∷ entry 0 0 ∷ entry 0 0 ∷ []

took : malloc 8 two_areas ≡ some (20, after_malloc)
unfolding malloc
took = refl

joined :
    mfree 6 14 two_areas ≡ some (entry 18 10 ∷ entry 0 0 ∷ entry 0 0 ∷ entry 0 0 ∷ entry 0 0 ∷ [])
unfolding mfree
joined = refl

malloc_first_fit_example : Malloced 0 8 two_areas (malloc 8 two_areas)
malloc_first_fit_example = malloc_first_fit 8 two_areas (omega arith) two_areas-IsMap

none_free : NoneFree 15 2 two_areas
unfolding is_free
none_free x w = ground arith

mfree-Frees_example : Frees 0 2 15 two_areas (mfree 2 15 two_areas)
mfree-Frees_example =
    mfree-Frees 2 15 two_areas (omega arith) (omega arith) two_areas-IsMap none_free
      (unfold areas in omega arith)

mfree-malloc_example :
    (m'' : Map) × (mfree 8 20 after_malloc ≡ some m'') × (live m'' ≡ live two_areas)
mfree-malloc_example =
    mfree-malloc 8 20 two_areas after_malloc (omega arith) two_areas-IsMap
      (unfold areas in omega arith) took (λ e. omega arith)
