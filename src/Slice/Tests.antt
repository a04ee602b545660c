-- ===== src/Slice/Tests.antt =====
-- Runs of include/rocksutil/slice.h.
use rocksutil.Base.{ℕ, ◌≡◌, ◌↔◌, List, [], ◌∷◌, ◌++◌, true}
use rocksutil.Slice.{compare, lexical, starts_with, compare-lexical, starts_with_iff}

compare-lexical_example :
    compare (1 ∷ 2 ∷ []) (1 ∷ 200 ∷ 3 ∷ []) ≡ lexical (1 ∷ 2 ∷ []) (1 ∷ 200 ∷ 3 ∷ [])
compare-lexical_example = compare-lexical (1 ∷ 2 ∷ []) (1 ∷ 200 ∷ 3 ∷ [])

starts_with_iff_example :
    (starts_with (1 ∷ 2 ∷ 3 ∷ []) (1 ∷ 2 ∷ []) ≡ true)
    ↔ ((rest : List ℕ) × (1 ∷ 2 ∷ 3 ∷ [] ≡ (1 ∷ 2 ∷ []) ++ rest))
starts_with_iff_example = starts_with_iff (1 ∷ 2 ∷ 3 ∷ []) (1 ∷ 2 ∷ [])

abbrev one_two : List ℕ
one_two = 1 ∷ 2 ∷ []

abbrev one_three : List ℕ
one_three = 1 ∷ 3 ∷ []
