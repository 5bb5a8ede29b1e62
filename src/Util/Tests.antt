-- ===== src/Util/Tests.antt =====
-- Instances of the theorems about src/util, and runs.
use metamorphosis.Prelude.{leb, ◌≡◌, refl, some, arith, leb→le, le→leb}
use metamorphosis.Util.Search.{binary_search, linear_search, IsMonotone}
use metamorphosis.Util.Monotone.{binary_search-linear_search}

leb_5-IsMonotone : IsMonotone (leb 5) 2 9
leb_5-IsMonotone i j a b c t = le→leb 5 j (omega (arith, leb→le 5 i t))

binary_search_5 : binary_search (leb 5) 64 2 9 ≡ some 5
unfolding binary_search
binary_search_5 = refl

binary_search-linear_search_example : binary_search (leb 5) 3 2 9 ≡ some (linear_search (leb 5) 2 7)
binary_search-linear_search_example =
    binary_search-linear_search (leb 5) 3 2 9 (omega arith) (omega arith) leb_5-IsMonotone
