-- ===== src/Tests/Searches.antt =====
-- search_compare.c.
use textbook_c_ds_deep.Prelude.{ℕ, ◌≡◌, refl, some, List, [], ◌∷◌, arith}
use textbook_c_ds_deep.Run.{ok, Returns}
use textbook_c_ds_deep.Array.{at, load}
use textbook_c_ds_deep.Search.{linear_search, binary_search}
use textbook_c_ds_deep.Search.Binary.{IsAscending, Locates, zero_cell, binary_search-Locates}

abbrev primes : List ℕ
primes = 2 ∷ 3 ∷ 5 ∷ 7 ∷ []

abbrev mixed : List ℕ
mixed = 7 ∷ 5 ∷ 5 ∷ []

primes-IsAscending : IsAscending 4 primes
unfolding at
primes-IsAscending i j p q = grind arith

binary_search_finds : binary_search primes 4 5 ≡ ok (some 2)
unfolding binary_search load
binary_search_finds = refl

linear_search_finds : linear_search mixed 3 5 ≡ ok (some 1)
unfolding linear_search load
linear_search_finds = refl

binary_search-Locates_example : Returns (Locates primes 4 5) (binary_search primes 4 5)
binary_search-Locates_example = binary_search-Locates primes 4 5 primes-IsAscending (omega arith)
