-- ===== src/Tests/Arrays.antt =====
-- static_array.c.
use textbook_c_ds_deep.Prelude.{ℕ, ◌+◌, ◌-◌, ◌^◌, ◌≡◌, refl, List, [], ◌∷◌}
use textbook_c_ds_deep.Run.{ok, fault}
use textbook_c_ds_deep.Array.{load}
use textbook_c_ds_deep.StaticArray.{min_index, sum, sum_loop}
use textbook_c_ds_deep.StaticArray.Least.{first_cell}

abbrev digits : List ℕ
digits = 5 ∷ 3 ∷ 8 ∷ 3 ∷ 9 ∷ []

min_index_finds : min_index digits 5 ≡ ok 1
unfolding min_index load
min_index_finds = refl

-- The ints 7, -9 and 1.
sum_signed : sum ((2 ^ 31 + 7) ∷ (2 ^ 31 - 9) ∷ (2 ^ 31 + 1) ∷ []) 3 ≡ ok (2 ^ 31 - 1)
unfolding sum sum_loop load
sum_signed = refl

-- The largest int and 1.
sum_overflow : sum ((2 ^ 32 - 1) ∷ (2 ^ 31 + 1) ∷ []) 2 ≡ fault
unfolding sum sum_loop load
sum_overflow = refl
