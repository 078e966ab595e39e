-- ===== src/StaticArray/Transpose.antt =====
-- The transposition of the 3 by 3 matrix.
use textbook_c_ds_deep.Prelude.{◌≡◌, refl, [], ◌∷◌}
use textbook_c_ds_deep.Run.{ok}
use textbook_c_ds_deep.Array.{load, store, swap}
use textbook_c_ds_deep.StaticArray.{transpose, transpose_row, transpose_loop}

module _ {ℓ} {A : Type ℓ} (a b c d e f g h i : A) where
  -- The columns become the rows, whatever the cells are.
  pub transpose_columns :
      transpose (a ∷ b ∷ c ∷ d ∷ e ∷ f ∷ g ∷ h ∷ i ∷ [])
      ≡ ok (a ∷ d ∷ g ∷ b ∷ e ∷ h ∷ c ∷ f ∷ i ∷ [])
  unfolding transpose transpose_row transpose_loop swap load store
  transpose_columns = refl
