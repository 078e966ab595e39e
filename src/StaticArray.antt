-- ===== src/StaticArray.antt =====
-- static_array.c: the sum, the least element, the reversal in place and the transposition. An int is its value plus 2 ^ 31.
pub mod Least
pub mod Reverse
pub mod Transpose
use textbook_c_ds_deep.Prelude.{
  ℕ, zero, suc, ◌+◌, ◌-◌, ◌*◌, ◌^◌, ◌&&◌, leb, true, false, List, ltb, if◌then◌else◌,
}
use textbook_c_ds_deep.Run.{Run, ok, fault, out_of_fuel, ◌>>=◌}
use textbook_c_ds_deep.Array.{load, swap}

-- The sum of two ints, each as its value plus 2 ^ 31; an overflow is undefined.
abbrev pub int_sum : ℕ → ℕ → Run ℕ
int_sum x y =
    if leb (2 ^ 31) (x + y) && ltb (x + y) (2 ^ 31 + 2 ^ 32) then ok (x + y - 2 ^ 31) else fault

-- `for (i = 0; i < n; i++)`, with `rounds` rounds left
unfoldable pub sum_loop : ℕ → ℕ → ℕ → List ℕ → Run ℕ
sum_loop zero i total arr = ok total
sum_loop (suc rounds) i total arr = do
  x ← load arr i
  added ← int_sum total x
  sum_loop rounds (i + 1) added arr

unfoldable pub sum : List ℕ → ℕ → Run ℕ
unfolding sum_loop
sum arr n = sum_loop n 0 (2 ^ 31) arr

-- `for (i = 1; i < n; i++)`, with `rounds` rounds left
pub min_loop : ℕ → ℕ → ℕ → List ℕ → Run ℕ
min_loop zero i idx arr = ok idx
min_loop (suc rounds) i idx arr =
    let here = min_loop rounds (i + 1) i arr in
    let rest = min_loop rounds (i + 1) idx arr in
    load arr i >>= λ x. load arr idx >>= λ y. if ltb x y then here else rest

unfoldable pub min_index : List ℕ → ℕ → Run ℕ
unfolding min_loop
min_index arr n = min_loop (n - 1) 1 0 arr

module _ {ℓ} {A : Type ℓ} where
  -- `for (lo = 0, hi = n - 1; lo < hi; lo++, hi--)`, with `stop` for `hi + 1`
  pub reverse_loop : ℕ → ℕ → ℕ → List A → Run (List A)
  reverse_loop zero lo stop arr = out_of_fuel
  reverse_loop (suc fuel) lo stop arr =
      let round = swap arr lo (stop - 1) >>= λ b. reverse_loop fuel (lo + 1) (stop - 1) b in
      if ltb (lo + 1) stop then round else ok arr

  -- The ends come closer in every round, so `n + 1` rounds are enough.
  unfoldable pub reverse : List A → ℕ → Run (List A)
  unfolding reverse_loop
  reverse arr n = reverse_loop (n + 1) 0 n arr

  -- The inner loop, with `rounds` columns left. The matrix is its 3 rows of 3 cells, one behind the other.
  unfoldable pub transpose_row : ℕ → ℕ → ℕ → List A → Run (List A)
  transpose_row zero r c mat = ok mat
  transpose_row (suc rounds) r c mat = do
    m ← swap mat (r * 3 + c) (c * 3 + r)
    transpose_row rounds r (c + 1) m

  -- The outer loop, with `rounds` rows left.
  unfoldable pub transpose_loop : ℕ → ℕ → List A → Run (List A)
  unfolding transpose_row
  transpose_loop zero r mat = ok mat
  transpose_loop (suc rounds) r mat = do
    m ← transpose_row (3 - (r + 1)) r (r + 1) mat
    transpose_loop rounds (r + 1) m

  unfoldable pub transpose : List A → Run (List A)
  unfolding transpose_loop
  transpose mat = transpose_loop 3 0 mat
