-- ===== src/Search.antt =====
-- search_compare.c: the linear and the binary search of an array of ints; static_array.c has the
-- same binary search. -1 is `none`, and an int of the array is its value plus 2 ^ 31.
pub mod Binary
use textbook_c_ds_deep.Prelude.{
  ℕ, zero, suc, ◌+◌, ◌-◌, ◌/◌, true, false, Option, none, some, List, ltb, ◌==◌, if◌then◌else◌,
}
use textbook_c_ds_deep.Run.{Run, ok, out_of_fuel, ◌>>=◌}
use textbook_c_ds_deep.Array.{load}

-- `for (i = 0; i < n; i++)`, with `rounds` rounds left
pub linear_loop : ℕ → ℕ → List ℕ → ℕ → Run (Option ℕ)
linear_loop zero i arr target = ok none
linear_loop (suc rounds) i arr target =
    let rest = linear_loop rounds (i + 1) arr target in
    load arr i >>= λ x. if x == target then ok (some i) else rest

unfoldable pub linear_search : List ℕ → ℕ → ℕ → Run (Option ℕ)
unfolding linear_loop
linear_search arr n target = linear_loop n 0 arr target

-- `mid`, with `stop` for `hi + 1`
abbrev pub middle : ℕ → ℕ → ℕ
middle lo stop = lo + (stop - 1 - lo) / 2

-- `while (lo <= hi)`, with `stop` for `hi + 1`
pub binary_loop : ℕ → ℕ → ℕ → List ℕ → ℕ → Run (Option ℕ)
binary_loop zero lo stop arr target = out_of_fuel
binary_loop (suc fuel) lo stop arr target =
    let mid = middle lo stop in
    let right = binary_loop fuel (mid + 1) stop arr target in
    let left = binary_loop fuel lo mid arr target in
    let round : Run (Option ℕ) = do
      x ← load arr mid
      if x == target then ok (some mid) else if ltb x target then right else left
    in if ltb lo stop then round else ok none

-- The range shrinks in every round, so `n + 1` rounds are enough.
unfoldable pub binary_search : List ℕ → ℕ → ℕ → Run (Option ℕ)
unfolding binary_loop
binary_search arr n target = binary_loop (n + 1) 0 n arr target
