-- ===== src/SimpleSorts.antt =====
-- simple_sorts.c: bubble, selection and insertion sort, with their counters. An int is its value plus
-- 2 ^ 31; the counters are `long long`, which no run of these sorts fills.
pub mod Ordered
pub mod Selection
pub mod Bubble
pub mod Insertion
pub mod All
use textbook_c_ds_deep.Prelude.{
  ℕ, zero, suc, ◌+◌, ◌-◌, Bool, true, false, List, ltb, ◌==◌, if◌then◌else◌,
}
use textbook_c_ds_deep.Run.{Run, ok, ◌>>=◌}
use textbook_c_ds_deep.Array.{load, store}

pub record SortStats : Type 0 where
  pub comparisons : ℕ
  pub writes : ℕ

-- `g_stats` after `cmp_and_count`
abbrev pub compared : SortStats → SortStats
compared s = record s { comparisons = s.comparisons + 1 }

-- `write_and_count`
unfoldable pub write_and_count : List ℕ → SortStats → ℕ → ℕ → Run (List ℕ × SortStats)
write_and_count arr s i val = do a ← store arr i val; ok (a, record s { writes = s.writes + 1 })

-- The exchange of two cells through `tmp`.
unfoldable pub exchange : List ℕ → SortStats → ℕ → ℕ → Run (List ℕ × SortStats)
unfolding write_and_count
exchange arr s i j = do
  tmp ← load arr i
  y ← load arr j
  (a, s') ← write_and_count arr s i y
  write_and_count a s' j tmp

-- The inner loop of `bubble_sort_stat`, with `rounds` rounds left: `swapped`, the array, the counters.
unfoldable pub bubble_pass : ℕ → ℕ → Bool → List ℕ → SortStats → Run (Bool × List ℕ × SortStats)
bubble_pass zero j swapped arr s = ok (swapped, arr, s)
bubble_pass (suc rounds) j swapped arr s =
    let moved : Run (Bool × List ℕ × SortStats) = do
      (a, s') ← exchange arr (compared s) j (j + 1)
      bubble_pass rounds (j + 1) true a s'
    in let kept = bubble_pass rounds (j + 1) swapped arr (compared s) in
      load arr j >>= λ x. load arr (j + 1) >>= λ y. if ltb y x then moved else kept

-- The outer loop.
unfoldable pub bubble_loop : ℕ → ℕ → ℕ → List ℕ → SortStats → Run (List ℕ × SortStats)
unfolding bubble_pass
bubble_loop zero i n arr s = ok (arr, s)
bubble_loop (suc rounds) i n arr s = do
  (swapped, a, s') ← bubble_pass (n - 1 - i) 0 false arr s
  let rest = bubble_loop rounds (i + 1) n a s'
  if swapped then rest else ok (a, s')

unfoldable pub bubble_sort_stat : List ℕ → ℕ → SortStats → Run (List ℕ × SortStats)
unfolding bubble_loop
bubble_sort_stat arr n s = bubble_loop (n - 1) 0 n arr s

-- The inner loop of `selection_sort_stat`: `min_idx` and the counters.
unfoldable pub select_loop : ℕ → ℕ → ℕ → List ℕ → SortStats → Run (ℕ × SortStats)
select_loop zero j min_idx arr s = ok (min_idx, s)
select_loop (suc rounds) j min_idx arr s =
    let here = select_loop rounds (j + 1) j arr (compared s) in
    let rest = select_loop rounds (j + 1) min_idx arr (compared s) in
    load arr j >>= λ x. load arr min_idx >>= λ y. if ltb x y then here else rest

-- The outer loop.
unfoldable pub selection_loop : ℕ → ℕ → ℕ → List ℕ → SortStats → Run (List ℕ × SortStats)
unfolding select_loop exchange
selection_loop zero i n arr s = ok (arr, s)
selection_loop (suc rounds) i n arr s = do
  (min_idx, s') ← select_loop (n - (i + 1)) (i + 1) i arr s
  (a, s'') ← if min_idx == i then ok (arr, s') else exchange arr s' i min_idx
  selection_loop rounds (i + 1) n a s''

unfoldable pub selection_sort_stat : List ℕ → ℕ → SortStats → Run (List ℕ × SortStats)
unfolding selection_loop
selection_sort_stat arr n s = selection_loop (n - 1) 0 n arr s

-- `while (j >= 0 && cmp_and_count(arr[j], key))`, with `j + 1` as the first argument; then
-- `write_and_count(&arr[j+1], key)`.
unfoldable pub shift_loop : ℕ → ℕ → List ℕ → SortStats → Run (List ℕ × SortStats)
unfolding write_and_count
shift_loop zero key arr s = write_and_count arr s 0 key
shift_loop (suc j) key arr s = do
  x ← load arr j
  let shifted : Run (List ℕ × SortStats) = do
    (a, s') ← write_and_count arr (compared s) (suc j) x
    shift_loop j key a s'
  let placed = write_and_count arr (compared s) (suc j) key
  if ltb key x then shifted else placed

-- The outer loop.
unfoldable pub insertion_loop : ℕ → ℕ → List ℕ → SortStats → Run (List ℕ × SortStats)
unfolding shift_loop
insertion_loop zero i arr s = ok (arr, s)
insertion_loop (suc rounds) i arr s = do
  key ← load arr i
  (a, s') ← shift_loop i key arr s
  insertion_loop rounds (i + 1) a s'

unfoldable pub insertion_sort_stat : List ℕ → ℕ → SortStats → Run (List ℕ × SortStats)
unfolding insertion_loop
insertion_sort_stat arr n s = insertion_loop (n - 1) 1 arr s
