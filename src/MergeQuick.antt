-- ===== src/MergeQuick.antt =====
-- merge_quick_sort.c: merge sort with a buffer, and quick sort with the median of three and insertion
-- sort for short ranges. An int is its value plus 2 ^ 31; an index that may be -1 is kept plus 1.
pub mod Slice
pub mod Merged
pub mod Sorted
use textbook_c_ds_deep.Prelude.{
  ℕ, zero, suc, ◌+◌, ◌-◌, ◌/◌, Bool, ◌&&◌, Option, none, some, List, ltb, leb, if◌then◌else◌,
  length, take, drop, ◌++◌,
}
use textbook_c_ds_deep.Run.{Run, ok, fault, out_of_fuel, ◌>>=◌}
use textbook_c_ds_deep.Array.{load, store, swap}

-- `memcpy(dst + at, src + at, n)`
unfoldable pub copy_at : List ℕ → List ℕ → ℕ → ℕ → Run (List ℕ)
copy_at dst src i n =
    if leb (i + n) (length dst) && leb (i + n) (length src)
    then ok (take i dst ++ take n (drop i src) ++ drop n (drop i dst))
    else fault

-- `while (i < stop) arr[k++] = tmp[i++]`, with `rounds` rounds left: the loops that copy what one half
-- still has.
unfoldable pub rest_loop : ℕ → List ℕ → List ℕ → ℕ → ℕ → Run (List ℕ)
rest_loop zero arr tmp i k = ok arr
rest_loop (suc rounds) arr tmp i k = do
  x ← load tmp i
  a ← store arr k x
  rest_loop rounds a tmp (i + 1) (k + 1)

-- The first loop of `merge`, then the other two.
unfoldable pub merge_loop : ℕ → List ℕ → List ℕ → ℕ → ℕ → ℕ → ℕ → ℕ → Run (List ℕ)
merge_loop zero arr tmp i j k mid right = out_of_fuel
merge_loop (suc fuel) arr tmp i j k mid right =
    let left_first = load tmp i >>= λ x.
    store arr k x >>= λ a. merge_loop fuel a tmp (i + 1) j (k + 1) mid right in
    let right_first = load tmp j >>= λ y.
    store arr k y >>= λ a. merge_loop fuel a tmp i (j + 1) (k + 1) mid right in
    let both =
      load tmp i >>= λ x. load tmp j >>= λ y. if leb x y then left_first else right_first in
    let ends = rest_loop (mid + 1 - i) arr tmp i k >>= λ a.
    rest_loop (right + 1 - j) a tmp j (k + (mid + 1 - i)) in
    if leb i mid && leb j right then both else ends

-- The array and the buffer. A round of the loop copies a cell: one round more than there are is enough.
unfoldable pub merge : List ℕ → List ℕ → ℕ → ℕ → ℕ → Run (List ℕ × List ℕ)
merge arr tmp left mid right = do
  t ← copy_at tmp arr left (right - left + 1)
  a ← merge_loop (right - left + 2) arr t left (mid + 1) left mid right
  ok (a, t)

-- The fuel bounds the depth: `right - left + 1` is enough.
unfoldable pub merge_sort_helper : ℕ → List ℕ → List ℕ → ℕ → ℕ → Run (List ℕ × List ℕ)
merge_sort_helper zero arr tmp left right = out_of_fuel
merge_sort_helper (suc fuel) arr tmp left right =
    let mid = left + (right - left) / 2 in
    let halves = merge_sort_helper fuel arr tmp left mid >>= λ (a, t).
    merge_sort_helper fuel a t (mid + 1) right >>= λ (b, u). merge b u left mid right in
    if leb right left then ok (arr, tmp) else halves

-- `tmp` is what malloc returns; without memory the array stays as it is.
unfoldable pub merge_sort : Option (List ℕ) → List ℕ → ℕ → Run (List ℕ)
merge_sort none arr n = ok arr
merge_sort (some tmp) arr n =
    let sorted = merge_sort_helper n arr tmp 0 (n - 1) >>= λ (a, t). ok a in
    if leb n 1 then ok arr else sorted

-- `if (arr[i] > arr[j])` and the exchange.
unfoldable pub order : List ℕ → ℕ → ℕ → Run (List ℕ)
order arr i j = load arr i >>= λ x. load arr j >>= λ y. if ltb y x then swap arr i j else ok arr

-- The pivot and the array.
unfoldable pub median_of_three : List ℕ → ℕ → ℕ → Run (ℕ × List ℕ)
median_of_three arr left right = do
  let mid = left + (right - left) / 2
  a ← order arr left mid
  b ← order a left right
  c ← order b mid right
  d ← swap c mid (right - 1)
  pivot ← load d (right - 1)
  ok (pivot, d)

-- `while (arr[++i] < pivot)`
unfoldable pub scan_up : ℕ → List ℕ → ℕ → ℕ → Run ℕ
scan_up zero arr pivot i = out_of_fuel
scan_up (suc fuel) arr pivot i =
    let on = scan_up fuel arr pivot (i + 1) in
    load arr (i + 1) >>= λ x. if ltb x pivot then on else ok (i + 1)

-- `while (arr[--j] > pivot)`; before the first cell it reads outside the array.
unfoldable pub scan_down : List ℕ → ℕ → ℕ → Run ℕ
scan_down arr pivot zero = fault
scan_down arr pivot (suc j) =
    let on = scan_down arr pivot j in load arr j >>= λ x. if ltb pivot x then on else ok j

-- `while (true)` with the exchanges.
unfoldable pub partition_loop : ℕ → List ℕ → ℕ → ℕ → ℕ → Run (ℕ × List ℕ)
partition_loop zero arr pivot i j = out_of_fuel
partition_loop (suc fuel) arr pivot i j = do
  up ← scan_up (length arr) arr pivot i
  down ← scan_down arr pivot j
  let again = swap arr up down >>= λ a. partition_loop fuel a pivot up down
  if leb down up then ok (up, arr) else again

-- Where the pivot ends up, and the array.
unfoldable pub partition : List ℕ → ℕ → ℕ → Run (ℕ × List ℕ)
partition arr left right =
    let short : Run (ℕ × List ℕ) = order arr left right >>= λ a. ok (left, a) in
    let long : Run (ℕ × List ℕ) = median_of_three arr left right >>= λ (pivot, a).
    partition_loop (length a) a pivot left (right - 1) >>= λ (i, b).
    swap b i (right - 1) >>= λ c. ok (i, c) in
    if ltb (right - left) 2 then short else long

-- INSERTION_THRESHOLD
abbrev pub insertion_threshold : ℕ
insertion_threshold = 16

-- The inner loop, with `j + 1`, and the write behind it.
unfoldable pub range_shift : ℕ → ℕ → ℕ → List ℕ → Run (List ℕ)
range_shift zero left key arr = store arr 0 key
range_shift (suc j) left key arr =
    let shifted = load arr j >>= λ x. store arr (j + 1) x >>= λ a. range_shift j left key a in
    let placed = store arr (suc j) key in
    let tested = load arr j >>= λ x. if ltb key x then shifted else placed in
    if leb left j then tested else placed

-- The outer loop, with `rounds` rounds left.
unfoldable pub range_loop : ℕ → ℕ → ℕ → List ℕ → Run (List ℕ)
range_loop zero left i arr = ok arr
range_loop (suc rounds) left i arr = do
  key ← load arr i
  a ← range_shift i left key arr
  range_loop rounds left (i + 1) a

-- `stop` is `right + 1`.
unfoldable pub insertion_sort_range : List ℕ → ℕ → ℕ → Run (List ℕ)
insertion_sort_range arr left stop = range_loop (stop - (left + 1)) left (left + 1) arr

unfoldable pub quick_sort_helper : ℕ → List ℕ → ℕ → ℕ → Run (List ℕ)
quick_sort_helper zero arr left stop = out_of_fuel
quick_sort_helper (suc fuel) arr left stop =
    let halves = partition arr left (stop - 1) >>= λ (pivot_idx, a).
    quick_sort_helper fuel a left pivot_idx >>= λ b.
    quick_sort_helper fuel b (pivot_idx + 1) stop in
    if ltb stop (left + 1 + insertion_threshold) then insertion_sort_range arr left stop else halves

unfoldable pub quick_sort : List ℕ → ℕ → Run (List ℕ)
quick_sort arr n = if leb n 1 then ok arr else quick_sort_helper n arr 0 n
