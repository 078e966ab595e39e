-- ===== src/Tests/Sorts.antt =====
-- simple_sorts.c and merge_quick_sort.c.
use textbook_c_ds_deep.Prelude.{ℕ, some, ◌≡◌, refl, List, [], ◌∷◌, length}
use textbook_c_ds_deep.Run.{ok, Returns}
use textbook_c_ds_deep.Array.{load, store, swap}
use textbook_c_ds_deep.SimpleSorts.{
  SortStats, write_and_count, exchange, bubble_pass, bubble_loop, bubble_sort_stat, select_loop,
  selection_loop, selection_sort_stat, shift_loop, insertion_loop, insertion_sort_stat,
}
use textbook_c_ds_deep.SimpleSorts.Ordered.{Sorts, int_default}
use textbook_c_ds_deep.MergeQuick.{
  merge_sort, merge_sort_helper, merge, merge_loop, rest_loop, copy_at, quick_sort,
  quick_sort_helper, partition, partition_loop, scan_up, scan_down, median_of_three, order,
  insertion_sort_range, range_loop, range_shift,
}
use textbook_c_ds_deep.MergeQuick.Sorted.{merge_sort-Sorts}
use textbook_c_ds_deep.SimpleSorts.All.{bubble_selection_insertion_ascend}

abbrev fresh : SortStats
fresh = record { comparisons = 0; writes = 0 }

abbrev mixed : List ℕ
mixed = 5 ∷ 2 ∷ 9 ∷ 1 ∷ []

abbrev in_order : List ℕ
in_order = 1 ∷ 2 ∷ 5 ∷ 9 ∷ []

bubble_mixed :
    bubble_sort_stat mixed 4 fresh ≡ ok (in_order, record { comparisons = 6; writes = 8 })
unfolding bubble_sort_stat bubble_loop bubble_pass exchange write_and_count load store
bubble_mixed = refl

bubble_early :
    bubble_sort_stat in_order 4 fresh ≡ ok (in_order, record { comparisons = 3; writes = 0 })
unfolding bubble_sort_stat bubble_loop bubble_pass exchange write_and_count load store
bubble_early = refl

selection_mixed :
    selection_sort_stat mixed 4 fresh ≡ ok (in_order, record { comparisons = 6; writes = 4 })
unfolding selection_sort_stat selection_loop select_loop exchange write_and_count load store
selection_mixed = refl

insertion_mixed :
    insertion_sort_stat mixed 4 fresh ≡ ok (in_order, record { comparisons = 5; writes = 7 })
unfolding insertion_sort_stat insertion_loop shift_loop write_and_count load store
insertion_mixed = refl

bubble_selection_insertion_ascend_example :
    Returns (λ out. Sorts mixed out.0) (bubble_sort_stat mixed (length mixed) fresh)
    × Returns (λ out. Sorts mixed out.0) (selection_sort_stat mixed (length mixed) fresh)
    × Returns (λ out. Sorts mixed out.0) (insertion_sort_stat mixed (length mixed) fresh)
bubble_selection_insertion_ascend_example = bubble_selection_insertion_ascend mixed fresh

merged_mixed : merge_sort (some (0 ∷ 0 ∷ 0 ∷ 0 ∷ [])) mixed 4 ≡ ok in_order
unfolding merge_sort merge_sort_helper merge merge_loop rest_loop copy_at load store
merged_mixed = refl

merge_sort-Sorts_example :
    Returns (Sorts mixed) (merge_sort (some (0 ∷ 0 ∷ 0 ∷ 0 ∷ [])) mixed (length mixed))
merge_sort-Sorts_example = merge_sort-Sorts (0 ∷ 0 ∷ 0 ∷ 0 ∷ []) mixed refl

-- Long enough for a partition.
abbrev falling : List ℕ
falling = 19 ∷ 18 ∷ 17 ∷ 16 ∷ 15 ∷ 14 ∷ 13 ∷ 12 ∷ 11 ∷ 10 ∷ 9 ∷ 8 ∷ 7 ∷ 6 ∷ 5 ∷ 4 ∷ 3 ∷ 2 ∷ []

quick_falling :
    quick_sort falling 18
    ≡ ok (2 ∷ 3 ∷ 4 ∷ 5 ∷ 6 ∷ 7 ∷ 8 ∷ 9 ∷ 10 ∷ 11 ∷ 12 ∷ 13 ∷ 14 ∷ 15 ∷ 16 ∷ 17 ∷ 18 ∷ 19 ∷ [])
unfolding quick_sort quick_sort_helper partition partition_loop scan_up scan_down median_of_three
    order insertion_sort_range range_loop range_shift swap load store
quick_falling = refl
