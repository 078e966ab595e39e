-- ===== src/SimpleSorts/All.antt =====
-- The three sorts side by side.
use textbook_c_ds_deep.Prelude.{ℕ, List, length}
use textbook_c_ds_deep.Run.{Returns}
use textbook_c_ds_deep.SimpleSorts.{
  SortStats, bubble_sort_stat, selection_sort_stat, insertion_sort_stat,
}
use textbook_c_ds_deep.SimpleSorts.Ordered.{Sorts, int_default}
use textbook_c_ds_deep.SimpleSorts.Bubble.{bubble_sort_stat-Sorts}
use textbook_c_ds_deep.SimpleSorts.Selection.{selection_sort_stat-Sorts}
use textbook_c_ds_deep.SimpleSorts.Insertion.{insertion_sort_stat-Sorts}

-- For every array and every state of the counters, `bubble_sort_stat` (also where a pass without an
-- exchange ends it early), `selection_sort_stat` and `insertion_sort_stat` return, without an access
-- outside the array, and leave the ints of the array in ascending order.
pub bubble_selection_insertion_ascend :
    (a : List ℕ) (s : SortStats)
    → Returns (λ out. Sorts a out.0) (bubble_sort_stat a (length a) s)
      × Returns (λ out. Sorts a out.0) (selection_sort_stat a (length a) s)
      × Returns (λ out. Sorts a out.0) (insertion_sort_stat a (length a) s)
bubble_selection_insertion_ascend a s =
    (bubble_sort_stat-Sorts a s, selection_sort_stat-Sorts a s, insertion_sort_stat-Sorts a s)
