-- ===== src/HeapSort.antt =====
-- heap_sort.c: the heap sort of an array of ints, in place, with a max-heap.
pub mod Sorted
use textbook_c_ds_deep.Prelude.{
  ℕ, zero, suc, ◌+◌, ◌-◌, ◌/◌, ◌≤◌, ◌<◌, ◌≡◌, false, true, List, arith, ltb, ◌^◌,
}
use textbook_c_ds_deep.Run.{Run, ok, ◌>>=◌}
use textbook_c_ds_deep.Array.{swap}
use textbook_c_ds_deep.Heap.{Order, sift_down, build}

pub above_asym : (x y : ℕ) → ltb y x ≡ true → ltb x y ≡ false
above_asym x y h = ground arith

pub above_negtrans : (x y z : ℕ) → ltb x y ≡ false → ltb y z ≡ false → ltb x z ≡ false
above_negtrans x y z h k = ground arith

-- The comparison `>`: the larger int comes first. An int is its value plus 2 ^ 31.
unfoldable pub descending : Order ℕ
descending = record {
  less = λ x y. ltb y x;
  sample = 0;
  asym = above_asym;
  negtrans = above_negtrans;
  limit = 2 ^ 31;
  wide = omega arith;
}

-- `sift_down_max(arr, heap_size, i)`
unfoldable pub sift_down_max : ℕ → List ℕ → ℕ → Run (List ℕ)
sift_down_max heap_size arr i = sift_down ⦃o = descending⦄ heap_size arr i

-- `for (i = n / 2 - 1; i >= 0; i--)`
unfoldable pub build_max_heap : List ℕ → ℕ → Run (List ℕ)
build_max_heap arr n = build ⦃o = descending⦄ (n / 2) n arr

-- `for (size = n; size > 1; size--)`, with `size - 1` rounds left
unfoldable pub sort_loop : ℕ → List ℕ → Run (List ℕ)
sort_loop zero arr = ok arr
sort_loop (suc last) arr = do
  b ← swap arr 0 (suc last)
  c ← sift_down_max (suc last) b 0
  sort_loop last c

unfoldable pub heap_sort : List ℕ → ℕ → Run (List ℕ)
unfolding sort_loop
heap_sort arr n = do h ← build_max_heap arr n; sort_loop (n - 1) h
