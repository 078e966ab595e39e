-- ===== src/Tests/Heaps.antt =====
-- min_heap.c, heap_sort.c and the priority queue of priority_queue.c.
use textbook_c_ds_deep.Prelude.{ℕ, ◌≡◌, refl, inr, [], ◌∷◌, arith}
use textbook_c_ds_deep.Run.{Run, ok, ◌>>=◌, Returns}
use textbook_c_ds_deep.Array.{at, load, store, swap}
use textbook_c_ds_deep.Heap.{sift_up, sift_down, build, order_default}
use textbook_c_ds_deep.MinHeap.{ascending, MinHeap, heap_push, heap_pop, heap_build, IsValid}
use textbook_c_ds_deep.MinHeap.Push.{Pushed, heap_push_adds}
use textbook_c_ds_deep.MinHeap.Pop.{Popped, heap_pop_removes}
use textbook_c_ds_deep.MinHeap.Build.{Built, heap_build_holds}
use textbook_c_ds_deep.HeapSort.{heap_sort, build_max_heap, sort_loop, sift_down_max, descending}
use textbook_c_ds_deep.HeapSort.Sorted.{Sorts, heap_sort-Sorts}
use textbook_c_ds_deep.Tests.Allocators.{plenty}

-- A full heap of two cells.
abbrev pair : MinHeap
pair = record { data_ = 3 ∷ 5 ∷ []; size = 2; capacity = 2 }

pair-IsValid : IsValid pair
unfolding at
pair-IsValid = grind arith

-- The pushes and the first pops of `main`.
session : Run (ℕ × ℕ × ℕ)
unfolding heap_push heap_pop sift_up sift_down plenty load store swap
session = do
  h ← heap_push (plenty 0) pair 8
  h ← heap_push (plenty 0) h 1
  h ← heap_push (plenty 0) h 9
  (a, h) ← heap_pop h
  (b, h) ← heap_pop h
  (c, h) ← heap_pop h
  ok (a, b, c)

session_result : session ≡ ok (1, 3, 5)
unfolding session
session_result = refl

sort_result : heap_sort (4 ∷ 10 ∷ 3 ∷ 5 ∷ 1 ∷ 8 ∷ []) 6 ≡ ok (1 ∷ 3 ∷ 4 ∷ 5 ∷ 8 ∷ 10 ∷ [])
unfolding heap_sort build_max_heap sort_loop sift_down_max descending sift_down build load store
    swap
sort_result = refl

heap_push_adds_example : Returns (Pushed (plenty 0) pair 1) (heap_push (plenty 0) pair 1)
unfolding plenty
heap_push_adds_example =
    heap_push_adds (plenty 0) pair 1 pair-IsValid (inr (omega arith, 3 ∷ 5 ∷ 0 ∷ 0 ∷ [], refl))

heap_pop_removes_example : Returns (Popped pair) (heap_pop pair)
heap_pop_removes_example = heap_pop_removes pair pair-IsValid (omega arith)

heap_build_holds_example :
    Returns (Built (plenty 0) (9 ∷ 4 ∷ 7 ∷ [])) (heap_build (plenty 0) pair (9 ∷ 4 ∷ 7 ∷ []) 3)
unfolding plenty
heap_build_holds_example =
    heap_build_holds (plenty 0) pair (9 ∷ 4 ∷ 7 ∷ []) pair-IsValid (omega arith)
      (inr (omega arith, 0 ∷ 0 ∷ 0 ∷ [], refl))

heap_sort-Sorts_example : Returns (Sorts (4 ∷ 10 ∷ 3 ∷ [])) (heap_sort (4 ∷ 10 ∷ 3 ∷ []) 3)
heap_sort-Sorts_example = heap_sort-Sorts (4 ∷ 10 ∷ 3 ∷ []) (omega arith)
