-- ===== src/MinHeap.antt =====
-- min_heap.c: a growable min-heap of ints.
pub mod Push
pub mod Pop
pub mod Build
use native.Mathlib.Decide.{ℕ_discrete}
use textbook_c_ds_deep.Prelude.{
  ℕ, zero, suc, ◌+◌, ◌-◌, ◌*◌, ◌/◌, ◌^◌, ◌≤◌, ◌<◌, ◌≡◌, false, true, List, [], arith, ltb, leb,
  ◌==◌, if◌then◌else◌, length, take,
}
use textbook_c_ds_deep.Run.{Run, ok, fault, ◌>>=◌, int_result}
use textbook_c_ds_deep.Memory.{Memory, or_null}
use textbook_c_ds_deep.Array.{load, store}
use textbook_c_ds_deep.Heap.{Order, order_by, sift_up, sift_down, build}
use textbook_c_ds_deep.Heap.Invariant.{IsHeap}

-- An `int` that the code only copies and compares is its value plus 2 ^ 31: the order of the ints
-- is the order of these numbers.
instance abbrev pub ascending : Order ℕ
ascending = order_by (λ x. x) 0 (2 ^ 31) (omega arith)

pub record MinHeap : Type 0 where
  pub data_ : List ℕ
  pub size : ℕ
  pub capacity : ℕ

-- HEAP_INIT_CAP
abbrev pub heap_init_cap : ℕ
heap_init_cap = 16

module _ (memory : Memory ℕ) where
  unfoldable pub heap_init : MinHeap
  heap_init = record {
    data_ = or_null (memory.malloc heap_init_cap);
    size = 0;
    capacity = heap_init_cap;
  }

  pub heap_grow : MinHeap → Run MinHeap
  heap_grow h = do
    doubled ← int_result (h.capacity * 2)
    ok (record h { data_ = or_null (memory.realloc h.data_ doubled); capacity = doubled })

  unfoldable pub heap_push : MinHeap → ℕ → Run MinHeap
  unfolding heap_grow
  heap_push h val = do
    g ← if h.size == h.capacity then heap_grow h else ok h
    a ← store g.data_ g.size val
    b ← sift_up a g.size
    ok (record g { data_ = b; size = g.size + 1 })

pub heap_top : MinHeap → Run ℕ
heap_top h = if ltb 0 h.size then load h.data_ 0 else fault

unfoldable pub heap_pop : MinHeap → Run (ℕ × MinHeap)
heap_pop h =
    if ltb 0 h.size
    then (do
      min ← load h.data_ 0
      last ← load h.data_ (h.size - 1)
      a ← store h.data_ 0 last
      b ← sift_down (h.size - 1) a 0
      ok (min, record h { data_ = b; size = h.size - 1 }))
    else fault

-- `for (i = 0; i < n; i++) data[i] = arr[i];` with `rounds` rounds left
pub copy_loop : ℕ → ℕ → List ℕ → List ℕ → Run (List ℕ)
copy_loop zero i arr a = ok a
copy_loop (suc rounds) i arr a = do x ← load arr i; b ← store a i x; copy_loop rounds (i + 1) arr b

-- The rounds of `for (i = (n - 2) / 2; i >= 0; i--)`: C divides towards 0, so one round for `n = 1`.
pub build_rounds : ℕ → ℕ
build_rounds n = if n == 0 then 0 else (n - 2) / 2 + 1

module _ (memory : Memory ℕ) where
  pub heap_build : MinHeap → List ℕ → ℕ → Run MinHeap
  unfolding copy_loop build_rounds
  heap_build h arr n = do
    let block = if ltb h.capacity n then or_null (memory.malloc n) else h.data_
    let capacity = if ltb h.capacity n then n else h.capacity
    a ← copy_loop n 0 arr block
    b ← build (build_rounds n) n a
    ok (record { data_ = b; size = n; capacity = capacity })

-- The invariant between calls. With 2 ^ 30 cells at most no index computation overflows an `int`.
pub record IsValid (h : MinHeap) : Type 0 where
  pub heap : IsHeap h.size h.data_
  pub block : length h.data_ ≡ h.capacity
  pub bounded : h.size ≤ h.capacity
  pub nonzero : 0 < h.capacity
  pub small : h.capacity ≤ 2 ^ 30

-- The values that the heap holds.
abbrev pub contents : MinHeap → List ℕ
contents h = take h.size h.data_
