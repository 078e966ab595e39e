-- ===== src/PriorityQueue.antt =====
-- The priority queue of priority_queue.c: a growable min-heap of named items.
pub mod Ops
use textbook_c_ds_deep.Prelude.{
  ℕ, ◌+◌, ◌-◌, ◌*◌, ◌%◌, ◌^◌, ◌≤◌, ◌<◌, ◌≡◌, Bool, true, false, Option, none, some, List, [], ltb,
  leb, ◌==◌, if◌then◌else◌, length, take, dec64, arith,
}
use textbook_c_ds_deep.Run.{Run, ok, ◌>>=◌}
use textbook_c_ds_deep.Memory.{Memory}
use textbook_c_ds_deep.Array.{load, store}
use textbook_c_ds_deep.Heap.{Order, order_by, sift_up, sift_down}
use textbook_c_ds_deep.Heap.Invariant.{IsHeap}

-- `priority` is the int plus 2 ^ 31; `name` is the string, less its final zero.
pub record PqItem : Type 0 where
  pub priority : ℕ
  pub name : List ℕ

abbrev pub blank_item : PqItem
blank_item = record { priority = 0; name = [] }

instance abbrev pub by_priority : Order PqItem
by_priority = order_by (λ (x : PqItem). x.priority) blank_item (2 ^ 64) (omega arith)

-- The file's own `sift_up` and `sift_down`.
abbrev pub item_sift_up : List PqItem → ℕ → Run (List PqItem)
item_sift_up = sift_up

abbrev pub item_sift_down : ℕ → List PqItem → ℕ → Run (List PqItem)
item_sift_down = sift_down

pub record PriorityQueue : Type 0 where
  pub heap : List PqItem
  pub size : ℕ
  pub capacity : ℕ

pub pq_empty : PriorityQueue → Bool
pq_empty pq = pq.size == 0

-- The item that `pq_push` writes: at most 63 bytes of the name.
abbrev pub new_item : ℕ → List ℕ → PqItem
new_item priority name = record { priority = priority; name = take 63 name }

-- `pq_push` behind the growth of the block.
pub append : PriorityQueue → PqItem → Run (Bool × PriorityQueue)
append pq x = do
  a ← store pq.heap pq.size x
  b ← item_sift_up a pq.size
  ok (true, record pq { heap = b; size = pq.size + 1 })

module _ (memory : Memory PqItem) where
  pub pq_init : ℕ → Option PriorityQueue
  pq_init capacity = elim (memory.malloc capacity) [
    | none ↦ none
    | some b ↦ some (record { heap = b; size = 0; capacity = capacity })
  ]

  pub pq_push : PriorityQueue → ℕ → List ℕ → Run (Bool × PriorityQueue)
  unfolding append
  pq_push pq priority name =
      let x = new_item priority name in
      let new_cap = pq.capacity * 2 % 2 ^ 64 in
      let grown : Run (Bool × PriorityQueue) = elim (memory.realloc pq.heap new_cap) [
        | none ↦ ok (false, pq)
        | some b ↦ append (record pq { heap = b; capacity = new_cap }) x
      ] in
      if leb pq.capacity pq.size then grown else append pq x

-- `--pq->size` wraps on an empty queue, which the code does not test.
pub pq_pop : PriorityQueue → Run (PqItem × PriorityQueue)
pq_pop pq = do
  let last = dec64 pq.size
  top ← load pq.heap 0
  x ← load pq.heap last
  a ← store pq.heap 0 x
  b ← if ltb 0 last then item_sift_down last a 0 else ok a
  ok (top, record pq { heap = b; size = last })

pub pq_peek : PriorityQueue → Run (Option PqItem)
pq_peek pq = if ltb 0 pq.size then (do x ← load pq.heap 0; ok (some x)) else ok none

-- The invariant between calls. The items fit in the address space.
pub record IsValid (pq : PriorityQueue) : Type 0 where
  pub order : IsHeap pq.size pq.heap
  pub block : length pq.heap ≡ pq.capacity
  pub bounded : pq.size ≤ pq.capacity
  pub nonzero : 0 < pq.capacity
  pub small : pq.capacity ≤ 2 ^ 57

abbrev pub items : PriorityQueue → List PqItem
items pq = take pq.size pq.heap
