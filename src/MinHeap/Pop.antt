-- ===== src/MinHeap/Pop.antt =====
-- `heap_top` and `heap_pop`.
use mathlib.Core.List.{Mem}
use textbook_c_ds_deep.Prelude.{
  ℕ, suc, ◌-◌, ◌≤◌, ◌<◌, ◌≡◌, ◌∷◌, Perm, arith, ltb, true, length, ◌∙◌,
}
use textbook_c_ds_deep.Run.{Returns, returns, bind}
use textbook_c_ds_deep.Array.{at, load-ok, store-ok}
use textbook_c_ds_deep.Heap.{order_default}
use textbook_c_ds_deep.Heap.Ends.{pop-Removed, root_first_mem}
use textbook_c_ds_deep.MinHeap.{ascending, MinHeap, heap_top, heap_pop, IsValid, contents}

-- What a pop leaves: the least value, and a valid heap of the others.
pub record Popped (h : MinHeap) (r : ℕ × MinHeap) : Type 0 where
  pub valid : IsValid r.1
  pub cells : Perm (r.0 ∷ contents r.1) (contents h)
  pub least : (x : ℕ) → Mem x (contents h) → r.0 ≤ x

module _ (h : MinHeap) (v : IsValid h) (some_left : 0 < h.size) where
  -- `heap_top` returns a least value of the heap.
  pub heap_top_least : Returns (λ top. (x : ℕ) → Mem x (contents h) → top ≤ x) (heap_top h)
  unfolding heap_top
  heap_top_least =
      let pos : ltb 0 h.size ≡ true = ground arith in
      rw (pos, load-ok h.data_ 0 (omega (arith, v.block, v.bounded)))
        (returns λ x m.
          ground
            (arith, root_first_mem h.size h.data_ (omega (arith, v.block, v.bounded)) v.heap x m))

  -- A pop of a non-empty valid heap returns a least value and leaves a valid heap of the others.
  pub heap_pop_removes : Returns (Popped h) (heap_pop h)
  unfolding heap_pop
  heap_pop_removes =
      let pos : ltb 0 h.size ≡ true = ground arith in
      let last = h.size - 1 in
      let e : suc last ≡ h.size = omega arith in
      let room : h.size ≤ length h.data_ = omega (arith, v.block, v.bounded) in
      let inside : last < length h.data_ = omega arith in
      let a = h.data_ in
      rw
        (
          pos,
          load-ok a 0 (omega arith),
          load-ok a last inside,
          store-ok a 0 (at a last) (omega arith),
        )
        (bind (pop-Removed last a (omega (arith, v.bounded, v.small)) inside (rw e v.heap)) λ c s.
          returns (record {
            valid = record {
              heap = s.heap;
              block = s.block ∙ v.block;
              bounded = omega (arith, v.bounded);
              nonzero = v.nonzero;
              small = v.small;
            };
            cells = rw e at s.cells;
            least = λ x m. ground (arith, root_first_mem h.size a room v.heap x m);
          }))
