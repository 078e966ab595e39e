-- ===== src/PriorityQueue/Ops.antt =====
-- `pq_push`, `pq_pop` and `pq_peek`.
use mathlib.Core.List.{Mem}
use native.Mathlib.Numerals.{add-one}
use textbook_c_ds_deep.Prelude.{
  ℕ, zero, suc, ◌-◌, ◌*◌, ◌%◌, ◌^◌, ◌≤◌, ◌<◌, ◌≡◌, ◌⊎◌, inl, inr, refl, sym, ◌∙◌, Bool, true, false,
  some, List, ◌∷◌, Perm, ltb, leb, arith, length, take, set, dec64, if◌then◌else◌,
}
use textbook_c_ds_deep.Run.{ok, fault, Returns, returns, bind}
use textbook_c_ds_deep.Memory.{Memory}
use textbook_c_ds_deep.Array.{at, load-ok, load-fault, store-ok}
use textbook_c_ds_deep.Heap.{order_default, sift_down}
use textbook_c_ds_deep.Heap.Ends.{push-Inserted, pop-Removed, sift_down_leaf, root_first_mem}
use textbook_c_ds_deep.PriorityQueue.{
  PqItem, by_priority, PriorityQueue, new_item, append, pq_push, pq_pop, pq_peek, IsValid, items,
}

-- What an accepted push leaves.
pub record Pushed (pq : PriorityQueue) (x : PqItem) (r : Bool × PriorityQueue) : Type 0 where
  pub accepted : r.0 ≡ true
  pub valid : IsValid r.1
  pub cells : Perm (items r.1) (x ∷ items pq)

append-Pushed :
    (pq g : PriorityQueue) (x : PqItem)
    → IsValid pq
    → g.size ≡ pq.size
    → take pq.size g.heap ≡ items pq
    → length g.heap ≡ g.capacity
    → g.size < g.capacity
    → g.capacity ≤ 2 ^ 57
    → Returns (Pushed pq x) (append g x)
unfolding append
append-Pushed pq g x v e same block free small =
    let inside : g.size < length g.heap = omega arith in
    rw (store-ok g.heap g.size x inside) (
      bind (push-Inserted g.size pq.heap g.heap x (rw e same) inside (rw e v.order)) λ c w.
        returns (record {
          accepted = refl;
          valid = record {
            order = rw add-one w.heap;
            block = w.block ∙ block;
            bounded = omega arith;
            nonzero = omega arith;
            small = small;
          };
          cells = rw (add-one, ← e) w.cells;
        }))

module _ (memory : Memory PqItem) (pq : PriorityQueue) (priority : ℕ) (name : List ℕ) where
  -- There is a free cell, or `realloc` finds room for twice the items, which are not too many.
  abbrev pub HasRoom : Type 0
  HasRoom =
      (pq.size < pq.capacity)
      ⊎ ((pq.size ≡ pq.capacity)
          × (pq.capacity ≤ 2 ^ 56)
          × (b : List PqItem) × (memory.realloc pq.heap (pq.capacity * 2) ≡ some b))

  -- With room for it, exactly the item given is added.
  pub pq_push_adds :
      IsValid pq
      → HasRoom
      → Returns (Pushed pq (new_item priority name)) (pq_push memory pq priority name)
  unfolding pq_push
  pq_push_adds v (inl free) =
      let e : leb pq.capacity pq.size ≡ false = ground arith in
      rw e (append-Pushed pq pq _ v refl refl v.block free v.small)
  pq_push_adds v (inr (full, few, b, found)) =
      let e : leb pq.capacity pq.size ≡ true = ground arith in
      let wide = pq.capacity * 2 % 2 ^ 64 in
      let n : wide ≡ pq.capacity * 2 = omega arith in
      let found' : memory.realloc pq.heap wide ≡ some b = rw n found in
      let now = v.nonzero in
      rw (e, found')
        (append-Pushed pq (record pq { heap = b; capacity = wide }) _ v refl
          (memory.realloc_keeps pq.heap wide b pq.size found' (omega (arith, v.block))
            (omega arith))
          (memory.realloc_length pq.heap wide b found') (omega arith) (omega arith))

-- What a pop leaves: an item of the lowest number, the one that `pq_peek` shows, and a valid queue
-- of the others.
pub record Popped (pq : PriorityQueue) (r : PqItem × PriorityQueue) : Type 0 where
  pub valid : IsValid r.1
  pub cells : Perm (r.0 ∷ items r.1) (items pq)
  pub least : (x : PqItem) → Mem x (items pq) → r.0.priority ≤ x.priority
  pub peeked : pq_peek pq ≡ ok (some r.0)

-- `if (size > 0) sift_down(pq, 0);` leaves out only a call that would change nothing.
sift_down_guarded :
    (last : ℕ) (a : List PqItem)
    → (if ltb 0 last then sift_down last a 0 else ok a) ≡ sift_down last a 0
sift_down_guarded zero a = sym (sift_down_leaf 0 a 0 (omega arith) (omega arith))
sift_down_guarded (suc n) a = let e : ltb 0 (suc n) ≡ true = ground arith in rw e

module _ (pq : PriorityQueue) (v : IsValid pq) where
  -- A pop of a non-empty queue returns an item of the lowest number and keeps the others.
  pub pq_pop_removes : 0 < pq.size → Returns (Popped pq) (pq_pop pq)
  unfolding pq_pop pq_peek
  pq_pop_removes some_left =
      let last = pq.size - 1 in
      let wrap : dec64 pq.size ≡ last = omega (arith, v.bounded, v.small) in
      let e : suc last ≡ pq.size = omega arith in
      let room : pq.size ≤ length pq.heap = omega (arith, v.block, v.bounded) in
      let inside : last < length pq.heap = omega arith in
      let a = pq.heap in
      rw
        (
          wrap,
          load-ok a 0 (omega arith),
          load-ok a last inside,
          store-ok a 0 (at a last) (omega arith),
          sift_down_guarded last (set a 0 (at a last)),
        )
        (bind (pop-Removed last a (omega (arith, v.bounded, v.small)) inside (rw e v.order)) λ c w.
          returns (record {
            valid = record {
              order = w.heap;
              block = w.block ∙ v.block;
              bounded = omega (arith, v.bounded);
              nonzero = v.nonzero;
              small = v.small;
            };
            cells = rw e at w.cells;
            peeked =
                (let more : ltb 0 pq.size ≡ true = ground arith in
                  rw (more, load-ok a 0 (omega arith)));
            least = λ x m. ground (arith, root_first_mem pq.size a room v.order x m);
          }))

  -- A pop of an empty queue reads far outside the block.
  pub pq_pop-empty : pq.size ≡ 0 → pq_pop pq ≡ fault
  unfolding pq_pop
  pq_pop-empty e =
      let wrap : dec64 pq.size ≡ 2 ^ 64 - 1 = omega arith in
      rw (
        wrap,
        load-ok pq.heap 0 (omega (arith, v.block, v.nonzero)),
        load-fault pq.heap (2 ^ 64 - 1) (omega (arith, v.block, v.small)),
      )
