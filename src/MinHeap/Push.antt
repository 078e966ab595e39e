-- ===== src/MinHeap/Push.antt =====
-- `heap_push`.
use native.Mathlib.Numerals.{add-one}
use textbook_c_ds_deep.Prelude.{
  ℕ, ◌*◌, ◌^◌, ◌≤◌, ◌<◌, ◌≡◌, ◌⊎◌, inl, inr, refl, some, List, ◌∷◌, Perm, arith, ltb, ◌==◌, true,
  false, length, take, if◌then◌else◌, ◌∙◌,
}
use textbook_c_ds_deep.Run.{ok, Returns, returns, bind, branch}
use textbook_c_ds_deep.Memory.{Memory}
use textbook_c_ds_deep.Array.{store-ok}
use textbook_c_ds_deep.Heap.Ends.{push-Inserted}
use textbook_c_ds_deep.MinHeap.{ascending, MinHeap, heap_grow, heap_push, IsValid, contents}

module _ (memory : Memory ℕ) where
  -- There is a free cell, or `realloc` finds room for twice the cells, which are not too many.
  abbrev pub HasRoom : MinHeap → Type 0
  HasRoom h =
      (h.size < h.capacity)
      ⊎ ((h.capacity ≤ 2 ^ 29) × (b : List ℕ) × (memory.realloc h.data_ (h.capacity * 2) ≡ some b))

  -- What a push leaves: a valid heap with one value more.
  abbrev pub Pushed : MinHeap → ℕ → MinHeap → Type 0
  Pushed h val h' = IsValid h' × Perm (contents h') (val ∷ contents h)

  -- The heap that the first line of `heap_push` leaves.
  record HasFree (h g : MinHeap) : Type 0 where
    free : g.size < g.capacity
    block : length g.data_ ≡ g.capacity
    same_size : g.size ≡ h.size
    same : take h.size g.data_ ≡ take h.size h.data_
    small : g.capacity ≤ 2 ^ 30

  grow-HasFree :
      (h : MinHeap)
      → IsValid h
      → HasRoom h
      → Returns (HasFree h) (if h.size == h.capacity then heap_grow memory h else ok h)
  unfolding heap_grow
  grow-HasFree h v (inl free) =
      let open_ : (h.size == h.capacity) ≡ false = ground arith in
      rw open_ (
        returns
          (record { free = free; block = v.block; same_size = refl; same = refl; small = v.small }))
  grow-HasFree h v (inr (few, b, found)) =
      branch (h.size == h.capacity)
        (λ full.
          let fits : ltb (h.capacity * 2) (2 ^ 31) ≡ true = ground arith in
          let now = v.nonzero in
          rw (fits, found)
            (returns (record {
              free = ground arith;
              block = memory.realloc_length h.data_ (h.capacity * 2) b found;
              same_size = refl;
              same =
                  memory.realloc_keeps h.data_ (h.capacity * 2) b h.size found
                    (omega (arith, v.block, v.bounded)) (omega (arith, v.bounded));
              small = omega arith;
            })))
        (λ open_. returns (record {
          free = ground (arith, v.bounded);
          block = v.block;
          same_size = refl;
          same = refl;
          small = v.small;
        }))

  -- A push onto a valid heap with room leaves a valid heap with exactly that value more.
  pub heap_push_adds :
      (h : MinHeap) (val : ℕ)
      → IsValid h
      → HasRoom h
      → Returns (Pushed h val) (heap_push memory h val)
  unfolding heap_push
  heap_push_adds h val v room = bind (grow-HasFree h v room) λ g f.
      let inside : g.size < length g.data_ = omega (arith, f.free, f.block) in
      rw (store-ok g.data_ g.size val inside) (
        bind
          (push-Inserted g.size h.data_ g.data_ val (rw f.same_size f.same) inside
            (rw f.same_size v.heap))
          λ c s. returns (
            record {
              heap = rw add-one s.heap;
              block = s.block ∙ f.block;
              bounded = omega (arith, f.free);
              nonzero = omega (arith, f.free);
              small = f.small;
            },
            rw (add-one, ← f.same_size) s.cells,
          ))
