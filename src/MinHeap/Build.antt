-- ===== src/MinHeap/Build.antt =====
-- `heap_init` and `heap_build`.
use native.Mathlib.Nat.{zero-add}
use native.Mathlib.Numerals.{add-one}
use textbook_c_ds_deep.Prelude.{
  ℕ, zero, suc, ◌+◌, ◌*◌, ◌≤◌, ◌<◌, ◌^◌, ◌≡◌, ◌⊎◌, inl, inr, refl, some, List, [], Perm, arith, ltb,
  true, false, length, take, ◌∙◌, set, take_all, length-set, take-set_le,
}
use textbook_c_ds_deep.Run.{ok, Returns, returns, bind, weaken, ◌>>=◌}
use textbook_c_ds_deep.Memory.{Memory}
use textbook_c_ds_deep.Array.{at, at-set, load-ok, store-ok, take-suc}
use textbook_c_ds_deep.Heap.{build, order_default}
use textbook_c_ds_deep.Heap.Invariant.{IsHeapFrom}
use textbook_c_ds_deep.Heap.Ends.{build-Sifted}
use textbook_c_ds_deep.MinHeap.{
  ascending, MinHeap, heap_init, heap_init_cap, copy_loop, build_rounds, heap_build, IsValid,
  contents,
}

-- `b` is `a` with its first `n` cells from `arr`.
abbrev Copied : ℕ → List ℕ → List ℕ → List ℕ → Type 0
Copied n arr a b = (take n b ≡ take n arr) × (length b ≡ length a)

-- After `i` rounds the first `i` cells are those of `arr`.
copy_loop_copies :
    (rounds i : ℕ) (arr a : List ℕ)
    → i + rounds ≤ length arr
    → i + rounds ≤ length a
    → take i a ≡ take i arr
    → Returns (Copied (i + rounds) arr a) (copy_loop rounds i arr a)
unfolding copy_loop
copy_loop_copies zero i arr a h k e =
    let same : i ≡ i + 0 = omega arith in returns (rw (← same) e, refl)
copy_loop_copies (suc rounds) i arr a h k e =
    let x = at arr i in
    let b = set a i x in
    let inside : i < length b = omega (arith, length-set a i x) in
    let total : (i + 1) + rounds ≡ i + suc rounds = omega arith in
    let written : at b i ≡ x = ground (arith, at-set a i i x) in
    let copied : take (suc i) b ≡ take (suc i) arr = rw (
      take-suc i b inside,
      take-suc i arr (omega arith),
      take-set_le i a i x (omega arith),
      e,
      written,
    ) in
    let rest : Returns (Copied (i + suc rounds) arr b) (copy_loop rounds (i + 1) arr b) =
      rw total at (
        copy_loop_copies rounds (i + 1) arr b (omega arith) (omega (arith, length-set a i x))
          (rw add-one copied)) in
    rw (load-ok arr i (omega arith), store-ok a i x (omega arith))
      (weaken rest λ c s. (s.0, s.1 ∙ length-set a i x))

build_rounds_cover : (n : ℕ) (a : List ℕ) → IsHeapFrom (build_rounds n) n a
unfolding build_rounds
build_rounds_cover n a c p q r = absurd (ground arith)

build_rounds-le : (n : ℕ) → build_rounds n ≤ n
unfolding build_rounds
build_rounds-le n = ground arith

module _ (memory : Memory ℕ) where
  -- A fresh heap is valid and empty if `malloc` finds room.
  pub heap_init-IsValid :
      (b : List ℕ)
      → memory.malloc heap_init_cap ≡ some b
      → IsValid (heap_init memory) × (contents (heap_init memory) ≡ [])
  unfolding heap_init
  heap_init-IsValid b found = rw found (
    record {
      heap = λ c p q r. absurd (omega arith);
      block = memory.malloc_length heap_init_cap b found;
      bounded = omega arith;
      nonzero = omega arith;
      small = omega arith;
    },
    refl,
  )

  -- The array fits in the block, or `malloc` finds a block for it.
  abbrev pub FitsBlock : MinHeap → ℕ → Type 0
  FitsBlock h n = (n ≤ h.capacity) ⊎ ((h.capacity < n) × (b : List ℕ) × (memory.malloc n ≡ some b))

  -- What a build leaves: a valid heap of the values of the array.
  abbrev pub Built : List ℕ → MinHeap → Type 0
  Built arr h' = IsValid h' × Perm (contents h') arr

  built :
      (arr a : List ℕ) (n capacity : ℕ)
      → length arr ≡ n
      → length a ≡ capacity
      → n * 2 < 2 ^ 31
      → n ≤ capacity
      → 0 < capacity
      → capacity ≤ 2 ^ 30
      → Returns (Built arr) (do
        b ← copy_loop n 0 arr a
        c ← build (build_rounds n) n b
        ok (record { data_ = c; size = n; capacity = capacity }))
  built arr a n capacity f e fits_int fits pos small =
      bind (copy_loop_copies n 0 arr a (omega arith) (omega arith) refl) λ b s.
        bind
          (build-Sifted (build_rounds n) n b fits_int (build_rounds-le n) (omega (arith, s.1))
            (build_rounds_cover n b))
          λ c t. returns (
            record {
              heap = t.heap;
              block = t.shuffled.same_length ∙ s.1 ∙ e;
              bounded = fits;
              nonzero = pos;
              small = small;
            },
            (let copied : take n b ≡ arr = rw (zero-add, take_all n arr (omega arith)) at s.0 in
                rw copied at t.shuffled.front),
          )

  -- A build turns an array of fewer than 2 ^ 30 values, in any order, into a valid heap of the same values.
  -- The block of the heap holds them, or `malloc` finds one that does.
  pub heap_build_holds :
      (h : MinHeap) (arr : List ℕ)
      → IsValid h
      → length arr < 2 ^ 30
      → FitsBlock h (length arr)
      → Returns (Built arr) (heap_build memory h arr (length arr))
  unfolding heap_build
  heap_build_holds h arr v small (inl fits) =
      let keeps : ltb h.capacity (length arr) ≡ false = ground arith in
      rw keeps (
        built arr h.data_ (length arr) h.capacity refl v.block (omega (arith, small)) fits v.nonzero
          v.small)
  heap_build_holds h arr v small (inr (larger, b, found)) =
      let grows : ltb h.capacity (length arr) ≡ true = ground arith in
      rw (grows, found)
        (built arr b (length arr) (length arr) refl (memory.malloc_length (length arr) b found)
          (omega (arith, small)) (omega arith) (omega arith) (omega (arith, small)))
