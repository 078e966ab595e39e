-- ===== src/HeapSort/Sorted.antt =====
-- `heap_sort` sorts.
use mathlib.Core.List.Perm
use native.Mathlib.Decide.{dec_lt}
use native.Mathlib.Bridge.{le_prop}
use textbook_c_ds_deep.Prelude.{
  ℕ, zero, suc, ◌-◌, ◌*◌, ◌/◌, ◌^◌, ◌≤◌, ◌<◌, ◌≡◌, refl, ◌∙◌, List, Perm, arith, length, ◌==◌,
  if◌then◌else◌,
}
use textbook_c_ds_deep.Run.{Returns, returns, bind, weaken}
use textbook_c_ds_deep.Array.{at, swapped, swapped-perm, length-swapped, at-swapped, swap-ok}
use textbook_c_ds_deep.Heap.{Order, order_default, parent, sift_down}
use textbook_c_ds_deep.Heap.Invariant.{
  IsHeap, root_first, Sifted, Shuffled-at, Shuffled-all, Shuffled-perm,
}
use textbook_c_ds_deep.Heap.Ends.{build-Sifted}
use textbook_c_ds_deep.Heap.Down.{sift_down-Sifted}
use textbook_c_ds_deep.HeapSort.{descending, sift_down_max, build_max_heap, sort_loop, heap_sort}

module _ where
  instance abbrev order : Order ℕ
  order = descending

  abbrev pub key : List ℕ → ℕ → ℕ
  key a i = at ⦃d = order_default ⦃o = descending⦄⦄ a i

fits_index : (n : ℕ) → n * 2 < 2 ^ 31 → n * 2 < descending.limit
unfolding descending
fits_index n h = h

-- The cells ascend.
abbrev pub IsSorted : List ℕ → Type 0
IsSorted a = (i j : ℕ) → i < j → j < length a → key a i ≤ key a j

-- The first `size` cells are a max-heap, and no cell behind them is less than one before it.
record SortInv (size : ℕ) (a : List ℕ) : Type 0 where
  heap : IsHeap ⦃o = descending⦄ size a
  tail : (i j : ℕ) → i < j → size ≤ j → j < length a → key a i ≤ key a j
  bounded : size ≤ length a

-- One round: the root goes behind the heap, which then ends one cell earlier.
module _ (last : ℕ) (a b c : List ℕ) (v : SortInv (suc (suc last)) a)
    (e : b ≡ swapped ⦃d = order_default ⦃o = descending⦄⦄ a 0 (suc last))
    (s : Sifted ⦃o = descending⦄ 0 (suc last) b c) where
  b_length : length b ≡ length a
  b_length = rw e (length-swapped ⦃d = order_default ⦃o = descending⦄⦄ a 0 (suc last))

  c_length : length c ≡ length a
  c_length = s.shuffled.same_length ∙ b_length

  -- What the exchange leaves at `k`.
  exchanged :
      (k : ℕ)
      → key b k ≡ (if suc last == k then key a 0 else if 0 == k then key a (suc last) else key a k)
  exchanged k = rw e (
      at-swapped ⦃d = order_default ⦃o = descending⦄⦄ a 0 (suc last) (omega (arith, v.bounded))
        (omega (arith, v.bounded)) k)

  below_root : (k : ℕ) → k < suc (suc last) → key a k ≤ key a 0
  unfolding descending
  below_root k h =
      let first = root_first ⦃o = descending⦄ (suc (suc last)) a k v.heap h in ground (arith, first)

  front_below : (k j : ℕ) → k < suc last → suc last ≤ j → j < length a → key b k ≤ key b j
  front_below k j hk hj inside = ground (
    arith,
    exchanged k,
    exchanged j,
    below_root k,
    below_root (suc last),
    v.tail k j,
    v.tail (suc last) j,
  )

  back_ascends : (i j : ℕ) → i < j → suc last ≤ i → j < length a → key b i ≤ key b j
  back_ascends i j h hi inside = ground (arith, exchanged i, exchanged j, v.tail 0 j, v.tail i j)

  tail_ascends : (i j : ℕ) → i < j → suc last ≤ j → j < length c → key c i ≤ key c j
  tail_ascends i j h hj inside =
      let hj' : j < length a = omega (arith, c_length) in
      rw (Shuffled-at ⦃o = descending⦄ s.shuffled j hj) (elim (dec_lt i (suc last)) [
        | yes hi ↦
            Shuffled-all ⦃o = descending⦄ s.shuffled (λ x. x ≤ key b j) (λ x. le_prop)
              (omega (arith, b_length, v.bounded)) (λ k hk. front_below k j hk hj hj') i hi
        | no hi ↦
            rw (Shuffled-at ⦃o = descending⦄ s.shuffled i (omega arith))
              (back_ascends i j h (omega arith) hj')
      ])

  round-SortInv : SortInv (suc last) c
  round-SortInv = record {
    heap = s.heap;
    tail = tail_ascends;
    bounded = omega (arith, c_length, v.bounded);
  }

-- The last cell of the heap, now at the root, sinks in the heap of the cells before it.
sinks :
    (last : ℕ) (a : List ℕ)
    → suc last * 2 < 2 ^ 31
    → SortInv (suc (suc last)) a
    → let b = swapped ⦃d = order_default ⦃o = descending⦄⦄ a 0 (suc last) in
      Returns (Sifted ⦃o = descending⦄ 0 (suc last) b) (sift_down ⦃o = descending⦄ (suc last) b 0)
sinks last a fits v =
    let h0 : 0 < length a = omega (arith, v.bounded) in
    let hl : suc last < length a = omega (arith, v.bounded) in
    let b = swapped ⦃d = order_default ⦃o = descending⦄⦄ a 0 (suc last) in
    let now = at-swapped ⦃d = order_default ⦃o = descending⦄⦄ a 0 (suc last) h0 hl in
    sift_down-Sifted ⦃o = descending⦄ 0 (suc last) b 0 (fits_index (suc last) fits)
      (omega (arith, length-swapped ⦃d = order_default ⦃o = descending⦄⦄ a 0 (suc last)))
      (omega arith)
      (record {
        edges = λ c p q r t. ground (arith, v.heap c, now c, now (parent c));
        bridged = λ c p q r t u. absurd (omega arith);
      })

-- `b` holds the cells of `a` in ascending order.
abbrev pub Sorts : List ℕ → List ℕ → Type 0
Sorts a b = IsSorted b × Perm b a

sort_loop-Sorts :
    (last : ℕ) (a : List ℕ)
    → last * 2 < 2 ^ 31
    → SortInv (suc last) a
    → Returns (Sorts a) (sort_loop last a)
unfolding sort_loop sift_down_max
sort_loop-Sorts zero a fits v = returns (λ i j p q. v.tail i j p (omega arith) q, Perm.rfl)
sort_loop-Sorts (suc last) a fits v =
    let h0 : 0 < length a = omega (arith, v.bounded) in
    let hl : suc last < length a = omega (arith, v.bounded) in
    let b = swapped ⦃d = order_default ⦃o = descending⦄⦄ a 0 (suc last) in
    let len = length-swapped ⦃d = order_default ⦃o = descending⦄⦄ a 0 (suc last) in
    rw (swap-ok ⦃d = order_default ⦃o = descending⦄⦄ a 0 (suc last) h0 hl) (
      bind (sinks last a fits v) λ c s.
        weaken (sort_loop-Sorts last c (omega (arith, fits)) (round-SortInv last a b c v refl s))
          λ d t. (
            t.0,
            Perm.trans t.1 (
                Perm.trans (Shuffled-perm ⦃o = descending⦄ s.shuffled)
                  (swapped-perm ⦃d = order_default ⦃o = descending⦄⦄ a 0 (suc last) h0 hl)),
          ))

-- For an array of fewer than 2 ^ 30 ints, whose child indices fit in an int, `heap_sort` returns the
-- same ints in ascending order.
pub heap_sort-Sorts : (a : List ℕ) → length a < 2 ^ 30 → Returns (Sorts a) (heap_sort a (length a))
unfolding heap_sort build_max_heap sort_loop
heap_sort-Sorts a few =
    bind
      (build-Sifted ⦃o = descending⦄ (length a / 2) (length a) a
        (fits_index (length a) (omega (arith, few))) (omega arith) (omega arith)
        (λ c p q r. absurd (omega arith)))
      λ b s.
        weaken (sort_heap b (s.shuffled.same_length) s.heap)
          λ c t. (t.0, Perm.trans t.1 (Shuffled-perm ⦃o = descending⦄ s.shuffled))
  where
    sort_heap :
        (b : List ℕ)
        → length b ≡ length a
        → IsHeap ⦃o = descending⦄ (length a) b
        → Returns (Sorts b) (sort_loop (length a - 1) b)
    sort_heap b e h = elim (dec_lt 0 (length a)) [
      | yes p ↦ sort_loop-Sorts (length a - 1) b (omega (arith, few)) (
          let size : suc (length a - 1) ≡ length a = omega arith in
          rw size
            (record { heap = h; tail = λ i j q r u. absurd (omega arith); bounded = omega arith }))
      | no p ↦
          let none_left : length a - 1 ≡ 0 = omega arith in
          rw (none_left, sort_loop) (returns (λ i j q r. absurd (omega arith), Perm.rfl))
    ]
