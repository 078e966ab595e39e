-- ===== src/Heap.antt =====
-- The array heap that min_heap.c, priority_queue.c, event_scheduler.c, task_scheduler.c, dijkstra.c
-- and heap_sort.c each write out for their own cell type: `sift_up` and `sift_down` over an array
-- whose first `size` cells are the heap. The cells are compared by `less` alone.
pub mod Invariant
pub mod Up
pub mod Down
pub mod Ends
pub mod Drain
use textbook_c_ds_deep.Prelude.{
  ℕ, zero, suc, ◌+◌, ◌-◌, ◌*◌, ◌/◌, ◌<◌, ◌≡◌, Bool, true, false, List, ltb, ◌==◌, arith,
  if◌then◌else◌,
}
use textbook_c_ds_deep.Run.{Run, ok, fault, out_of_fuel, ◌>>=◌}
use textbook_c_ds_deep.Array.{Default, load, swap}

-- What the heap needs of the comparison: a strict weak order, `x` before `y`. An index is below `limit`,
-- the bound of its type: 2 ^ 31 for an int, 2 ^ 64 for a size_t.
pub record Order {ℓ} (A : Type ℓ) : Type ℓ where
  pub less : A → A → Bool
  pub sample : A
  pub asym : (x y : A) → less x y ≡ true → less y x ≡ false
  pub negtrans : (x y z : A) → less y x ≡ false → less z y ≡ false → less z x ≡ false
  pub limit : ℕ
  pub wide : 2 < limit

module _ {ℓ} {A : Type ℓ} (key : A → ℕ) where
  pub key_asym : (x y : A) → ltb (key x) (key y) ≡ true → ltb (key y) (key x) ≡ false
  key_asym x y h = ground arith

  pub key_negtrans :
      (x y z : A)
      → ltb (key y) (key x) ≡ false
      → ltb (key z) (key y) ≡ false
      → ltb (key z) (key x) ≡ false
  key_negtrans x y z h k = ground arith

  -- The comparison of a number in each cell.
  abbrev pub order_by : A → (limit : ℕ) → 2 < limit → Order A
  order_by sample limit wide = record {
    less = λ x y. ltb (key x) (key y);
    sample = sample;
    asym = key_asym;
    negtrans = key_negtrans;
    limit = limit;
    wide = wide;
  }

instance abbrev pub order_default {ℓ} : {A : Type ℓ} ⦃o : Order A⦄ → Default A
order_default ⦃o⦄ = record { value = o.sample }

-- A child index that its type does not hold is a fault: an int overflows.
abbrev pub child_index : ℕ → ℕ → Run ℕ
child_index limit n = if ltb n limit then ok n else fault

abbrev pub parent : ℕ → ℕ
parent i = (i - 1) / 2

module _ {ℓ} {A : Type ℓ} ⦃o : Order A⦄ where
  sift_up_loop : ℕ → List A → ℕ → Run (List A)
  sift_up_loop zero a i = out_of_fuel
  sift_up_loop (suc fuel) a i =
      let rise = swap a (parent i) i >>= λ b. sift_up_loop fuel b (parent i) in
      let step : Run (List A) = do
        p ← load a (parent i)
        x ← load a i
        if o.less x p then rise else ok a
      in if ltb 0 i then step else ok a

  -- `while (i > 0)`: an index falls to at most its half, so `i + 1` rounds are enough.
  unfoldable pub sift_up : List A → ℕ → Run (List A)
  unfolding sift_up_loop
  sift_up a i = sift_up_loop (i + 1) a i

  -- `if (c < size && heap[c] < heap[best]) best = c;`
  better : ℕ → List A → ℕ → ℕ → Run ℕ
  better size a best c =
      if ltb c size
      then (do x ← load a c; y ← load a best; ok (if o.less x y then c else best))
      else ok best

  sift_down_loop : ℕ → ℕ → List A → ℕ → Run (List A)
  sift_down_loop zero size a i = out_of_fuel
  sift_down_loop (suc fuel) size a i = do
    right ← child_index o.limit (2 * i + 2)
    left ← better size a i (2 * i + 1)
    smallest ← better size a left right
    let sink = swap a smallest i >>= λ b. sift_down_loop fuel size b smallest
    if smallest == i then ok a else sink

  -- `while (1)`: the index grows and stays below `size`, so `size + 1` rounds are enough.
  unfoldable pub sift_down : ℕ → List A → ℕ → Run (List A)
  unfolding sift_down_loop better
  sift_down size a i = sift_down_loop (size + 1) size a i

  -- `for (i = k - 1; i >= 0; i--) sift_down(i);`
  unfoldable pub build : ℕ → ℕ → List A → Run (List A)
  build zero size a = ok a
  build (suc i) size a = sift_down size a i >>= λ b. build i size b
