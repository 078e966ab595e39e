-- ===== src/Heap/Up.antt =====
-- `sift_up` restores the heap order.
use mathlib.Core.Logic.{◌≢◌}
use textbook_c_ds_deep.Prelude.{ℕ, zero, suc, ◌+◌, ◌≤◌, ◌<◌, ◌≡◌, List, arith, ltb, length, true}
use textbook_c_ds_deep.Run.{Returns, returns, branch}
use textbook_c_ds_deep.Array.{at, swapped, length-swapped, at-swapped, load-ok, swap-ok}
use textbook_c_ds_deep.Heap.{Order, order_default, parent, sift_up_loop, sift_up}
use textbook_c_ds_deep.Heap.Invariant.{LeqAt, IsBridged, Sifted, Sifted-swapped, Shuffled-refl}

module _ {ℓ} {A : Type ℓ} ⦃o : Order A⦄ where
  -- Only the edge above `i` may be out of order.
  pub record UpInv (size : ℕ) (a : List A) (i : ℕ) : Type 0 where
    pub inside : i < size
    pub edges : (c : ℕ) → 0 < c → c < size → c ≢ i → LeqAt a (parent c) c
    pub bridged : IsBridged 0 size a i

  swapped-UpInv :
      (size : ℕ) (a : List A) (i : ℕ)
      → size ≤ length a
      → UpInv size a i
      → 0 < i
      → o.less (at a i) (at a (parent i)) ≡ true
      → UpInv size (swapped a (parent i) i) (parent i)
  swapped-UpInv size a i room v pos below =
      let now = at-swapped a (parent i) i (omega arith) (omega arith) in
      let up = o.asym (at a i) (at a (parent i)) below in
      record {
        inside = omega arith;
        edges = λ c p q r. ground (
          arith,
          now c,
          now (parent c),
          up,
          v.edges c,
          v.bridged c,
          o.negtrans (at a i) (at a (parent i)) (at a c) up,
        );
        bridged = λ c p q r s t. ground (
          arith,
          now c,
          now (parent (parent i)),
          v.edges c,
          v.edges (parent i),
          v.bridged c,
          o.negtrans (at a (parent (parent i))) (at a (parent i)) (at a c),
        );
      }

  sift_up_loop-Sifted :
      (fuel size : ℕ) (a : List A) (i : ℕ)
      → i < fuel
      → size ≤ length a
      → UpInv size a i
      → Returns (Sifted 0 size a) (sift_up_loop fuel a i)
  unfolding sift_up_loop
  sift_up_loop-Sifted zero size a i f room v = absurd (omega arith)
  sift_up_loop-Sifted (suc fuel) size a i f room v =
      let inside = v.inside in
      let above : parent i < length a = omega arith in
      rw
        (
          load-ok a (parent i) above,
          load-ok a i (omega arith),
          swap-ok a (parent i) i above (omega arith),
        )
        (branch (ltb 0 i)
          (λ pos.
            branch (o.less (at a i) (at a (parent i)))
              (λ below. Sifted-swapped {i = parent i} {j = i} (omega arith) inside room (
                sift_up_loop-Sifted fuel size (swapped a (parent i) i) (parent i) (ground arith)
                  (omega (arith, length-swapped a (parent i) i))
                  (swapped-UpInv size a i room v (ground arith) below)))
              (λ settled. returns (record {
                heap = λ c p q r. ground (arith, v.edges c);
                shuffled = Shuffled-refl size a;
              })))
          (λ root. returns (record {
            heap = λ c p q r. v.edges c p q (ground arith);
            shuffled = Shuffled-refl size a;
          })))

  -- `sift_up` from a cell that may be too low makes a heap of the same cells.
  pub sift_up-Sifted :
      (size : ℕ) (a : List A) (i : ℕ)
      → size ≤ length a
      → UpInv size a i
      → Returns (Sifted 0 size a) (sift_up a i)
  unfolding sift_up
  sift_up-Sifted size a i room v = sift_up_loop-Sifted (i + 1) size a i (omega arith) room v
