-- ===== src/Heap/Drain.antt =====
-- Pops in a row: what a loop that keeps popping has taken out, and what it leaves.
use mathlib.Core.List.{Pairwise, mem-append_left, mem-cons_of_mem}
use mathlib.Core.List.Perm
use textbook_c_ds_deep.Prelude.{
  ℕ, suc, ◌≤◌, ◌<◌, ◌≡◌, refl, ◌∙◌, false, List, [], ◌∷◌, ◌++◌, Perm, arith, length, take,
}
use textbook_c_ds_deep.Array.{at}
use textbook_c_ds_deep.Heap.{Order, order_default}
use textbook_c_ds_deep.Heap.Invariant.{IsHeap}
use textbook_c_ds_deep.Heap.Ends.{Removed, root_first_mem}

module _ {ℓ} {A : Type ℓ} ⦃o : Order A⦄ where
  -- No value comes before an earlier one.
  abbrev pub InOrder : List A → Type ℓ
  InOrder = Pairwise (λ x y. o.less y x ≡ false)

  -- `out` has been taken, in order, from the heap `a`; the heap `b` of `left` cells is left.
  pub record Drained (size : ℕ) (a out : List A) (left : ℕ) (b : List A) : Type ℓ where
    pub sorted : InOrder out
    pub cells : Perm (out ++ take left b) (take size a)
    pub heap : IsHeap left b
    pub block : length b ≡ length a
    pub fewer : left ≤ size

  pub Drained-none : (size : ℕ) (a : List A) → IsHeap size a → Drained size a [] size a
  Drained-none size a h = record {
    sorted = Pairwise.nil;
    cells = Perm.rfl;
    heap = h;
    block = refl;
    fewer = omega arith;
  }

  pub Drained-cons :
      (size left : ℕ) (a b c out : List A)
      → size < length a
      → IsHeap (suc size) a
      → Removed size a c
      → Drained size c out left b
      → Drained (suc size) a (at a 0 ∷ out) left b
  Drained-cons size left a b c out room h r d =
      let cells = Perm.trans (Perm.cons (at a 0) d.cells) r.cells in
      record {
        sorted =
            Pairwise.cons
              (λ y m. root_first_mem (suc size) a room h y (
                (Perm.mem_iff cells).0
                  (mem-cons_of_mem (at a 0) (mem-append_left (take left b) m))))
              d.sorted;
        cells = cells;
        heap = d.heap;
        block = d.block ∙ r.block;
        fewer = omega (arith, d.fewer);
      }
