-- ===== src/Heap/Invariant.antt =====
-- The heap order on the first `size` cells of an array.
use mathlib.Core.List.Perm
use textbook_c_ds_deep.Prelude.{
  ℕ, zero, suc, ◌-◌, ◌+◌, ◌≤◌, ◌<◌, ◌≡◌, refl, ◌∙◌, inl, inr, false, List, Perm, arith, length,
  take, drop, length-take, take-append-drop, Bool-cases,
}
use textbook_c_ds_deep.Run.{Run, Returns, weaken}
use textbook_c_ds_deep.Array.{
  at, at-drop, at-take, mem-at, all_at-mem, swapped, length-swapped, swapped-perm, take-swapped,
  drop-swapped,
}
use textbook_c_ds_deep.Heap.{Order, order_default, parent}

module _ {ℓ} {A : Type ℓ} ⦃o : Order A⦄ where
  -- `y` does not come before `x`
  abbrev pub LeqAt : List A → ℕ → ℕ → Type 0
  LeqAt a i j = o.less (at a j) (at a i) ≡ false

  -- Every edge of the tree whose upper end is at `lo` or later is in order.
  abbrev pub IsHeapFrom : ℕ → ℕ → List A → Type 0
  IsHeapFrom lo size a = (c : ℕ) → 0 < c → c < size → lo ≤ parent c → LeqAt a (parent c) c

  abbrev pub IsHeap : ℕ → List A → Type 0
  IsHeap size a = IsHeapFrom 0 size a

  -- The parent of `i` is in order with the children of `i`.
  abbrev pub IsBridged : ℕ → ℕ → List A → ℕ → Type 0
  IsBridged lo size a i =
      (c : ℕ) → 0 < c → c < size → parent c ≡ i → 0 < i → lo ≤ parent i → LeqAt a (parent i) c

  -- `b` has the first `size` cells of `a` in another order, and the same cells behind them.
  pub record Shuffled (size : ℕ) (a b : List A) : Type ℓ where
    pub front : Perm (take size b) (take size a)
    pub back : drop size b ≡ drop size a
    pub same_length : length b ≡ length a

  pub record Sifted (lo size : ℕ) (a b : List A) : Type ℓ where
    pub heap : IsHeapFrom lo size b
    pub shuffled : Shuffled size a b

  pub Shuffled-refl : (size : ℕ) (a : List A) → Shuffled size a a
  Shuffled-refl size a = record { front = Perm.rfl; back = refl; same_length = refl }

  pub Shuffled-trans :
      {size : ℕ} {a b c : List A} → Shuffled size a b → Shuffled size b c → Shuffled size a c
  Shuffled-trans s t = record {
    front = Perm.trans t.front s.front;
    back = t.back ∙ s.back;
    same_length = t.same_length ∙ s.same_length;
  }

  pub Shuffled-swapped :
      (size : ℕ) (a : List A) (i j : ℕ)
      → i < size
      → j < size
      → size ≤ length a
      → Shuffled size a (swapped a i j)
  Shuffled-swapped size a i j hi hj room =
      let inside : length (take size a) ≡ size = omega (arith, length-take size a) in
      record {
        front =
            rw (take-swapped size a i j hi hj)
              (swapped-perm (take size a) i j (omega arith) (omega arith));
        back = drop-swapped size a i j hi hj;
        same_length = length-swapped a i j;
      }

  -- A sift that begins with an exchange inside the heap.
  pub Sifted-swapped :
      {lo size i j : ℕ} {a : List A} {m : Run (List A)}
      → i < size
      → j < size
      → size ≤ length a
      → Returns (Sifted lo size (swapped a i j)) m
      → Returns (Sifted lo size a) m
  Sifted-swapped hi hj room run = weaken run λ b s. record {
    heap = s.heap;
    shuffled = Shuffled-trans (Shuffled-swapped _ _ _ _ hi hj room) s.shuffled;
  }

  root_first_below :
      (k size : ℕ) (a : List A) (i : ℕ) → IsHeap size a → i < k → i < size → LeqAt a 0 i
  root_first_below zero size a i h f p = absurd (omega arith)
  root_first_below (suc k) size a zero h f p = elim (Bool-cases (o.less (at a 0) (at a 0))) [
    | inl e ↦ o.asym (at a 0) (at a 0) e
    | inr e ↦ e
  ]
  root_first_below (suc k) size a (suc i) h f p =
      o.negtrans (at a 0) (at a (parent (suc i))) (at a (suc i))
        (root_first_below k size a (parent (suc i)) h (omega arith) (omega arith))
        (h (suc i) (omega arith) p (omega arith))

  -- Nothing in a heap comes before its root.
  pub root_first : (size : ℕ) (a : List A) (i : ℕ) → IsHeap size a → i < size → LeqAt a 0 i
  root_first size a i h p = root_first_below (suc i) size a i h (omega arith) p

  module _ {size : ℕ} {a b : List A} (s : Shuffled size a b) where
    -- The cells behind the heap are not touched.
    pub Shuffled-at : (j : ℕ) → size ≤ j → at b j ≡ at a j
    Shuffled-at j h =
        let k : ℕ = j - size in
        let e : size + k ≡ j = omega arith in
        rw (← e, ← at-drop size b k, ← at-drop size a k, s.back)

    -- What holds of every cell of the heap still does.
    pub Shuffled-all {κ} :
        (P : A → Type κ)
        → ((x : A) → IsProp (P x))
        → size ≤ length a
        → ((k : ℕ) → k < size → P (at a k))
        → (i : ℕ) → i < size
        → P (at b i)
    Shuffled-all P prop room h i hi =
        let la = length-take size a in
        let lb = length-take size b in
        let same = s.same_length in
        let member = mem-at (take size b) i (omega arith) in
        let moved = (Perm.mem_iff s.front).0 (rw (at-take size b i hi) at member) in
        all_at-mem P prop (take size a)
          (λ k p. rw (at-take size a k (omega arith)) (h k (omega arith))) (at b i) moved

    -- The whole block keeps its cells.
    pub Shuffled-perm : Perm b a
    Shuffled-perm =
        rw (← take-append-drop size b, ← take-append-drop size a, s.back)
          (Perm.append_right (drop size a) s.front)
