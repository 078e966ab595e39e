-- ===== src/Heap/Ends.antt =====
-- Both ends of the heap: a new last cell that rises, a root that the last cell replaces, and the
-- construction from below.
use mathlib.Core.Bool.{Bool-set}
use mathlib.Core.List.Perm
use mathlib.Core.List.{Mem, append-nil, perm_middle}
use textbook_c_ds_deep.Prelude.{
  sym, ap, ◌∙◌, Perm, ◌∷◌, [], take-set_le, take-set, length-take, take, false, inl, inr,
  Bool-cases, ltb, ◌==◌, true, ℕ, zero, suc, ◌+◌, ◌*◌, ◌≤◌, ◌<◌, ◌≡◌, List, arith, length, set,
  length-set,
}
use textbook_c_ds_deep.Run.{Returns, returns, bind, weaken, ok}
use textbook_c_ds_deep.Array.{at, at-set, at-take, take-suc, set-perm, all_at-mem}
use textbook_c_ds_deep.Heap.{
  Order, order_default, parent, better, sift_up, sift_down, sift_down_loop, build,
}
use textbook_c_ds_deep.Heap.Invariant.{
  IsHeap, IsHeapFrom, root_first, Sifted, Shuffled-refl, Shuffled-trans,
}
use textbook_c_ds_deep.Heap.Up.{sift_up-Sifted}
use textbook_c_ds_deep.Heap.Down.{child_index-ok, sift_down-Sifted}

module _ {ℓ} {A : Type ℓ} ⦃o : Order A⦄ where
  -- A value written behind the heap rises to its place.
  pub rise-Sifted :
      (size : ℕ) (a : List A) (v : A)
      → size < length a
      → IsHeap size a
      → Returns (Sifted 0 (suc size) (set a size v)) (sift_up (set a size v) size)
  rise-Sifted size a v room h =
      let now = at-set a size in
      sift_up-Sifted (suc size) (set a size v) size (rw length-set room) (record {
        inside = omega arith;
        edges = λ c p q r. ground (arith, h c, now c v, now (parent c) v);
        bridged = λ c p q r s t. absurd (ground arith);
      })

  -- A value written over the root sinks to its place.
  pub sink-Sifted :
      (size : ℕ) (a : List A) (v : A)
      → size * 2 < o.limit
      → 0 < size
      → size ≤ length a
      → IsHeap size a
      → Returns (Sifted 0 size (set a 0 v)) (sift_down size (set a 0 v) 0)
  sink-Sifted size a v fits pos room h =
      let now = at-set a 0 in
      sift_down-Sifted 0 size (set a 0 v) 0 fits (rw length-set room) pos (record {
        edges = λ c p q r s. ground (arith, h c, now c v, now (parent c) v);
        bridged = λ c p q r s t. absurd (omega arith);
      })

  better-absent : (size : ℕ) (a : List A) (best c : ℕ) → size ≤ c → better size a best c ≡ ok best
  unfolding better
  better-absent size a best c h = elim (Bool-cases (ltb c size)) [
    | inl e ↦ absurd (ground arith)
    | inr e ↦ rw e
  ]

  -- A cell without children stays where it is.
  pub sift_down_leaf :
      (size : ℕ) (a : List A) (i : ℕ)
      → 2 * i + 2 < o.limit
      → size ≤ 2 * i + 1
      → sift_down size a i ≡ ok a
  unfolding sift_down
  sift_down_leaf size a i fits h = go (size + 1) (omega arith)
    where
      go : (fuel : ℕ) → 0 < fuel → sift_down_loop fuel size a i ≡ ok a
      go zero p = absurd (omega arith)
      go (suc fuel) p =
          let same : (i == i) ≡ true = ground arith in
          rw (
            child_index-ok o.limit (2 * i + 2) fits,
            better-absent size a i (2 * i + 1) h,
            better-absent size a i (2 * i + 2) (omega arith),
            same,
          )

  -- Sinking the cells from `k - 1` to 0 makes a heap of a tree that is in order from `k` on.
  pub build-Sifted :
      (k size : ℕ) (a : List A)
      → size * 2 < o.limit
      → k ≤ size
      → size ≤ length a
      → IsHeapFrom k size a
      → Returns (Sifted 0 size a) (build k size a)
  unfolding build
  build-Sifted zero size a fits hk room h =
      returns (record { heap = h; shuffled = Shuffled-refl size a })
  build-Sifted (suc i) size a fits hk room h =
      bind
        (sift_down-Sifted i size a i fits room (omega arith) (record {
          edges = λ c p q r s. h c p q (omega arith);
          bridged = λ c p q r s t. absurd (omega arith);
        }))
        λ b s.
          weaken (build-Sifted i size b fits (omega arith) (rw s.shuffled.same_length room) s.heap)
            λ c t. record { heap = t.heap; shuffled = Shuffled-trans s.shuffled t.shuffled }

  -- The cells of a heap with one written behind it.
  pub take-set_last :
      (size : ℕ) (a : List A) (v : A)
      → size < length a
      → Perm (take (suc size) (set a size v)) (v ∷ take size a)
  take-set_last size a v room =
      let inside : size < length (set a size v) = rw length-set room in
      let written : at (set a size v) size ≡ v = ground (arith, at-set a size size v) in
      rw (take-suc size (set a size v) inside, take-set_le size a size v (omega arith), written)
        (rw (append-nil (take size a)) at (perm_middle {a = v} (take size a) []))

  -- The order depends only on the cells of the heap.
  pub IsHeap-take :
      (size : ℕ) (a b : List A) → take size b ≡ take size a → IsHeap size a → IsHeap size b
  IsHeap-take size a b e h c p q r =
      let same : (i : ℕ) → i < size → at b i ≡ at a i =
        λ i f. sym (at-take size b i f) ∙ ap (λ l. at l i) e ∙ at-take size a i f in
      rw (same c q, same (parent c) (omega arith)) (h c p q r)

  -- `c` is a heap of the cells of `a` and `v`.
  pub record Inserted (size : ℕ) (a : List A) (v : A) (room : ℕ) (c : List A) : Type ℓ where
    pub heap : IsHeap (suc size) c
    pub cells : Perm (take (suc size) c) (v ∷ take size a)
    pub block : length c ≡ room

  -- A push into a block `b` that holds the heap of `a`: the old block, or a larger one.
  pub push-Inserted :
      (size : ℕ) (a b : List A) (v : A)
      → take size b ≡ take size a
      → size < length b
      → IsHeap size a
      → Returns (Inserted size a v (length b)) (sift_up (set b size v) size)
  push-Inserted size a b v same room h =
      weaken (rise-Sifted size b v room (IsHeap-take size a b same h)) λ c s. record {
        heap = s.heap;
        cells = rw same at (Perm.trans s.shuffled.front (take-set_last size b v room));
        block = s.shuffled.same_length ∙ length-set b size v;
      }

  -- `c` is a heap of the cells of `a` less its root.
  pub record Removed (size : ℕ) (a c : List A) : Type ℓ where
    pub heap : IsHeap size c
    pub cells : Perm (at a 0 ∷ take size c) (take (suc size) a)
    pub block : length c ≡ length a

  -- The last cell over the root, in the cells before it, trades places with the root.
  take-set_root :
      (size : ℕ) (a : List A)
      → size < length a
      → Perm (at a 0 ∷ take size (set a 0 (at a size))) (take (suc size) a)
  take-set_root zero a room = rw (take-suc 0 a room) Perm.rfl
  take-set_root (suc n) a room =
      rw (take-set (suc n) a 0 (at a (suc n)), take-suc (suc n) a room)
        (Perm.trans
          (rw (at-take (suc n) a 0 (omega arith)) at
            (set-perm (take (suc n) a) 0 (at a (suc n)) (omega (arith, length-take (suc n) a))))
          (Perm.symm (
            rw (append-nil (take (suc n) a)) at
              (perm_middle {a = at a (suc n)} (take (suc n) a) []))))

  pub pop-Removed :
      (size : ℕ) (a : List A)
      → size * 2 < o.limit
      → size < length a
      → IsHeap (suc size) a
      → Returns (Removed size a) (sift_down size (set a 0 (at a size)) 0)
  pop-Removed zero a fits room h = rw (sift_down_leaf 0 (set a 0 (at a 0)) 0 o.wide (omega arith)) (
      returns (record {
        heap = λ c p q r. absurd (omega arith);
        cells = take-set_root 0 a room;
        block = length-set a 0 (at a 0);
      }))
  pop-Removed (suc n) a fits room h =
      weaken
        (sink-Sifted (suc n) a (at a (suc n)) fits (omega arith) (omega arith)
          (λ c p q r. h c p (omega arith) r))
        λ c s. record {
          heap = s.heap;
          cells = Perm.trans (Perm.cons (at a 0) s.shuffled.front) (take-set_root (suc n) a room);
          block = s.shuffled.same_length ∙ length-set a 0 (at a (suc n));
        }

  -- No cell of the heap comes before its root.
  pub root_first_mem :
      (size : ℕ) (a : List A)
      → size ≤ length a
      → IsHeap size a
      → (x : A) → Mem x (take size a)
      → o.less x (at a 0) ≡ false
  root_first_mem size a room h =
      all_at-mem (λ x. o.less x (at a 0) ≡ false) (λ x. Bool-set _ _) (take size a)
        λ i p.
          let hi : i < size = omega (arith, length-take size a) in
          rw (at-take size a i hi) (root_first size a i h hi)
