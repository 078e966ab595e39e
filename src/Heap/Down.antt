-- ===== src/Heap/Down.antt =====
-- `sift_down` restores the heap order.
use mathlib.Core.Logic.{◌≢◌}
use textbook_c_ds_deep.Prelude.{
  ℕ, zero, suc, ◌+◌, ◌-◌, ◌*◌, ◌≤◌, ◌<◌, ◌≡◌, Bool-cases, ◌⊎◌, inl, inr, List, arith, ltb, ◌==◌,
  length, true,
}
use textbook_c_ds_deep.Run.{Returns, returns, branch, ok}
use textbook_c_ds_deep.Array.{at, swapped, length-swapped, at-swapped, load-ok, swap-ok}
use textbook_c_ds_deep.Heap.{
  Order, order_default, parent, better, child_index, sift_down_loop, sift_down,
}
use textbook_c_ds_deep.Heap.Invariant.{LeqAt, IsBridged, Sifted, Sifted-swapped, Shuffled-refl}

pub child_index-ok : (limit n : ℕ) → n < limit → child_index limit n ≡ ok n
child_index-ok limit n h = let e : ltb n limit ≡ true = ground arith in rw e

module _ {ℓ} {A : Type ℓ} ⦃o : Order A⦄ where
  -- Only the edges below `i` may be out of order.
  pub record DownInv (lo size : ℕ) (a : List A) (i : ℕ) : Type 0 where
    pub edges : (c : ℕ) → 0 < c → c < size → lo ≤ parent c → parent c ≢ i → LeqAt a (parent c) c
    pub bridged : IsBridged lo size a i

  Leq-refl : (a : List A) (i : ℕ) → LeqAt a i i
  Leq-refl a i = ground (arith, o.asym (at a i) (at a i))

  -- What one comparison leaves in `best`.
  record IsBetter (size : ℕ) (a : List A) (best c m : ℕ) : Type 0 where
    inside : m < size
    either : (m ≡ best) ⊎ (m ≡ c)
    not_after : LeqAt a m best
    not_after_other : c < size → LeqAt a m c
    moved : m ≢ best → o.less (at a m) (at a best) ≡ true

  better-IsBetter :
      (size : ℕ) (a : List A) (best c : ℕ)
      → size ≤ length a
      → best < size
      → (m : ℕ) × (better size a best c ≡ ok m) × IsBetter size a best c m
  unfolding better
  better-IsBetter size a best c room h = elim (Bool-cases (ltb c size)) [
    | inr e ↦ (best, rw e, ground (arith, Leq-refl a best))
    | inl e ↦
        let hc : c < length a = ground arith in
        let hb : best < length a = omega arith in
        elim (Bool-cases (o.less (at a c) (at a best))) [
          | inl f ↦ (
            c,
            rw (e, load-ok a c hc, load-ok a best hb, f),
            ground (arith, Leq-refl a c, o.asym (at a c) (at a best)),
          )
          | inr f ↦
              (best, rw (e, load-ok a c hc, load-ok a best hb, f), ground (arith, Leq-refl a best))
        ]
  ]

  -- `m` is `i`, or a child of `i` before it; no child of `i` comes before `m`.
  record IsFirst (size : ℕ) (a : List A) (i m : ℕ) : Type 0 where
    inside : m < size
    child : (m ≡ i) ⊎ ((m ≡ 2 * i + 1) ⊎ (m ≡ 2 * i + 2))
    before : m ≢ i → o.less (at a m) (at a i) ≡ true
    least : (c : ℕ) → 0 < c → c < size → parent c ≡ i → LeqAt a m c

  swapped-DownInv :
      (lo size : ℕ) (a : List A) (i m : ℕ)
      → size ≤ length a
      → DownInv lo size a i
      → IsFirst size a i m
      → m ≢ i
      → i < size
      → DownInv lo size (swapped a m i) m
  swapped-DownInv lo size a i m room v s apart hi =
      let now = at-swapped a m i (omega arith) (omega arith) in
      let down = o.asym (at a m) (at a i) (s.before apart) in
      record {
        edges = λ c p q r t.
            ground (arith, now c, now (parent c), v.edges c, v.bridged m, s.least c, down);
        bridged = λ c p q r t u. ground (arith, now c, now (parent m), v.edges c);
      }

  IsBetter-IsFirst :
      (size : ℕ) (a : List A) (i left m : ℕ)
      → IsBetter size a i (2 * i + 1) left
      → IsBetter size a left (2 * i + 2) m
      → IsFirst size a i m
  IsBetter-IsFirst size a i left m s t = record {
    inside = t.inside;
    child = ground (arith, s.either, t.either);
    before = ground (
      arith,
      s.moved,
      t.moved,
      o.negtrans (at a left) (at a i) (at a m),
      o.asym (at a left) (at a i),
    );
    least = λ c p q e.
        ground
          (arith, s.not_after_other, t.not_after_other, o.negtrans (at a m) (at a left) (at a c));
  }

  sift_down_loop-Sifted :
      (fuel lo size : ℕ) (a : List A) (i : ℕ)
      → size * 2 < o.limit
      → size - i < fuel
      → size ≤ length a
      → i < size
      → DownInv lo size a i
      → Returns (Sifted lo size a) (sift_down_loop fuel size a i)
  unfolding sift_down_loop
  sift_down_loop-Sifted zero lo size a i fits f room hi v = absurd (omega arith)
  sift_down_loop-Sifted (suc fuel) lo size a i fits f room hi v =
      let (left, e, s) = better-IsBetter size a i (2 * i + 1) room hi in
      let (m, e', t) = better-IsBetter size a left (2 * i + 2) room s.inside in
      let first = IsBetter-IsFirst size a i left m s t in
      rw
        (
          child_index-ok o.limit (2 * i + 2) (omega (arith, fits, hi)),
          e,
          e',
          swap-ok a m i (omega (arith, t.inside)) (omega arith),
        )
        (branch (m == i)
          (λ settled. returns (record {
            heap = λ c p q r. ground (arith, v.edges c, first.least c);
            shuffled = Shuffled-refl size a;
          }))
          (λ sinks. Sifted-swapped {i = m} {j = i} t.inside hi room (
            sift_down_loop-Sifted fuel lo size (swapped a m i) m fits
              (ground (arith, first.child, t.inside)) (omega (arith, length-swapped a m i)) t.inside
              (swapped-DownInv lo size a i m room v first (ground arith) hi))))

  -- `sift_down` from a cell that may be too high extends the order to that cell.
  pub sift_down-Sifted :
      (lo size : ℕ) (a : List A) (i : ℕ)
      → size * 2 < o.limit
      → size ≤ length a
      → i < size
      → DownInv lo size a i
      → Returns (Sifted lo size a) (sift_down size a i)
  unfolding sift_down
  sift_down-Sifted lo size a i fits room hi v =
      sift_down_loop-Sifted (size + 1) lo size a i fits (omega arith) room hi v
