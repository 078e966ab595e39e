-- ===== src/SimpleSorts/Bubble.antt =====
-- The bubble sort sorts.
use mathlib.Core.List.Perm
use textbook_c_ds_deep.Prelude.{
  ℕ, zero, suc, ◌+◌, ◌-◌, ◌≤◌, ◌<◌, ◌≡◌, refl, sym, ◌∙◌, Bool, List, Perm, arith, length, ltb, leb,
  ◌==◌, true, false, inl, inr, Bool-cases,
}
use textbook_c_ds_deep.Run.{Returns, returns, bind, branch, weaken}
use textbook_c_ds_deep.Array.{at, swapped, swapped-perm, length-swapped, at-swapped, load-ok}
use textbook_c_ds_deep.SimpleSorts.{SortStats, compared, bubble_pass, bubble_loop, bubble_sort_stat}
use textbook_c_ds_deep.SimpleSorts.Ordered.{
  int_default, Sorts, Exchanged, exchange-Exchanged, swapped_bound,
}

-- What a pass up to cell `m` leaves: the greatest of those cells in the last of them. A pass from `j`
-- on without an exchange found them in order.
record Passed (j m : ℕ) (swapped_ : Bool) (a : List ℕ) (out : Bool × List ℕ × SortStats)
    : Type 0 where
  same : length out.1 ≡ length a
  cells : Perm out.1 a
  beyond : (k : ℕ) → m < k → at out.1 k ≡ at a k
  greatest : (k : ℕ) → k ≤ m → at out.1 k ≤ at out.1 m
  bound : (b : ℕ) → ((k : ℕ) → k < suc m → at a k ≤ b) → (k : ℕ) → k < suc m → at out.1 k ≤ b
  calm :
      out.0 ≡ false
      → (swapped_ ≡ false) × (out.1 ≡ a) × ((k : ℕ) → j ≤ k → k < m → at a k ≤ at a (k + 1))

later :
    (j : ℕ) (a : List ℕ)
    → j < length a
    → j + 1 < length a
    → ((k : ℕ) → k ≤ j → at a k ≤ at a j)
    → ltb (at a (j + 1)) (at a j) ≡ true
    → (k : ℕ) → k ≤ j + 1
    → at (swapped a j (j + 1)) k ≤ at (swapped a j (j + 1)) (j + 1)
later j a hj hk top greater k p =
    let now = at-swapped a j (j + 1) hj hk k in
    let there = at-swapped a j (j + 1) hj hk (j + 1) in
    elim (Bool-cases (k == j + 1)) [
      | inl same ↦ let e : k ≡ j + 1 = ground arith in rw e (omega arith)
      | inr other ↦ let t = top k (ground arith) in ground (arith, now, there)
    ]

bubble_pass-Passed :
    (rounds j m : ℕ) (swapped_ : Bool) (a : List ℕ) (s : SortStats)
    → j + rounds ≡ m
    → m < length a
    → ((k : ℕ) → k ≤ j → at a k ≤ at a j)
    → Returns (Passed j m swapped_ a) (bubble_pass rounds j swapped_ a s)
unfolding bubble_pass Exchanged
bubble_pass-Passed zero j m sw a s total h top =
    let e : j ≡ m = omega arith in
    returns (record {
      same = refl;
      cells = Perm.rfl;
      beyond = λ k p. refl;
      greatest = rw e at top;
      bound = λ b q. q;
      calm = λ c. (c, refl, λ k p q. absurd (omega (arith, p, q, e)));
    })
bubble_pass-Passed (suc rounds) j m sw a s total h top =
    let hj : j < length a = omega arith in
    let hk : j + 1 < length a = omega arith in
    rw (load-ok a j hj, load-ok a (j + 1) hk)
      (branch (ltb (at a (j + 1)) (at a j))
        (λ greater. bind (exchange-Exchanged a (compared s) j (j + 1) hj hk) λ out e.
          let b = swapped a j (j + 1) in
          let now = at-swapped a j (j + 1) hj hk in
          let len = length-swapped a j (j + 1) in
          rw e (
            weaken
              (bubble_pass-Passed rounds (j + 1) m true b out.1 (omega arith) (omega (arith, len))
                (later j a hj hk top greater))
              λ fin r. record {
                same = r.same ∙ len;
                cells = Perm.trans r.cells (swapped-perm a j (j + 1) hj hk);
                beyond = λ k p. r.beyond k p ∙ (let t = now k in ground (arith, total));
                greatest = r.greatest;
                bound = λ x q. r.bound x (
                    swapped_bound a j (j + 1) (suc m) x (omega arith) (omega arith) (omega arith)
                      q);
                calm = λ c. let no_ : true ≡ false = (r.calm c).0 in absurd cc;
              }))
        (λ lower.
          weaken
            (bubble_pass-Passed rounds (j + 1) m sw a (compared s) (omega arith) h (λ k p.
              elim (Bool-cases (leb k j)) [
                | inl before ↦ let t = top k (ground arith) in ground arith
                | inr last ↦ let e : k ≡ j + 1 = ground arith in rw e (omega arith)
              ]))
            λ fin r. record {
              same = r.same;
              cells = r.cells;
              beyond = r.beyond;
              greatest = r.greatest;
              bound = r.bound;
              calm = λ c.
                  let (calm_, kept, rest) = r.calm c in
                  (
                    calm_,
                    kept,
                    λ k p q. elim (Bool-cases (k == j)) [
                      | inl same ↦ let e : k ≡ j = ground arith in rw e (ground arith)
                      | inr other ↦ rest k (ground arith) q
                    ],
                  );
            }))

-- The cells of the first `n`, from `t` on, are in place: none before is greater.
InPlace : ℕ → ℕ → List ℕ → Type 0
InPlace t n a = (j k : ℕ) → j < k → k < n → t ≤ k → at a j ≤ at a k

-- Neighbours in order up to `m`: cells in order.
neighbours :
    (m : ℕ) (a : List ℕ)
    → ((k : ℕ) → k < m → at a k ≤ at a (k + 1))
    → (j k : ℕ) → j < k
    → k ≤ m
    → at a j ≤ at a k
neighbours m a h j zero p q = absurd (omega (arith, p))
neighbours m a h j (suc k) p q =
    let step = h k (omega (arith, q)) in
    let e : k + 1 ≡ suc k = omega arith in
    let step2 = rw e at step in
    elim (Bool-cases (j == k)) [
      | inl same ↦ let f : j ≡ k = ground arith in rw f step2
      | inr other ↦
          let t = neighbours m a h j k (ground arith) (omega (arith, q)) in omega (arith, t, step2)
    ]

-- A pass puts one more cell in place.
place :
    (m n : ℕ) (a : List ℕ) (out : Bool × List ℕ × SortStats)
    → m < n
    → n ≤ length a
    → InPlace (suc m) n a
    → Passed 0 m false a out
    → InPlace m n out.1
unfolding InPlace
place m n a out hm hn h r j k p q t = elim (Bool-cases (k == m)) [
  | inl same ↦ let e : k ≡ m = ground arith in rw e (r.greatest j (omega (arith, p, e)))
  | inr other ↦
      let after : m < k = ground arith in
      let kept = r.beyond k after in
      elim (Bool-cases (leb j m)) [
        | inl front ↦
            let b =
              r.bound (at a k) (λ i v. h i k (omega arith) q (omega arith)) j (ground arith) in
            rw kept b
        | inr back ↦
            let other_kept = r.beyond j (ground arith) in
            rw (kept, other_kept) (h j k p q (omega arith))
      ]
]

bubble_loop-Sorts :
    (rounds i n : ℕ) (a : List ℕ) (s : SortStats)
    → n ≡ length a
    → i + rounds ≡ n - 1
    → InPlace (n - i) n a
    → Returns (λ (out : List ℕ × SortStats). Sorts a out.0) (bubble_loop rounds i n a s)
unfolding bubble_loop InPlace
bubble_loop-Sorts zero i n a s size total h =
    returns (λ j k p q. h j k p (omega (arith, q, size)) (omega (arith, p, total)), Perm.rfl)
bubble_loop-Sorts (suc rounds) i n a s size total h =
    let m = n - 1 - i in
    let inside : m < length a = omega arith in
    let e : n - i ≡ suc m = omega arith in
    bind
      (bubble_pass-Passed m 0 m false a s (omega arith) inside
        (λ k p. let z : k ≡ 0 = omega (arith, p) in rw z (omega arith)))
      λ out r.
        let sorted = place m n a out (omega arith) (omega arith) (rw e at h) r in
        let f : n - (i + 1) ≡ m = omega arith in
        branch out.0
          (λ again.
            weaken
              (bubble_loop-Sorts rounds (i + 1) n out.1 out.2 (size ∙ sym r.same) (omega arith)
                (rw f sorted))
              λ fin t. (t.0, Perm.trans t.1 r.cells))
          (λ calm.
            let (_, kept, flat) = r.calm calm in
            returns (
              (λ j k p q. elim (Bool-cases (leb m k)) [
                | inl last ↦ sorted j k p (omega (arith, q, r.same, size)) (ground arith)
                | inr front ↦
                    rw kept (neighbours m a (λ l v. flat l (omega arith) v) j k p (ground arith))
              ]),
              r.cells,
            ))

-- For every array `bubble_sort_stat` returns its ints in ascending order, also where a pass without an
-- exchange ends it early.
pub bubble_sort_stat-Sorts :
    (a : List ℕ) (s : SortStats) → Returns (λ out. Sorts a out.0) (bubble_sort_stat a (length a) s)
unfolding bubble_sort_stat InPlace
bubble_sort_stat-Sorts a s =
    bubble_loop-Sorts (length a - 1) 0 (length a) a s refl (omega arith)
      (λ j k p q t. absurd (omega arith))
