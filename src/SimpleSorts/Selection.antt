-- ===== src/SimpleSorts/Selection.antt =====
-- The selection sort sorts.
use mathlib.Core.List.Perm
use textbook_c_ds_deep.Prelude.{
  ℕ, zero, suc, ◌+◌, ◌-◌, ◌≤◌, ◌<◌, ◌≡◌, refl, List, Perm, arith, length, ltb, ◌==◌, if◌then◌else◌,
  inl, inr, Bool-cases,
}
use textbook_c_ds_deep.Run.{ok, Returns, returns, bind, branch, weaken}
use textbook_c_ds_deep.Array.{at, swapped, swapped-perm, length-swapped, at-swapped, load-ok}
use textbook_c_ds_deep.SimpleSorts.{
  SortStats, compared, select_loop, selection_loop, selection_sort_stat, exchange,
}
use textbook_c_ds_deep.SimpleSorts.Ordered.{int_default, Sorts, Exchanged, exchange-Exchanged}

-- `m` is the place of a least cell among those from `i` to before `stop`.
pub IsLeast : List ℕ → ℕ → ℕ → ℕ → Type 0
IsLeast a i stop m = (i ≤ m) × (m < stop) × ((k : ℕ) → i ≤ k → k < stop → at a m ≤ at a k)

select_loop-IsLeast :
    (rounds j m i n : ℕ) (a : List ℕ) (s : SortStats)
    → n ≤ length a
    → j + rounds ≡ n
    → IsLeast a i j m
    → Returns (λ (out : ℕ × SortStats). IsLeast a i n out.0) (select_loop rounds j m a s)
unfolding select_loop IsLeast
select_loop-IsLeast zero j m i n a s h total l = let e : j ≡ n = omega arith in returns (rw e at l)
select_loop-IsLeast (suc rounds) j m i n a s h total (lo, hi, least) =
    rw (load-ok a j (omega arith), load-ok a m (omega (arith, hi)))
      (branch (ltb (at a j) (at a m))
        (λ less. select_loop-IsLeast rounds (j + 1) j i n a (compared s) h (omega arith) (
          omega (arith, lo, hi),
          omega arith,
          λ k p q. elim (Bool-cases (k == j)) [
            | inl same ↦ let e : k ≡ j = ground arith in rw e (omega arith)
            | inr other ↦ let b = least k p (ground arith) in ground arith
          ],
        ))
        (λ more. select_loop-IsLeast rounds (j + 1) m i n a (compared s) h (omega arith) (
          lo,
          omega (arith, hi),
          λ k p q. elim (Bool-cases (k == j)) [
            | inl same ↦ let e : k ≡ j = ground arith in rw e (ground arith)
            | inr other ↦ least k p (ground arith)
          ],
        )))

-- The first `i` cells ascend and no cell behind them is less.
abbrev Settled : ℕ → List ℕ → Type 0
Settled i a = (j k : ℕ) → j < i → j < k → k < length a → at a j ≤ at a k

swapped-Settled :
    (i m : ℕ) (a : List ℕ)
    → i ≤ m
    → m < length a
    → Settled i a
    → ((k : ℕ) → i ≤ k → k < length a → at a m ≤ at a k)
    → Settled (i + 1) (swapped a i m)
swapped-Settled i m a le inside h least j k p q r =
    let hi : i < length a = omega (arith, le, inside) in
    let len = length-swapped a i m in
    let in_k : k < length a = omega (arith, len, r) in
    let at_k = at-swapped a i m hi inside k in
    elim (Bool-cases (j == i)) [
      | inl same ↦
          let e : j ≡ i = ground arith in
          let at_i = at-swapped a i m hi inside i in
          let of_i = least i (omega arith) hi in
          let of_k = least k (omega (arith, q, e)) in_k in
          rw e (ground (arith, at_i, at_k, of_i, of_k, q, e))
      | inr other ↦
          let at_j = at-swapped a i m hi inside j in
          let before : j < i = ground arith in
          let j_i = h j i before before hi in
          let j_m = h j m before (omega (arith, before, le)) inside in
          let j_k = h j k before q in_k in ground (arith, at_j, at_k, j_i, j_m, j_k)
    ]

-- Nothing moves where the least of the rest is in its place.
kept-Settled :
    (i : ℕ) (a : List ℕ)
    → Settled i a
    → ((k : ℕ) → i ≤ k → k < length a → at a i ≤ at a k)
    → Settled (i + 1) a
kept-Settled i a h least j k p q r = elim (Bool-cases (j == i)) [
  | inl same ↦ let e : j ≡ i = ground arith in rw e (least k (omega (arith, q, e)) r)
  | inr other ↦ h j k (ground arith) q r
]

-- One exchange: the rest is settled further, and the cells are the same.
Step : ℕ → List ℕ → List ℕ × SortStats → Type 0
Step i a (b, s) = Settled (i + 1) b × (length b ≡ length a) × Perm b a

select_once :
    (i m : ℕ) (a : List ℕ) (s : SortStats)
    → IsLeast a i (length a) m
    → Settled i a
    → Returns (Step i a) (if m == i then ok (a, s) else exchange a s i m)
unfolding IsLeast Step Exchanged
select_once i m a s (lo, hi, least) h =
    branch (m == i)
      (λ same.
        let e : m ≡ i = ground arith in
        returns (kept-Settled i a h (rw e at least), refl, Perm.rfl))
      (λ other. weaken (exchange-Exchanged a s i m (omega (arith, lo, hi)) hi) λ out e. rw e (
        swapped-Settled i m a lo hi h least,
        length-swapped a i m,
        swapped-perm a i m (omega (arith, lo, hi)) hi,
      ))

selection_loop-Sorts :
    (rounds i n : ℕ) (a : List ℕ) (s : SortStats)
    → length a ≡ n
    → i + rounds ≡ n - 1
    → Settled i a
    → Returns (λ (out : List ℕ × SortStats). Sorts a out.0) (selection_loop rounds i n a s)
unfolding selection_loop IsLeast Step
selection_loop-Sorts zero i n a s len total h =
    returns (λ j k p q. h j k (omega (arith, len, total, p, q)) p q, Perm.rfl)
selection_loop-Sorts (suc rounds) i n a s len total h =
    bind
      (select_loop-IsLeast (n - (i + 1)) (i + 1) i i n a s (omega (arith, len))
        (omega (arith, total))
        (
          omega arith,
          omega arith,
          λ k p q. let e : k ≡ i = omega (arith, p, q) in rw e (omega arith),
        ))
      λ out l. bind (select_once i out.0 a out.1 (rw len l) h) λ next st.
        weaken
          (selection_loop-Sorts rounds (i + 1) n next.0 next.1 (omega (arith, st.1, len))
            (omega (arith, total)) st.0)
          λ last t. (t.0, Perm.trans t.1 st.2)

-- For every array `selection_sort_stat` returns its ints in ascending order.
pub selection_sort_stat-Sorts :
    (a : List ℕ) (s : SortStats)
    → Returns (λ out. Sorts a out.0) (selection_sort_stat a (length a) s)
unfolding selection_sort_stat
selection_sort_stat-Sorts a s =
    selection_loop-Sorts (length a - 1) 0 (length a) a s refl (omega arith)
      (λ j k p q r. absurd (omega arith))
