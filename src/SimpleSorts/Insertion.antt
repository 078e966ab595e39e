-- ===== src/SimpleSorts/Insertion.antt =====
-- The insertion sort sorts.
use mathlib.Core.List.Perm
use textbook_c_ds_deep.Prelude.{
  ℕ, zero, suc, ◌+◌, ◌-◌, ◌≤◌, ◌<◌, ◌≡◌, refl, ◌∙◌, List, ◌∷◌, Perm, arith, length, set, length-set,
  ltb, ◌==◌, false, inl, inr, Bool-cases,
}
use textbook_c_ds_deep.Run.{Returns, returns, bind, branch, weaken}
use textbook_c_ds_deep.Array.{at, at-set, set-perm, load-ok, store-ok}
use textbook_c_ds_deep.SimpleSorts.{
  SortStats, compared, shift_loop, insertion_loop, insertion_sort_stat, write_and_count,
}
use textbook_c_ds_deep.SimpleSorts.Ordered.{int_default, Sorts}

-- The first `n` cells ascend.
abbrev Settled : ℕ → List ℕ → Type 0
Settled n a = (j k : ℕ) → j < k → k < n → at a j ≤ at a k

-- While the hole at `hole` is open: with the key in it, the first `n` cells ascend but for the cells
-- before the hole, which are to be compared with the key, and those behind it are greater.
record Open (hole n key : ℕ) (a orig : List ℕ) : Type 0 where
  inside : hole < n
  room : n ≤ length a
  front : (j k : ℕ) → j < k → k < n → ¬ (j ≡ hole) → ¬ (k ≡ hole) → at a j ≤ at a k
  behind : (k : ℕ) → hole < k → k < n → key ≤ at a k
  cells : Perm (set a hole key) orig
  same : length a ≡ length orig
  beyond : (k : ℕ) → n ≤ k → at a k ≡ at orig k

-- What the insertion of cell `n - 1` leaves.
Inserted : ℕ → List ℕ → List ℕ × SortStats → Type 0
Inserted n orig (b, s) =
    Settled n b × Perm b orig × (length b ≡ length orig) × ((k : ℕ) → n ≤ k → at b k ≡ at orig k)

filled-Settled :
    (hole n key : ℕ) (a orig : List ℕ)
    → Open hole n key a orig
    → ((j : ℕ) → j < hole → at a j ≤ key)
    → Settled n (set a hole key)
filled-Settled hole n key a orig o before j k p q =
    let hi : hole < length a = omega (arith, o.inside, o.room) in
    let at_j = at-set a hole j key hi in
    let at_k = at-set a hole k key hi in
    elim (Bool-cases (hole == j)) [
      | inl is_j ↦ let b = o.behind k (ground arith) q in ground (arith, at_j, at_k)
      | inr not_j ↦ elim (Bool-cases (hole == k)) [
        | inl is_k ↦ let b = before j (ground arith) in ground (arith, at_j, at_k)
        | inr not_k ↦
            let f = o.front j k p q (λ e. ground arith) (λ e. ground arith) in
            ground (arith, at_j, at_k)
      ]
    ]

-- The key goes into the hole, when no cell before it is greater.
fill-Inserted :
    (hole n key : ℕ) (a orig : List ℕ) (s : SortStats)
    → Open hole n key a orig
    → ((j : ℕ) → j < hole → at a j ≤ key)
    → Returns (Inserted n orig) (write_and_count a s hole key)
unfolding write_and_count Inserted
fill-Inserted hole n key a orig s o before =
    let hi : hole < length a = omega (arith, o.inside, o.room) in
    rw (store-ok a hole key hi) (
      returns (
        filled-Settled hole n key a orig o before,
        o.cells,
        length-set a hole key ∙ o.same,
        λ k p.
            let differs : (hole == k) ≡ false = ground (arith, o.inside) in
            at-set a hole k key hi ∙ rw differs (o.beyond k p),
      ))

-- The cell before the hole moves into it: with the key in the hole, the cells are the same.
shifted-perm :
    (j key : ℕ) (a : List ℕ)
    → suc j < length a
    → Perm (set (set a (suc j) (at a j)) j key) (set a (suc j) key)
shifted-perm j key a h =
    let x = at a j in
    let old = at a (suc j) in
    let a' = set a (suc j) x in
    let inside : j < length a' = omega (arith, length-set a (suc j) x, h) in
    let differs : (suc j == j) ≡ false = ground arith in
    let kept : at a' j ≡ x = at-set a (suc j) j x h ∙ rw differs refl in
    let in_hole : Perm (x ∷ set a' j key) (key ∷ a') = rw kept at (set-perm a' j key inside) in
    let moved : Perm (old ∷ a') (x ∷ a) = set-perm a (suc j) x h in
    let filled : Perm (old ∷ set a (suc j) key) (key ∷ a) = set-perm a (suc j) key h in
    let left : Perm (old ∷ x ∷ set a' j key) (key ∷ x ∷ a) =
      Perm.trans (Perm.cons old in_hole)
        (Perm.trans (Perm.swap key old a') (Perm.cons key moved)) in
    let right : Perm (x ∷ old ∷ set a (suc j) key) (x ∷ key ∷ a) = Perm.cons x filled in
    Perm.cons_inv (
      Perm.cons_inv (
        Perm.trans (Perm.swap old x (set a' j key))
          (Perm.trans left (Perm.trans (Perm.swap x key a) (Perm.symm right)))))

shifted-Open :
    (j n key : ℕ) (a orig : List ℕ)
    → Open (suc j) n key a orig
    → key < at a j
    → Open j n key (set a (suc j) (at a j)) orig
shifted-Open j n key a orig o greater =
    let x = at a j in
    let hi : suc j < length a = omega (arith, o.inside, o.room) in
    record {
      inside = omega (arith, o.inside);
      room = rw (length-set a (suc j) x) o.room;
      front = λ p q lt in_ not_p not_q.
          let at_p = at-set a (suc j) p x hi in
          let at_q = at-set a (suc j) q x hi in
          elim (Bool-cases (suc j == p)) [
            | inl is_p ↦
                let f = o.front j q (ground arith) in_ (λ e. ground arith) (λ e. ground arith) in
                ground (arith, at_p, at_q)
            | inr isnt_p ↦ elim (Bool-cases (suc j == q)) [
              | inl is_q ↦
                  let f =
                    o.front p j (ground arith) (omega (arith, o.inside)) (λ e. ground arith)
                      (λ e. ground arith) in
                  ground (arith, at_p, at_q)
              | inr isnt_q ↦
                  let f = o.front p q lt in_ (λ e. ground arith) (λ e. ground arith) in
                  ground (arith, at_p, at_q)
            ]
          ];
      behind = λ k p q.
          let at_k = at-set a (suc j) k x hi in
          elim (Bool-cases (suc j == k)) [
            | inl is_k ↦ ground (arith, at_k, greater)
            | inr isnt_k ↦ let b = o.behind k (ground arith) q in ground (arith, at_k)
          ];
      cells = Perm.trans (shifted-perm j key a hi) o.cells;
      same = length-set a (suc j) x ∙ o.same;
      beyond = λ k p.
          let differs : (suc j == k) ≡ false = ground (arith, o.inside) in
          at-set a (suc j) k x hi ∙ rw differs (o.beyond k p);
    }

shift_loop-Inserted :
    (hole n key : ℕ) (a orig : List ℕ) (s : SortStats)
    → Open hole n key a orig
    → Returns (Inserted n orig) (shift_loop hole key a s)
unfolding shift_loop write_and_count
shift_loop-Inserted zero n key a orig s o =
    fill-Inserted zero n key a orig s o (λ j p. absurd (omega arith))
shift_loop-Inserted (suc j) n key a orig s o = rw (load-ok a j (omega (arith, o.inside, o.room))) (
    branch (ltb key (at a j))
      (λ greater.
        let a' = set a (suc j) (at a j) in
        rw (store-ok a (suc j) (at a j) (omega (arith, o.inside, o.room))) (
          shift_loop-Inserted j n key a' orig
            (record s { comparisons = s.comparisons + 1; writes = s.writes + 1 })
            (shifted-Open j n key a orig o (ground arith))))
      (λ lower. fill-Inserted (suc j) n key a orig (compared s) o λ i p.
        elim (Bool-cases (i == j)) [
          | inl same ↦ let e : i ≡ j = ground arith in rw e (ground arith)
          | inr other ↦
              let f =
                o.front i j (ground arith) (omega (arith, o.inside)) (λ e. omega arith)
                  (λ e. omega arith) in
              ground arith
        ]))

same_cell-perm : (i : ℕ) (a : List ℕ) → i < length a → Perm (set a i (at a i)) a
same_cell-perm i a h = Perm.cons_inv (set-perm a i (at a i) h)

insertion_loop-Sorts :
    (rounds i : ℕ) (a : List ℕ) (s : SortStats)
    → 0 < i
    → i + rounds ≡ suc (length a - 1)
    → Settled i a
    → Returns (λ (out : List ℕ × SortStats). Sorts a out.0) (insertion_loop rounds i a s)
unfolding insertion_loop Inserted
insertion_loop-Sorts zero i a s one total h =
    returns (λ j k p q. h j k p (omega (arith, total, p, q)), Perm.rfl)
insertion_loop-Sorts (suc rounds) i a s one total h =
    let inside : i < length a = omega (arith, one, total) in
    let o : Open i (i + 1) (at a i) a a = record {
      inside = omega arith;
      room = omega (arith, inside);
      front = λ j k p q not_j not_k. h j k p (last k q not_k);
      behind = λ k p q. absurd (omega (arith, p, q));
      cells = same_cell-perm i a inside;
      same = refl;
      beyond = λ k p. refl;
    } in
    rw (load-ok a i inside) (
      bind (shift_loop-Inserted i (i + 1) (at a i) a a s o) λ out r.
        weaken
          (insertion_loop-Sorts rounds (i + 1) out.0 out.1 (omega arith) (omega (arith, total, r.2))
            r.0)
          λ fin t. (t.0, Perm.trans t.1 r.1))
  where
    last : (k : ℕ) → k < i + 1 → ¬ (k ≡ i) → k < i
    last k q differs = elim (Bool-cases (k == i)) [
      | inl same ↦ absurd (differs (ground arith))
      | inr other ↦ ground arith
    ]

-- For every array `insertion_sort_stat` returns its ints in ascending order.
pub insertion_sort_stat-Sorts :
    (a : List ℕ) (s : SortStats)
    → Returns (λ out. Sorts a out.0) (insertion_sort_stat a (length a) s)
unfolding insertion_sort_stat
insertion_sort_stat-Sorts a s =
    insertion_loop-Sorts (length a - 1) 1 a s (omega arith) (omega arith)
      (λ j k p q. absurd (omega arith))
