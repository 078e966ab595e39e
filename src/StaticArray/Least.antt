-- ===== src/StaticArray/Least.antt =====
-- What `min_index` computes.
use textbook_c_ds_deep.Prelude.{
  ℕ, zero, suc, ◌+◌, ◌-◌, ◌≤◌, ◌<◌, ◌≡◌, List, arith, ltb, ◌==◌, length, inl, inr, Bool-cases,
}
use textbook_c_ds_deep.Run.{Returns, returns, branch}
use textbook_c_ds_deep.Array.{Default, at, load-ok}
use textbook_c_ds_deep.StaticArray.{min_loop, min_index}

instance abbrev pub first_cell : Default ℕ
first_cell = record { value = 0 }

-- `i` is the first place of a least int among the first `n`.
pub record IsFirstLeast (arr : List ℕ) (n i : ℕ) : Type 0 where
  pub inside : i < n
  pub least : (j : ℕ) → j < n → at arr i ≤ at arr j
  pub first : (j : ℕ) → j < i → at arr i < at arr j

min_loop-IsFirstLeast :
    (rounds i idx : ℕ) (arr : List ℕ) (n : ℕ)
    → n ≤ length arr
    → i + rounds ≡ n
    → IsFirstLeast arr i idx
    → Returns (IsFirstLeast arr n) (min_loop rounds i idx arr)
unfolding min_loop
min_loop-IsFirstLeast zero i idx arr n h total l =
    let e : i ≡ n = omega arith in returns (rw e at l)
min_loop-IsFirstLeast (suc rounds) i idx arr n h total l =
    rw (load-ok arr i (omega arith), load-ok arr idx (omega (arith, l.inside)))
      (branch (ltb (at arr i) (at arr idx))
        (λ less. min_loop-IsFirstLeast rounds (i + 1) i arr n h (omega arith) (record {
          inside = omega arith;
          least = λ j p. elim (Bool-cases (j == i)) [
            | inl same ↦ let e : j ≡ i = ground arith in rw e (omega arith)
            | inr other ↦ let b = l.least j (ground arith) in ground arith
          ];
          first = λ j p. let b = l.least j p in ground arith;
        }))
        (λ more. min_loop-IsFirstLeast rounds (i + 1) idx arr n h (omega arith) (record {
          inside = omega (arith, l.inside);
          least = λ j p. elim (Bool-cases (j == i)) [
            | inl same ↦ let e : j ≡ i = ground arith in rw e (ground arith)
            | inr other ↦ l.least j (ground arith)
          ];
          first = l.first;
        })))

-- For an array of at least `n` ints, with `n` not 0, `min_index` returns the first place of a least
-- int among the first `n`.
pub min_index-IsFirstLeast :
    (arr : List ℕ) (n : ℕ) → 0 < n → n ≤ length arr → Returns (IsFirstLeast arr n) (min_index arr n)
unfolding min_index
min_index-IsFirstLeast arr n full h =
    min_loop-IsFirstLeast (n - 1) 1 0 arr n h (omega arith) (record {
      inside = omega arith;
      least = λ j p. let e : j ≡ 0 = omega arith in rw e (omega arith);
      first = λ j p. absurd (omega arith);
    })
