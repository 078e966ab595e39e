-- ===== src/Search/Binary.antt =====
-- Both searches find the target where it is.
use mathlib.Core.List.{Mem}
use textbook_c_ds_deep.Prelude.{
  ℕ, zero, suc, ◌+◌, ◌≤◌, ◌<◌, ◌≡◌, false, Option, none, some, List, arith, ltb, ◌==◌, length, take,
  length-take, inl, inr, Bool-cases,
}
use textbook_c_ds_deep.Run.{Returns, returns, branch}
use textbook_c_ds_deep.Array.{Default, at, at-take, load-ok, all_at-mem}
use textbook_c_ds_deep.Search.{linear_loop, linear_search, binary_loop, binary_search, middle}

instance abbrev pub zero_cell : Default ℕ
zero_cell = record { value = 0 }

-- The first `n` ints are in ascending order.
abbrev pub IsAscending : ℕ → List ℕ → Type 0
IsAscending n arr = (i j : ℕ) → i ≤ j → j < n → at arr i ≤ at arr j

-- An index inside the array that holds the target, or no such index among the first `n`.
pub Locates : List ℕ → ℕ → ℕ → Option ℕ → Type 0
Locates arr n target none = ¬ (Mem target (take n arr))
Locates arr n target (some i) = (i < n) × (at arr i ≡ target)

-- What holds of the first `n` cells holds of the members before `n`.
absent :
    (arr : List ℕ) (n target : ℕ)
    → n ≤ length arr
    → ((i : ℕ) → i < n → (at arr i == target) ≡ false)
    → ¬ (Mem target (take n arr))
absent arr n target h none_here m =
    let differs : (target == target) ≡ false =
      all_at-mem (λ y. (y == target) ≡ false) (λ y. hlevel) (take n arr)
        (λ i p.
          let inside : i < n = omega (arith, length-take n arr, p) in
          rw (at-take n arr i inside) (none_here i inside))
        target m in
    ground arith

-- The loop with the target behind all cells before `lo` and before all cells from `stop` on.
binary_loop-Locates :
    (fuel lo stop : ℕ) (arr : List ℕ) (n target : ℕ)
    → IsAscending n arr
    → n ≤ length arr
    → stop ≤ n
    → lo ≤ stop
    → stop < fuel + lo
    → ((i : ℕ) → i < n → i < lo → at arr i < target)
    → ((i : ℕ) → i < n → stop ≤ i → target < at arr i)
    → Returns (Locates arr n target) (binary_loop fuel lo stop arr target)
unfolding binary_loop Locates
binary_loop-Locates zero lo stop arr n target asc h le range fuel_ok before after =
    absurd (omega arith)
binary_loop-Locates (suc fuel) lo stop arr n target asc h le range fuel_ok before after =
    branch (ltb lo stop)
      (λ going.
        let mid = middle lo stop in
        let in_mid : mid < stop = ground arith in
        rw (load-ok arr mid (omega (arith, in_mid, h, le))) (
          branch (at arr mid == target) (λ hit. returns (omega (arith, in_mid, le), ground arith))
            (λ miss.
              branch (ltb (at arr mid) target)
                (λ low.
                  binary_loop-Locates fuel (mid + 1) stop arr n target asc h le
                    (omega (arith, in_mid)) (omega (arith, fuel_ok))
                    (λ i p q.
                      let up = asc i mid (omega (arith, q)) (omega (arith, in_mid, le)) in
                      ground arith)
                    after)
                (λ high.
                  binary_loop-Locates fuel lo mid arr n target asc h (omega (arith, in_mid, le))
                    (omega arith) (omega (arith, fuel_ok, in_mid)) before
                    (λ i p q. let up = asc mid i q p in ground arith)))))
      (λ over. returns (
        absent arr n target h λ i p. elim (Bool-cases (ltb i lo)) [
          | inl low ↦ let b = before i p (ground arith) in ground arith
          | inr high ↦ let a = after i p (ground arith) in ground arith
        ]))

-- For an ascending array of at least `n` ints the binary search of the first `n` returns: an index
-- that holds the target, or none exactly where the target is not there.
pub binary_search-Locates :
    (arr : List ℕ) (n target : ℕ)
    → IsAscending n arr
    → n ≤ length arr
    → Returns (Locates arr n target) (binary_search arr n target)
unfolding binary_search
binary_search-Locates arr n target asc h =
    binary_loop-Locates (n + 1) 0 n arr n target asc h (omega arith) (omega arith) (omega arith)
      (λ i p q. absurd (omega arith)) (λ i p q. absurd (omega arith))

-- The first index that holds the target, or none.
pub LocatesFirst : List ℕ → ℕ → ℕ → Option ℕ → Type 0
LocatesFirst arr n target none = ¬ (Mem target (take n arr))
LocatesFirst arr n target (some i) = (i < n) × (at arr i ≡ target) × ¬ (Mem target (take i arr))

linear_loop-LocatesFirst :
    (rounds i : ℕ) (arr : List ℕ) (n target : ℕ)
    → n ≤ length arr
    → i + rounds ≡ n
    → ((j : ℕ) → j < i → (at arr j == target) ≡ false)
    → Returns (LocatesFirst arr n target) (linear_loop rounds i arr target)
unfolding linear_loop LocatesFirst
linear_loop-LocatesFirst zero i arr n target h total before =
    returns (absent arr n target h λ j p. before j (omega arith))
linear_loop-LocatesFirst (suc rounds) i arr n target h total before =
    rw (load-ok arr i (omega (arith, total, h))) (
      branch (at arr i == target)
        (λ hit. returns (
          omega (arith, total),
          ground arith,
          absent arr i target (omega (arith, total, h)) before,
        ))
        (λ miss.
          linear_loop-LocatesFirst rounds (i + 1) arr n target h (omega (arith, total)) λ j p.
            elim (Bool-cases (j == i)) [
              | inl same ↦ let e : j ≡ i = ground arith in rw e miss
              | inr other ↦ before j (ground arith)
            ]))

-- For every array of at least `n` ints the linear search of the first `n` returns the first index
-- that holds the target, or none exactly where the target is not there.
pub linear_search-LocatesFirst :
    (arr : List ℕ) (n target : ℕ)
    → n ≤ length arr
    → Returns (LocatesFirst arr n target) (linear_search arr n target)
unfolding linear_search
linear_search-LocatesFirst arr n target h =
    linear_loop-LocatesFirst n 0 arr n target h (omega arith) (λ j p. absurd (omega arith))
