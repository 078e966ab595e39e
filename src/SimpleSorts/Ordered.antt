-- ===== src/SimpleSorts/Ordered.antt =====
-- Ascending arrays, and what an exchange keeps.
use textbook_c_ds_deep.Prelude.{ℕ, ◌≤◌, ◌<◌, ◌≡◌, refl, List, Perm, arith, length, length-set, set}
use textbook_c_ds_deep.Run.{Returns, returns}
use textbook_c_ds_deep.Array.{Default, at, swapped, at-swapped, load-ok, store-ok}
use textbook_c_ds_deep.SimpleSorts.{SortStats, exchange, write_and_count}

instance abbrev pub int_default : Default ℕ
int_default = record { value = 0 }

-- The cells ascend.
abbrev pub IsAscending : List ℕ → Type 0
IsAscending a = (i j : ℕ) → i < j → j < length a → at a i ≤ at a j

-- `b` holds the cells of `a` in ascending order.
abbrev pub Sorts : List ℕ → List ℕ → Type 0
Sorts a b = IsAscending b × Perm b a

-- What an exchange leaves, whatever it counts.
unfoldable pub Exchanged : List ℕ → ℕ → ℕ → List ℕ × SortStats → Type 0
Exchanged a i j (b, s) = b ≡ swapped a i j

pub exchange-Exchanged :
    (a : List ℕ) (s : SortStats) (i j : ℕ)
    → i < length a
    → j < length a
    → Returns (Exchanged a i j) (exchange a s i j)
unfolding exchange write_and_count Exchanged swapped
exchange-Exchanged a s i j hi hj =
    let b = set a i (at a j) in
    let inside : j < length b = omega (arith, length-set a i (at a j), hj) in
    rw (load-ok a i hi, load-ok a j hj, store-ok a i (at a j) hi, store-ok b j (at a i) inside)
      (returns refl)

-- A bound of the first `m` cells survives an exchange of two of them.
pub swapped_bound :
    (a : List ℕ) (i j m bound : ℕ)
    → i < m
    → j < m
    → m ≤ length a
    → ((k : ℕ) → k < m → at a k ≤ bound)
    → (k : ℕ) → k < m
    → at (swapped a i j) k ≤ bound
swapped_bound a i j m bound hi hj hm h k hk =
    let now = at-swapped a i j (omega (arith, hi, hm)) (omega (arith, hj, hm)) k in
    ground (arith, now, h i hi, h j hj, h k hk)
