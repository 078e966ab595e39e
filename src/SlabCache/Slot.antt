-- ===== src/SlabCache/Slot.antt =====
-- The search of the bitmap for a free slot.
use textbook_c_ds_deep.Prelude.{
  ℕ, zero, suc, ◌+◌, ◌≤◌, ◌<◌, ◌≡◌, Option, none, some, arith, ◌==◌, inl, inr, Bool-cases,
}
use textbook_c_ds_deep.SlabCache.{used_bit, find_loop, find_free_slot}

-- What the search from `i` to `last` tells: the first free slot, or that all are in use.
unfoldable pub Found : ℕ → ℕ → ℕ → Option ℕ → Type 0
Found i last bitmap none = (k : ℕ) → i ≤ k → k < last → used_bit bitmap k ≡ 1
Found i last bitmap (some slot) =
    (i ≤ slot)
    × (slot < last)
    × (used_bit bitmap slot ≡ 0)
    × ((k : ℕ) → i ≤ k → k < slot → used_bit bitmap k ≡ 1)

Found-back :
    (i last bitmap : ℕ) (out : Option ℕ)
    → used_bit bitmap i ≡ 1
    → Found (i + 1) last bitmap out
    → Found i last bitmap out
unfolding Found
Found-back i last bitmap none e f = λ k p q. elim (Bool-cases (k == i)) [
  | inl same ↦ let s : k ≡ i = ground arith in rw s e
  | inr other ↦ f k (ground arith) q
]
Found-back i last bitmap (some slot) e (low, high, free, before) = (
  omega arith,
  high,
  free,
  λ k p q. elim (Bool-cases (k == i)) [
    | inl same ↦ let s : k ≡ i = ground arith in rw s e
    | inr other ↦ before k (ground arith) q
  ],
)

find_loop-Found :
    (rounds i last bitmap : ℕ) → i + rounds ≡ last → Found i last bitmap (find_loop rounds i bitmap)
unfolding find_loop Found
find_loop-Found zero i last bitmap total = λ k p q. absurd (omega (arith, total, p, q))
find_loop-Found (suc rounds) i last bitmap total = elim (Bool-cases (used_bit bitmap i == 0)) [
  | inl free ↦
      rw free (omega arith, omega arith, ground arith, λ k p q. absurd (omega (arith, p, q)))
  | inr used ↦ rw used (
      Found-back i last bitmap (find_loop rounds (i + 1) bitmap) (ground arith)
        (find_loop-Found rounds (i + 1) last bitmap (omega arith)))
]

-- The first slot of `count` that is not in use; -1 where all are.
pub find_free_slot-Found : (bitmap count : ℕ) → Found 0 count bitmap (find_free_slot bitmap count)
unfolding find_free_slot
find_free_slot-Found bitmap count = find_loop-Found count 0 count bitmap (omega arith)
