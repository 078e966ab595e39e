-- ===== src/Memory.antt =====
-- What the programs rely on of malloc and realloc, which the C library provides.
use native.Mathlib.Nat.{mod-eq_of_lt, mul-div_cancel}
use textbook_c_ds_deep.Prelude.{
  ◌<◌, ◌*◌, ◌/◌, ◌%◌, ◌^◌, ℕ, ◌≤◌, ◌≡◌, Option, none, some, List, [], length, take,
}

-- A block is the list of its cells, and NULL is `none`. A fresh cell holds an arbitrary value, which
-- the functions choose; which requests fail is theirs to choose too.
pub record Memory {ℓ} (A : Type ℓ) : Type ℓ where
  pub malloc : ℕ → Option (List A)
  pub realloc : List A → ℕ → Option (List A)
  -- A block has the size that was asked for.
  pub malloc_length : (n : ℕ) (b : List A) → malloc n ≡ some b → length b ≡ n
  pub realloc_length : (a : List A) (n : ℕ) (b : List A) → realloc a n ≡ some b → length b ≡ n
  -- `realloc` keeps the cells that both sizes have.
  pub realloc_keeps :
      (a : List A) (n : ℕ) (b : List A) (k : ℕ)
      → realloc a n ≡ some b
      → k ≤ length a
      → k ≤ n
      → take k b ≡ take k a

-- A pointer that the code does not test: every access through NULL is a fault, as is every access
-- to a block with no cells.
abbrev pub or_null {ℓ} : {A : Type ℓ} → Option (List A) → List A
or_null none = []
or_null (some b) = b

-- `realloc` never fails.
abbrev pub ReallocSucceeds {ℓ} : {A : Type ℓ} → Memory A → Type ℓ
ReallocSucceeds {A} memory = (a : List A) (n : ℕ) → (b : List A) × (memory.realloc a n ≡ some b)

-- The cells of a block of `n * elem_size` bytes; a `size_t` product wraps.
unfoldable pub cells : ℕ → ℕ → ℕ
cells n elem_size = n * elem_size % 2 ^ 64 / elem_size

-- A product that does not wrap asks for the cells meant.
pub cells_fit : (n e : ℕ) → 0 < e → n * e < 2 ^ 64 → cells n e ≡ n
unfolding cells
cells_fit n e h k = rw (mod-eq_of_lt k) (mul-div_cancel n h)
