-- ===== src/Arena.antt =====
-- arena_allocator.c: allocation by moving a mark, and release of all at once.
pub mod Bump
use Prim.Native.Nat.{bit_and}
use textbook_c_ds_deep.Prelude.{
  ℕ, ◌+◌, ◌-◌, ◌%◌, ◌^◌, ◌≤◌, Bool, Option, none, some, List, [], ltb, if◌then◌else◌, length,
}

-- `memory` is the address of the block, as a pointer is; `none` is NULL.
pub record Arena : Type 0 where
  pub memory : ℕ
  pub capacity : ℕ
  pub used : ℕ

-- `(size + align - 1) & ~(align - 1)`, on `size_t`
unfoldable pub align_up : ℕ → ℕ → ℕ
align_up size align =
    let less = (align + (2 ^ 64 - 1)) % 2 ^ 64 in
    bit_and ((size + less) % 2 ^ 64) (2 ^ 64 - 1 - less)

-- `block` is what malloc returns. `none` is the result -1.
unfoldable pub arena_init : Option ℕ → ℕ → Option Arena
arena_init none capacity = none
arena_init (some memory) capacity = some (record { memory = memory; capacity = capacity; used = 0 })

unfoldable pub arena_alloc : Arena → ℕ → ℕ → Option ℕ × Arena
arena_alloc arena size align =
    let aligned_used = align_up arena.used align in
    let next = (aligned_used + size) % 2 ^ 64 in
    if ltb arena.capacity next
    then (none, arena)
    else (some (arena.memory + aligned_used), record arena { used = next })

pub arena_reset : Arena → Arena
arena_reset arena = record arena { used = 0 }

pub arena_destroy : Arena → Arena
arena_destroy arena = record { memory = 0; capacity = 0; used = 0 }
