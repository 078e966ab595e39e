-- ===== src/Pool.antt =====
-- pool_allocator.c: slots of one size, the free ones linked through their first words.
pub mod Slots
pub mod Start
pub mod Reached
use textbook_c_ds_deep.Prelude.{
  ℕ, zero, suc, ◌+◌, ◌-◌, ◌<◌, ◌≡◌, Bool, true, false, Option, none, some, List, [], ◌∷◌, ltb,
  if◌then◌else◌, length, dec64, inc64,
}
use textbook_c_ds_deep.Run.{Run, ok, ◌>>=◌}
use textbook_c_ds_deep.Memory.{Memory, cells}
use textbook_c_ds_deep.Array.{store}
use textbook_c_ds_deep.FreeList.{Cell, link, filled, next_of}

-- A slot of `obj_size` bytes is one cell.
pub record PoolAllocator : Type 0 where
  pub memory : List Cell
  pub free_list : Option ℕ
  pub obj_size : ℕ
  pub capacity : ℕ
  pub allocated : ℕ

-- `for (i = 0; i < capacity - 1; i++)`, with `rounds` rounds left
pub link_loop : ℕ → ℕ → List Cell → Run (List Cell)
link_loop zero i memory = ok memory
link_loop (suc rounds) i memory = store memory i (link (some (i + 1))) >>= link_loop rounds (i + 1)

-- `if (obj_size < sizeof(void*)) obj_size = sizeof(void*);`
abbrev pub slot_size : ℕ → ℕ
slot_size obj_size = if ltb obj_size 8 then 8 else obj_size

-- `none` is the result -1.
unfoldable pub pool_init : Memory Cell → ℕ → ℕ → Run (Option PoolAllocator)
unfolding link_loop
pool_init memory obj_size capacity = elim (memory.malloc (cells capacity (slot_size obj_size))) [
  | none ↦ ok none
  | some b ↦ do
    linked ← link_loop (dec64 capacity) 0 b
    a ← store linked (dec64 capacity) (link none)
    ok (
        some (record {
          memory = a;
          free_list = some 0;
          obj_size = slot_size obj_size;
          capacity = capacity;
          allocated = 0;
        }))
]

unfoldable pub pool_alloc : PoolAllocator → Run (Option ℕ × PoolAllocator)
pool_alloc pool = elim pool.free_list [
  | none ↦ ok (none, pool)
  | some obj ↦ do
    next ← next_of pool.memory obj
    a ← store pool.memory obj (filled 0xAB)
    ok (some obj, record pool { memory = a; free_list = next; allocated = inc64 pool.allocated })
]

unfoldable pub pool_free : PoolAllocator → Option ℕ → Run PoolAllocator
pool_free pool none = ok pool
pool_free pool (some obj) = do
  a ← store pool.memory obj (filled 0xCD)
  b ← store a obj (link pool.free_list)
  ok (record pool { memory = b; free_list = some obj; allocated = dec64 pool.allocated })
