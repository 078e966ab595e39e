-- ===== src/Tests/Pools.antt =====
-- pool_allocator.c, embedded_pool.c and arena_allocator.c.
use mathlib.Core.List.{mem-cons_self}
use textbook_c_ds_deep.Prelude.{
  ◌+◌, ◌-◌, ◌<◌, ◌≡◌, ◌^◌, refl, none, some, [], ◌∷◌, arith, replicate,
}
use textbook_c_ds_deep.Run.{ok, Returns, ◌>>=◌}
use textbook_c_ds_deep.Memory.{Memory, cells}
use textbook_c_ds_deep.Array.{load, store}
use textbook_c_ds_deep.FreeList.{Cell, link, filled, next_of}
use textbook_c_ds_deep.Pool.{PoolAllocator, pool_init, pool_alloc, pool_free}
use textbook_c_ds_deep.Pool.Reached.{
  Reached, start, alloc, write, Released, Fresh, pool_alloc-Fresh, pool_free-Reached,
}
use textbook_c_ds_deep.EmbeddedPool.{at_start, pool_static_alloc, pool_static_free}
use textbook_c_ds_deep.Arena.{Arena, align_up, arena_alloc}
use textbook_c_ds_deep.Arena.Bump.{Granted, arena_alloc-Granted, arena_alloc-wraps}
use textbook_c_ds_deep.Tests.Allocators.{plenty}

abbrev roomy : Memory Cell
roomy = plenty (filled 0)

-- Two free slots.
abbrev fresh_pool : PoolAllocator
fresh_pool = record {
  memory = link (some 1) ∷ link none ∷ [];
  free_list = some 0;
  obj_size = 8;
  capacity = 2;
  allocated = 0;
}

-- The first is handed out.
abbrev half_pool : PoolAllocator
half_pool = record fresh_pool {
  memory = filled 0xAB ∷ link none ∷ [];
  free_list = some 1;
  allocated = 1;
}

fresh_pool-Reached : Reached fresh_pool []
unfolding pool_init store plenty cells
fresh_pool-Reached =
    start roomy 4 2 (replicate 2 (filled 0)) fresh_pool (omega arith) (omega arith) (omega arith)
      refl refl

half_pool-Reached : Reached half_pool (0 ∷ [])
unfolding pool_alloc next_of load store
half_pool-Reached = alloc fresh_pool half_pool [] 0 fresh_pool-Reached refl

pool_alloc-Fresh_example : Returns (Fresh half_pool (0 ∷ [])) (pool_alloc half_pool)
pool_alloc-Fresh_example = pool_alloc-Fresh half_pool (0 ∷ []) half_pool-Reached

-- The program has written to its slot.
abbrev used_pool : PoolAllocator
used_pool = record half_pool { memory = filled 7 ∷ link none ∷ [] }

used_pool-Reached : Reached used_pool (0 ∷ [])
used_pool-Reached = write half_pool (0 ∷ []) 0 (filled 7) half_pool-Reached mem-cons_self

pool_free-Reached_example : Returns (Released used_pool [] 0) (pool_free used_pool (some 0))
pool_free-Reached_example = pool_free-Reached used_pool [] [] 0 used_pool-Reached

-- The slot that was freed last is handed out next.
static_again :
    (pool_static_alloc at_start >>= λ (_, a). pool_static_alloc a >>= λ (_, b).
    pool_static_free b 0 >>= λ c. pool_static_alloc c >>= λ (out, _). ok out)
    ≡ ok (some 0)
unfolding pool_static_alloc pool_static_free next_of load store
static_again = refl

abbrev arena : Arena
arena = record { memory = 4096; capacity = 64; used = 5 }

arena_alloc-Granted_example : Granted arena 16 (2 ^ 3) (arena_alloc arena 16 (2 ^ 3))
arena_alloc-Granted_example =
    arena_alloc-Granted arena 16 3 (omega arith) refl (omega arith) (omega arith)

aligned : align_up 5 8 ≡ 8
unfolding align_up
aligned = refl

arena_alloc-wraps_example :
    ((arena_alloc arena (2 ^ 64 - 8) 8).0 ≡ some (4096 + align_up 5 8))
    × (64 < align_up 5 8 + (2 ^ 64 - 8))
arena_alloc-wraps_example =
    arena_alloc-wraps arena (2 ^ 64 - 8) 8 (omega arith) (omega (arith, aligned))
      (omega (arith, aligned))
