-- ===== src/EmbeddedPool.antt =====
-- embedded_pool.c: a pool of 64 static slots, linked at the first allocation.
use textbook_c_ds_deep.Prelude.{
  ℕ, zero, suc, ◌+◌, ◌-◌, Bool, true, false, Option, none, some, List, if◌then◌else◌, replicate,
}
use textbook_c_ds_deep.Run.{Run, ok, ◌>>=◌}
use textbook_c_ds_deep.Array.{store}
use textbook_c_ds_deep.FreeList.{Cell, link, filled, next_of}

-- POOL_CAPACITY
abbrev pub pool_capacity : ℕ
pool_capacity = 64

-- `g_pool_memory`, `g_free_list` and `g_initialized`
pub record StaticPool : Type 0 where
  pub memory : List Cell
  pub free_list : Option ℕ
  pub initialized : Bool

-- The statics before the first call: zero bytes.
abbrev pub at_start : StaticPool
at_start = record {
  memory = replicate pool_capacity (filled 0);
  free_list = none;
  initialized = false;
}

-- `for (i = 0; i < POOL_CAPACITY - 1; i++)`, with `rounds` rounds left
pub static_link_loop : ℕ → ℕ → List Cell → Run (List Cell)
static_link_loop zero i memory = ok memory
static_link_loop (suc rounds) i memory =
    store memory i (link (some (i + 1))) >>= static_link_loop rounds (i + 1)

pub pool_static_init : StaticPool → Run StaticPool
unfolding static_link_loop
pool_static_init pool = do
  linked ← static_link_loop 63 0 pool.memory
  a ← store linked (pool_capacity - 1) (link none)
  ok (record { memory = a; free_list = some 0; initialized = true })

unfoldable pub pool_static_alloc : StaticPool → Run (Option ℕ × StaticPool)
unfolding pool_static_init
pool_static_alloc pool = do
  ready ← if pool.initialized then ok pool else pool_static_init pool
  elim ready.free_list [
    | none ↦ ok (none, ready)
    | some obj ↦ do
      next ← next_of ready.memory obj
      ok (some obj, record ready { free_list = next })
  ]

unfoldable pub pool_static_free : StaticPool → ℕ → Run StaticPool
pool_static_free pool obj = do
  a ← store pool.memory obj (link pool.free_list)
  ok (record pool { memory = a; free_list = some obj })
