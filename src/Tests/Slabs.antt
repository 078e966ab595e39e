-- ===== src/Tests/Slabs.antt =====
-- slab_allocator.c at work.
use textbook_c_ds_deep.Prelude.{◌+◌, ◌^◌, ◌≡◌, refl, none, some, [], ◌∷◌, true}
use textbook_c_ds_deep.Run.{ok}
use textbook_c_ds_deep.Arena.{align_up}
use textbook_c_ds_deep.SlabCache.{
  Slab, Cache, slab_create, slot_bytes, slots_of, slab_cache_init, find_loop, find_free_slot,
  take_slot, alloc_from, slab_cache_alloc, give_back, unlink_loop, clear_loop, slab_cache_free,
}

-- Two objects of 2048 bytes in a slab; the first slot is in use.
abbrev half : Slab
half = record { memory = 0x1000; bitmap = 1; free_count = 1 + 2 ^ 31 }

abbrev whole : Slab
whole = record { memory = 0x4000; bitmap = 3; free_count = 2 ^ 31 }

abbrev cache : Cache
cache = record {
  name = [];
  obj_size = 2048;
  alignment = 8;
  objs_per_slab = 2;
  partial = half ∷ [];
  full = whole ∷ [];
  total_allocated = 3;
  total_freed = 0;
}

init_2048 : slab_cache_init (some 0x100) (some 0x1000) [] 2041 0 ≡ (
  true,
  record cache {
    partial = record { memory = 0x1000; bitmap = 0; free_count = 2 + 2 ^ 31 } ∷ [];
    full = [];
    total_allocated = 0;
  },
)
unfolding slab_cache_init slot_bytes slots_of slab_create align_up
init_2048 = refl

-- The last slot of the slab is handed out, and the slab goes to full.
filled_up :
    slab_cache_alloc none none cache
    ≡ ok (
      some 0x1800,
      record cache {
        partial = [];
        full = record { memory = 0x1000; bitmap = 3; free_count = 2 ^ 31 } ∷ whole ∷ [];
        total_allocated = 4;
      },
    )
unfolding slab_cache_alloc alloc_from take_slot find_free_slot find_loop
filled_up = refl

-- A slot of a full slab is given back, and the slab goes to partial.
given_back : slab_cache_free cache (some 0x4800) ≡ record cache {
  partial = record { memory = 0x4000; bitmap = 1; free_count = 1 + 2 ^ 31 } ∷ half ∷ [];
  full = [];
  total_freed = 1;
}
unfolding slab_cache_free unlink_loop clear_loop give_back
given_back = refl

-- A pointer of no slab is only counted.
unknown_pointer : slab_cache_free cache (some 0x9000) ≡ record cache { total_freed = 1 }
unfolding slab_cache_free unlink_loop clear_loop give_back
unknown_pointer = refl
