-- ===== src/SlabCache.antt =====
-- slab_allocator.c: caches of objects of one size, in slabs with a bitmap of the slots in use.
pub mod Bitmap
pub mod Counts
pub mod Release
pub mod Slot
pub mod Keep
use Prim.Native.Nat.{bit_and, bit_or}
use textbook_c_ds_deep.Prelude.{
  ℕ, zero, suc, ◌+◌, ◌-◌, ◌*◌, ◌/◌, ◌%◌, ◌^◌, Bool, ◌&&◌, Option, none, some, List, [], ◌∷◌, ltb,
  leb, ◌==◌, if◌then◌else◌, true, false,
}
use textbook_c_ds_deep.Run.{Run, ok, fault}
use textbook_c_ds_deep.Arena.{align_up}

-- `memory` is the address of the block. `free_count` is an int, as its value plus 2 ^ 31. The link to
-- the next slab is the order of the list that the slab is on; the link to the cache is not kept.
pub record Slab : Type 0 where
  pub memory : ℕ
  pub bitmap : ℕ
  pub free_count : ℕ

-- The lists from their heads on.
pub record Cache : Type 0 where
  pub name : List ℕ
  pub obj_size : ℕ
  pub alignment : ℕ
  pub objs_per_slab : ℕ
  pub partial : List Slab
  pub full : List Slab
  pub total_allocated : ℕ
  pub total_freed : ℕ

-- SLAB_PAGE_SIZE
abbrev pub slab_page_size : ℕ
slab_page_size = 4096

-- `header` and `block` are what the two calls of malloc return. `none` is NULL.
unfoldable pub slab_create : Option ℕ → Option ℕ → Cache → Option Slab
slab_create none block cache = none
slab_create (some header) none cache = none
slab_create (some header) (some memory) cache =
    some (record { memory = memory; bitmap = 0; free_count = cache.objs_per_slab + 2 ^ 31 })

-- The size of an object, a multiple of the alignment and at least a pointer's.
unfoldable pub slot_bytes : ℕ → ℕ → ℕ
unfolding align_up
slot_bytes obj_size alignment =
    let rounded = align_up obj_size alignment in if ltb rounded 8 then 8 else rounded

-- The objects of a slab, at most as many as the bitmap has bits.
unfoldable pub slots_of : ℕ → ℕ
slots_of obj_size =
    let n = slab_page_size / obj_size in
    let most = if ltb 64 n then 64 else n in if ltb most 1 then 1 else most

-- Whether it succeeds (the result 0), and the cache it leaves.
unfoldable pub slab_cache_init : Option ℕ → Option ℕ → List ℕ → ℕ → ℕ → Bool × Cache
unfolding slab_create slot_bytes slots_of
slab_cache_init header block name obj_size alignment =
    let align = if alignment == 0 then 8 else alignment in
    let bytes = slot_bytes obj_size align in
    let cache : Cache = record {
      name = name;
      obj_size = bytes;
      alignment = align;
      objs_per_slab = slots_of bytes;
      partial = [];
      full = [];
      total_allocated = 0;
      total_freed = 0;
    } in
    elim (slab_create header block cache) [
      | none ↦ (false, cache)
      | some slab ↦ (true, record cache { partial = slab ∷ [] })
    ]

-- `(bitmap >> i) & 1`
abbrev pub used_bit : ℕ → ℕ → ℕ
used_bit bitmap i = bitmap / 2 ^ i % 2

-- The loop from `i` on, with `rounds` rounds left; `none` is -1.
unfoldable pub find_loop : ℕ → ℕ → ℕ → Option ℕ
find_loop zero i bitmap = none
find_loop (suc rounds) i bitmap =
    let rest = find_loop rounds (i + 1) bitmap in if used_bit bitmap i == 0 then some i else rest

unfoldable pub find_free_slot : ℕ → ℕ → Option ℕ
unfolding find_loop
find_free_slot bitmap count = find_loop count 0 bitmap

-- `slab_cache_alloc` once the list of slabs with free slots is not empty: `slab` is its head.
unfoldable pub take_slot : Cache → Slab → List Slab → Run (Option ℕ × Cache)
unfolding find_free_slot
take_slot cache slab others = elim (find_free_slot slab.bitmap cache.objs_per_slab) [
  | none ↦ fault
  | some slot ↦
      let left : Slab = record slab {
        bitmap = bit_or slab.bitmap (2 ^ slot);
        free_count = slab.free_count - 1;
      } in
      let counted = record cache { total_allocated = (cache.total_allocated + 1) % 2 ^ 64 } in
      let out = some (slab.memory + slot * cache.obj_size) in
      if left.free_count == 2 ^ 31
      then ok (out, record counted { partial = others; full = left ∷ cache.full })
      else ok (out, record counted { partial = left ∷ others })
]

-- `slab_cache_alloc` with the list of slabs that have free slots.
unfoldable pub alloc_from : Option ℕ → Option ℕ → Cache → List Slab → Run (Option ℕ × Cache)
unfolding slab_create take_slot
alloc_from header block cache [] = elim (slab_create header block cache) [
  | none ↦ ok (none, cache)
  | some slab ↦ take_slot cache slab []
]
alloc_from header block cache (slab ∷ others) = take_slot cache slab others

unfoldable pub slab_cache_alloc : Option ℕ → Option ℕ → Cache → Run (Option ℕ × Cache)
unfolding alloc_from
slab_cache_alloc header block cache = alloc_from header block cache cache.partial

-- Whether the pointer lies in the block of the slab.
abbrev pub holds : Cache → ℕ → Slab → Bool
holds cache obj slab =
    leb slab.memory obj && ltb obj (slab.memory + cache.objs_per_slab * cache.obj_size)

-- The slab without the slot of the pointer.
unfoldable pub give_back : Cache → ℕ → Slab → Slab
give_back cache obj slab =
    let slot = (obj - slab.memory) / cache.obj_size in
    record slab {
      bitmap = bit_and slab.bitmap (2 ^ 64 - 1 - 2 ^ slot);
      free_count = slab.free_count + 1;
    }

-- The first loop of `slab_cache_free`: the slab that holds the pointer, changed, and the list without it.
unfoldable pub unlink_loop : Cache → ℕ → List Slab → Option (Slab × List Slab)
unfolding give_back
unlink_loop cache obj [] = none
unlink_loop cache obj (slab ∷ slabs) =
    let rest : Option (Slab × List Slab) = elim (unlink_loop cache obj slabs) [
      | none ↦ none
      | some (found, left) ↦ some (found, slab ∷ left)
    ] in
    if holds cache obj slab then some (give_back cache obj slab, slabs) else rest

-- The second loop, which leaves the slab where it is.
unfoldable pub clear_loop : Cache → ℕ → List Slab → Option (List Slab)
unfolding give_back
clear_loop cache obj [] = none
clear_loop cache obj (slab ∷ slabs) =
    let rest : Option (List Slab) = elim (clear_loop cache obj slabs) [
      | none ↦ none
      | some left ↦ some (slab ∷ left)
    ] in
    if holds cache obj slab then some (give_back cache obj slab ∷ slabs) else rest

unfoldable pub slab_cache_free : Cache → Option ℕ → Cache
unfolding unlink_loop clear_loop
slab_cache_free cache none = cache
slab_cache_free cache (some obj) =
    let counted = record cache { total_freed = (cache.total_freed + 1) % 2 ^ 64 } in
    elim (unlink_loop cache obj cache.full) [
      | some (slab, left) ↦ record counted { full = left; partial = slab ∷ cache.partial }
      | none ↦ elim (clear_loop cache obj cache.partial) [
        | some left ↦ record counted { partial = left }
        | none ↦ counted
      ]
    ]
