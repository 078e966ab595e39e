-- ===== src/SlabCache/Keep.antt =====
-- What `slab_cache_alloc` hands out is a free slot, which is then in use.
use textbook_c_ds_deep.Prelude.{
  ℕ, ◌+◌, ◌*◌, ◌%◌, ◌^◌, ◌<◌, ◌⊎◌, ◌≡◌, Option, none, some, List, [], ◌∷◌, arith, ◌==◌,
  if◌then◌else◌,
}
use textbook_c_ds_deep.SlabCache.{
  Slab, Cache, used_bit, slab_create, slab_cache_init, slot_bytes, slots_of,
}
use textbook_c_ds_deep.SlabCache.Bitmap.{Taken, clear_all}
use textbook_c_ds_deep.SlabCache.Counts.{HasFree, IsFull, IsValid}

-- What an allocation from the slab leaves: the first free slot of the slab is in use and its address is
-- the result; the slab goes to the front of full where that was the last free slot, and stays else.
pub record Granted (cache : Cache) (slab : Slab) (others : List Slab) (out : Option ℕ × Cache)
    : Type 0 where
  pub slot : ℕ
  pub inside : slot < cache.objs_per_slab
  pub first : (k : ℕ) → k < slot → used_bit slab.bitmap k ≡ 1
  pub pointer : out.0 ≡ some (slab.memory + slot * cache.obj_size)
  pub left : Slab
  pub same_block : left.memory ≡ slab.memory
  pub taken : Taken cache.objs_per_slab slot slab.bitmap left.bitmap
  pub counted : left.free_count + 1 ≡ slab.free_count
  pub placed :
      (IsFull cache.objs_per_slab left
        × (out.1.partial ≡ others)
        × (out.1.full ≡ left ∷ cache.full))
      ⊎ (HasFree cache.objs_per_slab left
          × (out.1.partial ≡ left ∷ others)
          × (out.1.full ≡ cache.full))
  pub total : out.1.total_allocated ≡ (cache.total_allocated + 1) % 2 ^ 64
  pub valid : IsValid out.1

-- How an allocation ends: without memory for a slab the cache stays; else the slot is one of a slab
-- that is new, where no slab had a free slot, or of the first that has one.
pub data Allocated (header block : Option ℕ) (cache : Cache) : Option ℕ × Cache → Type 0 where
  no_memory :
      {out : Option ℕ × Cache}
      → cache.partial ≡ []
      → slab_create header block cache ≡ none
      → out ≡ (none, cache)
      → Allocated header block cache out
  from_new :
      {out : Option ℕ × Cache} (slab : Slab)
      → cache.partial ≡ []
      → slab_create header block cache ≡ some slab
      → Granted cache slab [] out
      → Allocated header block cache out
  from_partial :
      {out : Option ℕ × Cache} (slab : Slab) (others : List Slab)
      → cache.partial ≡ slab ∷ others
      → Granted cache slab others out
      → Allocated header block cache out

-- A cache that is set up is valid, with one slab on partial.
pub slab_cache_init-IsValid :
    (header block : ℕ) (name : List ℕ) (obj_size alignment : ℕ)
    → IsValid (slab_cache_init (some header) (some block) name obj_size alignment).1
unfolding slab_cache_init slot_bytes slots_of slab_create
slab_cache_init-IsValid header block name obj_size alignment =
    let n = slots_of (slot_bytes obj_size (if alignment == 0 then 8 else alignment)) in
    let all = clear_all n in
    let one : 0 < n = grind arith in
    record {
      positive = grind arith;
      few = grind arith;
      sized = grind arith;
      on_partial =
          (record { counted = omega (arith, all); some_free = omega (arith, all, one) }, tt);
      on_full = tt;
    }
