-- ===== src/SlabCache/Release.antt =====
-- A free of a slot in use.
use textbook_c_ds_deep.Prelude.{ℕ, ◌+◌, ◌*◌, ◌%◌, ◌^◌, ◌<◌, ◌≡◌, ◌⊎◌, List, ◌∷◌, ◌++◌, false}
use textbook_c_ds_deep.SlabCache.{Slab, Cache, used_bit, holds}
use textbook_c_ds_deep.SlabCache.Bitmap.{Taken}
use textbook_c_ds_deep.SlabCache.Counts.{AllOf, IsValid}

-- None of the slabs holds the pointer.
abbrev pub Elsewhere : Cache → ℕ → List Slab → Type 0
Elsewhere cache obj = AllOf (λ slab. holds cache obj slab ≡ false)

-- The pointer is that of a slot of the slab, and the slot is in use.
pub record IsHandedOut (cache : Cache) (slab : Slab) (slot obj : ℕ) : Type 0 where
  pub inside : slot < cache.objs_per_slab
  pub used : used_bit slab.bitmap slot ≡ 1
  pub pointer : obj ≡ slab.memory + slot * cache.obj_size

-- The slab with the slot free, and nothing else changed.
pub record Cleared (cache : Cache) (slab : Slab) (slot : ℕ) (left : Slab) : Type 0 where
  pub same_block : left.memory ≡ slab.memory
  pub cleared : Taken cache.objs_per_slab slot left.bitmap slab.bitmap
  pub counted : left.free_count ≡ slab.free_count + 1

-- Where the search of a free finds the slab: on full, or on partial.
abbrev pub OnFull : Cache → ℕ → List Slab → Slab → List Slab → Type 0
OnFull cache obj before slab after =
    (cache.full ≡ before ++ slab ∷ after) × Elsewhere cache obj before

abbrev pub OnPartial : Cache → ℕ → List Slab → Slab → List Slab → Type 0
OnPartial cache obj before slab after =
    Elsewhere cache obj cache.full
    × (cache.partial ≡ before ++ slab ∷ after)
    × Elsewhere cache obj before

-- What a free leaves: the slot is free, a slab of full goes to the front of partial, one of partial
-- stays in its place, and no other slab changes.
pub record Freed (cache : Cache) (obj slot : ℕ) (before : List Slab) (slab : Slab)
    (after : List Slab) (cache' : Cache) : Type 0 where
  pub left : Slab
  pub cleared : Cleared cache slab slot left
  pub placed :
      (OnFull cache obj before slab after
        × (cache'.full ≡ before ++ after)
        × (cache'.partial ≡ left ∷ cache.partial))
      ⊎ (OnPartial cache obj before slab after
          × (cache'.full ≡ cache.full)
          × (cache'.partial ≡ before ++ left ∷ after))
  pub total : cache'.total_freed ≡ (cache.total_freed + 1) % 2 ^ 64
  pub valid : IsValid cache'
