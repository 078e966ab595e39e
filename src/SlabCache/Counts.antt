-- ===== src/SlabCache/Counts.antt =====
-- The invariant of a cache: the counts of the slabs are those of their bitmaps.
use textbook_c_ds_deep.Prelude.{ℕ, ◌+◌, ◌^◌, ◌≤◌, ◌<◌, ◌≡◌, List, [], ◌∷◌, ◌++◌}
use textbook_c_ds_deep.SlabCache.{Slab, Cache}
use textbook_c_ds_deep.SlabCache.Bitmap.{clear}

abbrev pub AllOf : (Slab → Type 0) → List Slab → Type 0
AllOf P [] = Unit {0}
AllOf P (slab ∷ slabs) = P slab × AllOf P slabs

pub AllOf-append :
    (P : Slab → Type 0) (xs ys : List Slab) → AllOf P xs → AllOf P ys → AllOf P (xs ++ ys)
AllOf-append P [] ys a b = b
AllOf-append P (x ∷ xs) ys (h, a) b = (h, AllOf-append P xs ys a b)

pub AllOf-split :
    (P : Slab → Type 0) (xs : List Slab) (y : Slab) (ys : List Slab)
    → AllOf P (xs ++ y ∷ ys)
    → AllOf P xs × P y × AllOf P ys
AllOf-split P [] y ys (h, b) = (tt, h, b)
AllOf-split P (x ∷ xs) y ys (h, b) =
    let (front, here, back) = AllOf-split P xs y ys b in ((h, front), here, back)

-- A slab with free slots, and one without, of `n` slots.
pub record HasFree (n : ℕ) (slab : Slab) : Type 0 where
  pub counted : slab.free_count ≡ clear n slab.bitmap + 2 ^ 31
  pub some_free : 0 < clear n slab.bitmap

pub record IsFull (n : ℕ) (slab : Slab) : Type 0 where
  pub counted : slab.free_count ≡ 2 ^ 31
  pub none_free : clear n slab.bitmap ≡ 0

pub record IsValid (cache : Cache) : Type 0 where
  pub positive : 0 < cache.objs_per_slab
  pub few : cache.objs_per_slab ≤ 64
  pub sized : 0 < cache.obj_size
  pub on_partial : AllOf (HasFree cache.objs_per_slab) cache.partial
  pub on_full : AllOf (IsFull cache.objs_per_slab) cache.full
