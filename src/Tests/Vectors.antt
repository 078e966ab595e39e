-- ===== src/Tests/Vectors.antt =====
-- vector.c.
use textbook_c_ds_deep.Prelude.{ℕ, refl, inr, some, [], ◌∷◌, arith}
use textbook_c_ds_deep.Run.{Returns, ◌>>=◌}
use textbook_c_ds_deep.Memory.{Memory}
use textbook_c_ds_deep.Array.{Default}
use textbook_c_ds_deep.Vector
use textbook_c_ds_deep.Vector.{
  Vector, next_cap, vec_push, vec_insert, vec_remove, vec_get, vec_set, vec_pop,
}
use textbook_c_ds_deep.Vector.Room.{HasRoom}
use textbook_c_ds_deep.Vector.Insert.{Inserted, vec_insert-Inserted}
use textbook_c_ds_deep.Vector.Remove.{Removed, vec_remove-Removed}
use textbook_c_ds_deep.Vector.RoundTrip.{SameItems, vec_insert-vec_remove}
use textbook_c_ds_deep.Tests.Allocators.{plenty, resized}

instance abbrev zero_cell : Default ℕ
zero_cell = record { value = 0 }

abbrev roomy : Memory ℕ
roomy = plenty 0

-- Two ints in a block that is full.
abbrev pair : Vector ℕ
pair = record { data_ = 5 ∷ 7 ∷ []; elem_size = 4; size = 2; capacity = 2 }

pair-IsValid : Vector.IsValid pair
pair-IsValid = record {
  block = refl;
  bounded = omega arith;
  unit = omega arith;
  small = omega arith;
}

pair-HasRoom : HasRoom roomy pair
unfolding plenty next_cap
pair-HasRoom = inr (resized 0 (5 ∷ 7 ∷ []) 4, refl, omega arith)

vec_insert-Inserted_example :
    Returns (Inserted roomy pair 1 9) (vec_insert roomy (some pair) 1 (some 9))
vec_insert-Inserted_example =
    vec_insert-Inserted roomy pair 1 9 pair-IsValid pair-HasRoom (omega arith)

vec_remove-Removed_example : Returns (Removed pair 0) (vec_remove (some pair) 0)
vec_remove-Removed_example = vec_remove-Removed pair 0 pair-IsValid (omega arith)

vec_insert-vec_remove_example :
    Returns
      (SameItems pair)
      (vec_insert roomy (some pair) 1 (some 9) >>= λ w. vec_remove (some w) 1)
vec_insert-vec_remove_example =
    vec_insert-vec_remove roomy pair 1 9 pair-IsValid pair-HasRoom (omega arith)
