-- ===== src/Vector.antt =====
-- vector.h and vector.c: a growable array of elements of one size. An element to store is passed by value:
-- the pointer that the code takes does not point into the vector's own block.
pub mod Room
pub mod Insert
pub mod Remove
pub mod RoundTrip
pub mod Access
use textbook_c_ds_deep.Prelude.{
  ℕ, zero, suc, ◌+◌, ◌-◌, ◌*◌, ◌/◌, ◌%◌, ◌^◌, ◌≤◌, ◌<◌, ◌≡◌, Bool, true, false, ◌&&◌, Option, none,
  some, List, [], ◌∷◌, ◌++◌, ltb, leb, ◌==◌, if◌then◌else◌, length, take, drop,
}
use textbook_c_ds_deep.Run.{Run, ok, fault, exited, check, ◌>>=◌}
use textbook_c_ds_deep.Memory.{Memory, cells}
use textbook_c_ds_deep.Array.{load, store, memmove}

-- An element of `elem_size` bytes is one cell. `data_` is empty for NULL.
pub record Vector {ℓ} (A : Type ℓ) : Type ℓ where
  pub data_ : List A
  pub elem_size : ℕ
  pub size : ℕ
  pub capacity : ℕ

-- The doubled capacity.
unfoldable pub next_cap : ℕ → ℕ
next_cap capacity = if capacity == 0 then 4 else capacity * 2 % 2 ^ 64

-- `assert(b)`
abbrev pub assert : Bool → Run Bool
assert b = if b then ok true else fault

module _ {ℓ} {A : Type ℓ} (memory : Memory A) where
  pub grow : Vector A → Run (Vector A)
  grow v = elim (memory.realloc v.data_ (cells (next_cap v.capacity) v.elem_size)) [
    | none ↦ exited
    | some b ↦ ok (record v { data_ = b; capacity = next_cap v.capacity })
  ]

  -- `found` says whether `malloc` finds room for the struct.
  unfoldable pub vec_create : ℕ → ℕ → Bool → Run (Option (Vector A))
  vec_create elem_size initial_cap found =
      let empty : Vector A = record {
        data_ = [];
        elem_size = elem_size;
        size = 0;
        capacity = initial_cap;
      } in
      let with_block : Option (Vector A) = elim (memory.malloc (cells initial_cap elem_size)) [
        | none ↦ none
        | some b ↦ some (record empty { data_ = b })
      ] in
      if ltb 0 elem_size
      then ok (if found then (if ltb 0 initial_cap then with_block else some empty) else none)
      else fault

  -- `if (v->size == v->capacity) grow(v);`
  pub make_room : Vector A → Run (Vector A)
  unfolding grow
  make_room v = if v.size == v.capacity then grow v else ok v

  -- A pointer that may be NULL is an option.
  unfoldable pub vec_push : Option (Vector A) → Option A → Run (Vector A)
  unfolding make_room
  vec_push p elem = do
    v ← check p
    x ← check elem
    g ← make_room v
    a ← store g.data_ g.size x
    ok (record g { data_ = a; size = g.size + 1 })

  unfoldable pub vec_insert : Option (Vector A) → ℕ → Option A → Run (Vector A)
  unfolding make_room
  vec_insert p idx elem = do
    v ← check p
    inside ← assert (leb idx v.size)
    x ← check elem
    g ← make_room v
    moved ← if ltb idx g.size then memmove g.data_ (idx + 1) idx (g.size - idx) else ok g.data_
    a ← store moved idx x
    ok (record g { data_ = a; size = g.size + 1 })

module _ {ℓ} {A : Type ℓ} where
  -- `wanted` says that `out` is not NULL.
  unfoldable pub vec_pop : Option (Vector A) → (wanted : Bool) → Run (Option A × Vector A)
  vec_pop p wanted = do
    v ← check p
    inside ← assert (ltb 0 v.size)
    let read : Run (Option A) = do x ← load v.data_ (v.size - 1); ok (some x)
    out ← if wanted then read else ok none
    ok (out, record v { size = v.size - 1 })

  -- What the returned pointer points to.
  unfoldable pub vec_get : Option (Vector A) → ℕ → Run A
  vec_get p idx = do v ← check p; inside ← assert (ltb idx v.size); load v.data_ idx

  unfoldable pub vec_set : Option (Vector A) → ℕ → Option A → Run (Vector A)
  vec_set p idx elem = do
    v ← check p
    inside ← assert (ltb idx v.size)
    x ← check elem
    a ← store v.data_ idx x
    ok (record v { data_ = a })

  unfoldable pub vec_remove : Option (Vector A) → ℕ → Run (Vector A)
  vec_remove p idx = do
    v ← check p
    inside ← assert (ltb idx v.size)
    let left = v.size - 1
    moved ← if ltb idx left then memmove v.data_ idx (idx + 1) (left - idx) else ok v.data_
    ok (record v { data_ = moved; size = left })

  pub vec_size : Option (Vector A) → ℕ
  vec_size none = 0
  vec_size (some v) = v.size

  pub vec_capacity : Option (Vector A) → ℕ
  vec_capacity none = 0
  vec_capacity (some v) = v.capacity

  pub vec_empty : Option (Vector A) → Bool
  vec_empty none = true
  vec_empty (some v) = v.size == 0

  pub vec_clear : Option (Vector A) → Option (Vector A)
  vec_clear none = none
  vec_clear (some v) = some (record v { size = 0 })

  -- The invariant between calls. The block fits in the address space.
  pub record IsValid (v : Vector A) : Type 0 where
    pub block : length v.data_ ≡ v.capacity
    pub bounded : v.size ≤ v.capacity
    pub unit : 0 < v.elem_size
    pub small : v.capacity * v.elem_size ≤ 2 ^ 60

  -- The elements, the first one first.
  abbrev pub items : Vector A → List A
  items v = take v.size v.data_
