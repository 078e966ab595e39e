-- ===== src/Vector/Insert.antt =====
-- `vec_insert` and `vec_push` as operations on the list of the elements.
use native.Mathlib.Numerals.{add-one}
use textbook_c_ds_deep.Prelude.{
  ℕ, suc, ◌+◌, ◌-◌, ◌≤◌, ◌<◌, ◌≡◌, refl, ap, ap₂, ◌∙◌, inl, inr, Bool-cases, Option-cases, none,
  true, false, Option, some, List, [], ◌∷◌, ◌++◌, arith, ltb, leb, ◌==◌, if◌then◌else◌, length, set,
  take, drop, length-set, length-take, length-append, length-drop,
}
use textbook_c_ds_deep.Run.{ok, Returns, returns, bind, weaken}
use textbook_c_ds_deep.Memory.{cells, Memory}
use textbook_c_ds_deep.Array.{store-ok, moved, memmove}
use textbook_c_ds_deep.Array.Shift.{
  drop_all, memmove-ok, take-take, drop-take, take-append_left, set-moved, moved_none,
}
use textbook_c_ds_deep.Vector.{
  Vector, next_cap, grow, make_room, vec_push, vec_insert, IsValid, items,
}
use textbook_c_ds_deep.Vector.Room.{HasRoom, HasFree, make_room-HasFree}

module _ {ℓ} {A : Type ℓ} (memory : Memory A) where
  -- What an insertion of `x` before the element at `idx` leaves.
  abbrev pub Inserted : Vector A → ℕ → A → Vector A → Type ℓ
  Inserted v idx x v' = IsValid v' × (items v' ≡ take idx (items v) ++ x ∷ drop idx (items v))

  -- The cells of a vector with a free cell, with `x` put in at `idx`.
  abbrev opened : Vector A → ℕ → A → List A
  opened g idx x = set (moved (suc idx) idx (g.size - idx) g.data_) idx x

  module _ (g : Vector A) (idx : ℕ) (x : A) (h : IsValid g) (free : g.size < g.capacity)
      (le : idx ≤ g.size) where
    abbrev front : List A
    front = take idx g.data_ ++ x ∷ take (g.size - idx) (drop idx g.data_)

    abbrev back : List A
    back = drop (g.size - idx) (drop (suc idx) g.data_)

    opened_parts : opened g idx x ≡ front ++ back
    opened_parts = set-moved idx (g.size - idx) g.data_ x (omega (arith, h.block, free, le))

    length-front : length front ≡ g.size + 1
    length-front = omega (
      arith,
      h.block,
      free,
      le,
      length-append (take idx g.data_) (x ∷ take (g.size - idx) (drop idx g.data_)),
      length-take idx g.data_,
      length-take (g.size - idx) (drop idx g.data_),
      length-drop idx g.data_,
    )

    length-opened : length (opened g idx x) ≡ g.capacity
    length-opened = rw opened_parts (
        omega (
          arith,
          h.block,
          free,
          le,
          length-append front back,
          length-front,
          length-drop (g.size - idx) (drop (suc idx) g.data_),
          length-drop (suc idx) g.data_,
        ))

    take-opened : take (g.size + 1) (opened g idx x) ≡ take idx (items g) ++ x ∷ drop idx (items g)
    take-opened =
        let total : g.size ≡ idx + (g.size - idx) = omega (arith, le) in
        let later : drop idx (items g) ≡ take (g.size - idx) (drop idx g.data_) =
          ap (λ n. drop idx (take n g.data_)) total ∙ drop-take (g.size - idx) idx g.data_ in
        rw (opened_parts, later, take-take idx g.size g.data_ le)
          (take-append_left (g.size + 1) front back length-front)

    abbrev shifted : List A
    shifted = moved (suc idx) idx (g.size - idx) g.data_

    -- With nothing behind `idx` the move is the one that is not made.
    shift-ok :
        (if ltb idx g.size then memmove g.data_ (idx + 1) idx (g.size - idx) else ok g.data_)
        ≡ ok shifted
    shift-ok = elim (Bool-cases (ltb idx g.size)) [
      | inl behind ↦
          let fits : suc idx + (g.size - idx) ≤ length g.data_ = omega (arith, h.block, free, le) in
          rw
            (
              behind,
              add-one,
              memmove-ok g.data_ (suc idx) idx (g.size - idx) fits (omega (arith, fits)),
            )
            refl
      | inr last ↦
          let none_left : g.size - idx ≡ 0 = ground arith in
          rw (last, none_left, moved_none (suc idx) g.data_ idx) refl
    ]

    index-inside : idx < length shifted
    index-inside = omega (arith, length-set shifted idx x, length-opened, free, le)

  opened-Inserted :
      (v g : Vector A) (idx : ℕ) (x : A)
      → HasFree memory v g
      → idx ≤ g.size
      → Inserted v idx x (record g { data_ = opened g idx x; size = g.size + 1 })
  opened-Inserted v g idx x f le = (
    record {
      block = length-opened g idx x f.valid f.free le;
      bounded = omega (arith, f.free);
      unit = f.valid.unit;
      small = f.valid.small;
    },
    rw (← f.same) (take-opened g idx x f.valid f.free le),
  )

  -- An index that is not past the end of a valid vector with room: the element is put in before the
  -- one at that index, and the others keep their order.
  pub vec_insert-Inserted :
      (v : Vector A) (idx : ℕ) (x : A)
      → IsValid v
      → HasRoom memory v
      → idx ≤ v.size
      → Returns (Inserted v idx x) (vec_insert memory (some v) idx (some x))
  unfolding vec_insert
  vec_insert-Inserted v idx x h room le =
      let inside : leb idx v.size ≡ true = ground arith in
      rw (vec_insert, inside)
        (bind (make_room-HasFree memory v h room) λ g f.
          let le' : idx ≤ g.size = omega (arith, f.same_size, le) in
          let m = shifted g idx x f.valid f.free le' in
          rw
            (
              shift-ok g idx x f.valid f.free le',
              store-ok m idx x (index-inside g idx x f.valid f.free le'),
            )
            (returns (opened-Inserted v g idx x f le')))

  -- A push is an insertion behind the last element, whatever the vector is.
  pub vec_push-vec_insert :
      (v : Vector A) (elem : Option A)
      → vec_push memory (some v) elem ≡ vec_insert memory (some v) v.size elem
  unfolding vec_push vec_insert make_room grow
  vec_push-vec_insert v none =
      let inside : leb v.size v.size ≡ true = ground arith in rw inside refl
  vec_push-vec_insert v (some x) =
      let inside : leb v.size v.size ≡ true = ground arith in
      let last : ltb v.size v.size ≡ false = ground arith in
      let more = memory.realloc v.data_ (cells (next_cap v.capacity) v.elem_size) in
      elim (Bool-cases (v.size == v.capacity)) [
        | inr open_ ↦ rw (inside, open_, last) refl
        | inl full ↦ elim (Option-cases more) [
          | inl failed ↦ rw (grow, inside, full, failed) refl
          | inr (b, found) ↦ rw (grow, inside, full, found, last) refl
        ]
      ]

  abbrev pub Appended : Vector A → A → Vector A → Type ℓ
  Appended v x v' = IsValid v' × (items v' ≡ items v ++ x ∷ [])

  -- A push onto a valid vector with room appends the element.
  pub vec_push-Appended :
      (v : Vector A) (x : A)
      → IsValid v
      → HasRoom memory v
      → Returns (Appended v x) (vec_push memory (some v) (some x))
  vec_push-Appended v x h room =
      let all : take v.size (items v) ≡ items v = take-take v.size v.size v.data_ (omega arith) in
      let rest : drop v.size (items v) ≡ [] = drop_all v.size v.data_ in
      rw vec_push-vec_insert (
        weaken (vec_insert-Inserted v v.size x h room (omega arith))
          λ v' i. (i.0, i.1 ∙ ap₂ (λ a b. a ++ x ∷ b) all rest))
