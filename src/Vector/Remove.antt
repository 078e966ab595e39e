-- ===== src/Vector/Remove.antt =====
-- `vec_remove` as an operation on the list of the elements.
use native.Mathlib.Numerals.{add-one}
use textbook_c_ds_deep.Prelude.{
  ℕ, suc, ◌+◌, ◌-◌, ◌≤◌, ◌<◌, ◌≡◌, refl, sym, ap, ap₂, ◌∙◌, inl, inr, Bool-cases, true, some, List,
  ◌++◌, arith, ltb, if◌then◌else◌, length, take, drop,
}
use textbook_c_ds_deep.Run.{ok, Returns, returns}
use textbook_c_ds_deep.Array.{moved, memmove}
use textbook_c_ds_deep.Array.Shift.{
  length-moved, memmove-ok, take-take, drop-take, take-moved, moved_none,
}
use textbook_c_ds_deep.Vector.{Vector, vec_remove, IsValid, items}

module _ {ℓ} {A : Type ℓ} where
  -- What a removal of the element at `idx` leaves.
  abbrev pub Removed : Vector A → ℕ → Vector A → Type ℓ
  Removed v idx v' = IsValid v' × (items v' ≡ take idx (items v) ++ drop (suc idx) (items v))

  module _ (v : Vector A) (idx : ℕ) (h : IsValid v) (lt : idx < v.size) where
    abbrev left : ℕ
    left = v.size - 1 - idx

    abbrev closed : List A
    closed = moved idx (suc idx) left v.data_

    close-ok :
        (if ltb idx (v.size - 1) then memmove v.data_ idx (idx + 1) left else ok v.data_)
        ≡ ok closed
    close-ok = elim (Bool-cases (ltb idx (v.size - 1))) [
      | inl behind ↦
          let fits : suc idx + left ≤ length v.data_ = omega (arith, h.block, h.bounded, lt) in
          rw (behind, add-one, memmove-ok v.data_ idx (suc idx) left (omega (arith, fits)) fits)
            refl
      | inr last ↦
          let none_left : left ≡ 0 = ground arith in
          rw (last, none_left, moved_none idx v.data_ (suc idx)) refl
    ]

    take-closed : take (v.size - 1) closed ≡ take idx (items v) ++ drop (suc idx) (items v)
    take-closed =
        let fewer : v.size - 1 ≡ idx + left = omega (arith, lt) in
        let total : v.size ≡ suc idx + left = omega (arith, lt) in
        let later : drop (suc idx) (items v) ≡ take left (drop (suc idx) v.data_) =
          ap (λ n. drop (suc idx) (take n v.data_)) total ∙ drop-take left (suc idx) v.data_ in
        let first = take-take idx v.size v.data_ (omega (arith, lt)) in
        let cut = take-moved idx left v.data_ (omega (arith, h.block, h.bounded, lt)) in
        ap (λ n. take n closed) fewer ∙ cut ∙ ap₂ (◌++◌) (sym first) (sym later)

  -- An index inside a valid vector: the element at that index goes, and the others keep their order.
  pub vec_remove-Removed :
      (v : Vector A) (idx : ℕ)
      → IsValid v
      → idx < v.size
      → Returns (Removed v idx) (vec_remove (some v) idx)
  unfolding vec_remove
  vec_remove-Removed v idx h lt =
      let inside : ltb idx v.size ≡ true = ground arith in
      rw (vec_remove, inside, close-ok v idx h lt)
        (returns (
          record {
            block =
                length-moved idx (suc idx) (left v idx h lt) v.data_
                  (omega (arith, h.block, h.bounded, lt)) (omega (arith, h.block, h.bounded, lt))
                ∙ h.block;
            bounded = omega (arith, h.bounded);
            unit = h.unit;
            small = h.small;
          },
          take-closed v idx h lt,
        ))
