-- ===== src/Vector/RoundTrip.antt =====
-- `vec_remove` undoes `vec_insert`.
use textbook_c_ds_deep.Prelude.{
  ℕ, zero, suc, ◌≤◌, ◌<◌, ◌≡◌, refl, ap, ◌∙◌, some, List, [], ◌∷◌, ◌++◌, arith, length, take, drop,
  length-append, length-take, length-drop,
}
use textbook_c_ds_deep.Run.{Returns, bind, weaken, ◌>>=◌}
use textbook_c_ds_deep.Memory.{Memory}
use textbook_c_ds_deep.Vector.{Vector, vec_insert, vec_remove, IsValid, items}
use textbook_c_ds_deep.Vector.Room.{HasRoom}
use textbook_c_ds_deep.Vector.Insert.{vec_insert-Inserted}
use textbook_c_ds_deep.Vector.Remove.{vec_remove-Removed}

module _ {ℓ} {A : Type ℓ} where
  -- Taking out what was put in at `i`.
  put_out :
      (i : ℕ) (a : List A) (x : A)
      → i ≤ length a
      → take i (take i a ++ x ∷ drop i a) ++ drop (suc i) (take i a ++ x ∷ drop i a) ≡ a
  put_out zero a x h = refl
  put_out (suc i) [] x h = absurd (omega arith)
  put_out (suc i) (y ∷ a) x h = ap (◌∷◌ y) (put_out i a x (omega arith))

  length-items : (v : Vector A) → IsValid v → length (items v) ≡ v.size
  length-items v h = omega (arith, length-take v.size v.data_, h.block, h.bounded)

  -- A valid vector with the elements of `v`.
  abbrev pub SameItems : Vector A → Vector A → Type ℓ
  SameItems v w = IsValid w × (items w ≡ items v)

  module _ (memory : Memory A) where
    -- An insertion into a valid vector with room, at an index that is not past the end, and the
    -- removal at that index leave a valid vector of the elements that were there.
    pub vec_insert-vec_remove :
        (v : Vector A) (idx : ℕ) (x : A)
        → IsValid v
        → HasRoom memory v
        → idx ≤ v.size
        → Returns
            (SameItems v)
            (vec_insert memory (some v) idx (some x) >>= λ w. vec_remove (some w) idx)
    vec_insert-vec_remove v idx x h room le =
        bind (vec_insert-Inserted memory v idx x h room le) λ w i.
          let inside : idx ≤ length (items v) = omega (arith, length-items v h, le) in
          let more : idx < w.size = omega (
            arith,
            length-items w i.0,
            ap length i.1,
            length-append (take idx (items v)) (x ∷ drop idx (items v)),
            length-take idx (items v),
            length-drop idx (items v),
            inside,
          ) in
          weaken (vec_remove-Removed w idx i.0 more)
            λ u r. (r.0, rw i.1 at r.1 ∙ put_out idx (items v) x inside)
