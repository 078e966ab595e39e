-- ===== src/Vector/Access.antt =====
-- `vec_get`, `vec_set` and `vec_pop`, and what the asserts of vector.c refuse.
use textbook_c_ds_deep.Prelude.{
  ℕ, suc, ◌-◌, ◌≤◌, ◌<◌, ◌≡◌, refl, ap, ◌∙◌, Bool, true, false, Option, some, [], ◌∷◌, ◌++◌, arith,
  ltb, leb, ◌==◌, if◌then◌else◌, length, set, take, length-set,
}
use textbook_c_ds_deep.Run.{ok, fault, Returns, returns, ◌>>=◌}
use textbook_c_ds_deep.Memory.{Memory}
use textbook_c_ds_deep.Array.{Default, at, at-set, load-ok, store-ok, take-suc}
use textbook_c_ds_deep.Vector.{
  Vector, vec_get, vec_set, vec_insert, vec_remove, vec_pop, IsValid, items,
}

module _ {ℓ} {A : Type ℓ} (memory : Memory A) where
  -- For an index past the last element, reading, writing, removing, and inserting behind it all fail
  -- an assert, whatever the vector is; an empty vector refuses vec_pop.
  pub outside-fault :
      (v : Vector A) (idx : ℕ) (elem : Option A)
      → v.size ≤ idx
      → (vec_get (some v) idx ≡ fault)
        × (vec_set (some v) idx elem ≡ fault)
        × (vec_remove (some v) idx ≡ fault)
        × (vec_insert memory (some v) (suc idx) elem ≡ fault)
  unfolding vec_get vec_set vec_remove vec_insert
  outside-fault v idx elem h =
      let over : ltb idx v.size ≡ false = ground arith in
      let beyond : leb (suc idx) v.size ≡ false = ground arith in
      (rw over refl, rw over refl, rw over refl, rw beyond refl)

module _ {ℓ} {A : Type ℓ} ⦃d : Default A⦄ where
  -- What vec_pop gives, when the element is wanted: the last element, and a vector of the others.
  abbrev pub Popped : Vector A → Option A × Vector A → Type ℓ
  Popped v (out, v') = IsValid v' × (x : A) × (out ≡ some x) × (items v ≡ items v' ++ x ∷ [])

  -- A pop of a valid vector that is not empty takes off the last element.
  pub vec_pop-Popped :
      (v : Vector A) → IsValid v → 0 < v.size → Returns (Popped v) (vec_pop (some v) true)
  unfolding vec_pop
  vec_pop-Popped v h full =
      let some_left : ltb 0 v.size ≡ true = ground arith in
      let last = v.size - 1 in
      let inside : last < length v.data_ = omega (arith, h.block, h.bounded, full) in
      let total : v.size ≡ suc last = omega (arith, full) in
      rw (vec_pop, some_left, load-ok v.data_ last inside)
        (returns (
          record {
            block = h.block;
            bounded = omega (arith, h.bounded);
            unit = h.unit;
            small = h.small;
          },
          at v.data_ last,
          refl,
          ap (λ n. take n v.data_) total ∙ take-suc last v.data_ inside,
        ))

  ok_under : (a b : A) (c : Bool) → ok (if c then a else b) ≡ (if c then ok a else ok b)
  ok_under a b true = refl
  ok_under a b false = refl

  -- A write inside a valid vector: a later read gives the value at that index, and the old one at
  -- every other.
  pub vec_set-vec_get :
      (v : Vector A) (i j : ℕ) (x : A)
      → IsValid v
      → i < v.size
      → j < v.size
      → (vec_set (some v) i (some x) >>= λ w. vec_get (some w) j)
        ≡ (if i == j then ok x else vec_get (some v) j)
  unfolding vec_set vec_get
  vec_set-vec_get v i j x h p q =
      let in_i : ltb i v.size ≡ true = ground arith in
      let in_j : ltb j v.size ≡ true = ground arith in
      let block_i : i < length v.data_ = omega (arith, p, h.block, h.bounded) in
      let block_j : j < length v.data_ = omega (arith, q, h.block, h.bounded) in
      let after : j < length (set v.data_ i x) = omega (arith, length-set v.data_ i x, block_j) in
      rw
        (
          in_i,
          store-ok v.data_ i x block_i,
          in_j,
          load-ok (set v.data_ i x) j after,
          load-ok v.data_ j block_j,
          at-set v.data_ i j x block_i,
        )
        (ok_under x (at v.data_ j) (i == j))
