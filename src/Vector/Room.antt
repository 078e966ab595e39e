-- ===== src/Vector/Room.antt =====
-- `grow`: a free cell at the end, and the same elements.
use native.Mathlib.Nat.{le-mul_of_pos_right}
use textbook_c_ds_deep.Prelude.{
  ℕ, ◌*◌, ◌^◌, ◌≤◌, ◌<◌, ◌≡◌, refl, ◌⊎◌, inl, inr, some, List, arith, ◌==◌,
}
use textbook_c_ds_deep.Run.{Returns, returns, branch}
use textbook_c_ds_deep.Memory.{cells_fit, Memory}
use textbook_c_ds_deep.Vector.{Vector, next_cap, grow, make_room, IsValid, items}

next_cap-larger : (n e : ℕ) → 0 < e → n * e ≤ 2 ^ 60 → n < next_cap n
unfolding next_cap
next_cap-larger n e h k =
    let few : n ≤ n * e = le-mul_of_pos_right n h in
    let small : n ≤ 2 ^ 60 = omega (arith, few, k) in ground arith

module _ {ℓ} {A : Type ℓ} (memory : Memory A) where
  -- There is a free cell, or `realloc` finds a block of the next size, which is not too large.
  abbrev pub HasRoom : Vector A → Type ℓ
  HasRoom v =
      (v.size < v.capacity)
      ⊎ (b : List A) × (memory.realloc v.data_ (next_cap v.capacity) ≡ some b)
        × (next_cap v.capacity * v.elem_size ≤ 2 ^ 60)

  -- The vector with a free cell and the same elements.
  pub record HasFree (v g : Vector A) : Type ℓ where
    pub valid : IsValid g
    pub same_size : g.size ≡ v.size
    pub same : items g ≡ items v
    pub free : g.size < g.capacity

  grown-HasFree :
      (v : Vector A) (b : List A)
      → IsValid v
      → v.size ≡ v.capacity
      → memory.realloc v.data_ (next_cap v.capacity) ≡ some b
      → next_cap v.capacity * v.elem_size ≤ 2 ^ 60
      → v.capacity < next_cap v.capacity
      → Returns (HasFree v) (grow memory v)
  unfolding grow
  grown-HasFree v b h full found small more =
      let fits = cells_fit (next_cap v.capacity) v.elem_size h.unit (omega (arith, small)) in
      rw (grow, fits, found)
        (returns (record {
          valid = record {
            block = memory.realloc_length v.data_ (next_cap v.capacity) b found;
            bounded = omega (arith, full, more);
            unit = h.unit;
            small = small;
          };
          same_size = refl;
          same =
              memory.realloc_keeps v.data_ (next_cap v.capacity) b v.size found
                (omega (arith, h.block, full)) (omega (arith, full, more));
          free = omega (arith, full, more);
        }))

  pub make_room-HasFree :
      (v : Vector A) → IsValid v → HasRoom v → Returns (HasFree v) (make_room memory v)
  unfolding make_room
  make_room-HasFree v h room =
      branch (v.size == v.capacity)
        (λ full. elim room [
          | inl free ↦ absurd (ground arith)
          | inr (b, found, small) ↦
              grown-HasFree v b h (ground arith) found small
                (next_cap-larger v.capacity v.elem_size h.unit h.small)
        ])
        (λ open_.
          returns
            (record { valid = h; same_size = refl; same = refl; free = ground (arith, h.bounded) }))
