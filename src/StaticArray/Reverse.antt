-- ===== src/StaticArray/Reverse.antt =====
-- What `reverse` computes.
use textbook_c_ds_deep.Prelude.{
  ℕ, zero, suc, ◌+◌, ◌-◌, ◌≤◌, ◌<◌, ◌≡◌, refl, ap, ◌∙◌, true, false, ◌&&◌, List, arith, ltb, leb,
  ◌==◌, if◌then◌else◌, length, inl, inr, Bool-cases,
}
use textbook_c_ds_deep.Run.{Returns, returns, branch, weaken}
use textbook_c_ds_deep.Array.{Default, at, swapped, swap-ok, at-swapped, length-swapped}
use textbook_c_ds_deep.StaticArray.{reverse_loop, reverse}

module _ {ℓ} {A : Type ℓ} ⦃d : Default A⦄ where
  -- The cells from `lo` to before `stop` stand in the opposite order, the others where they were.
  abbrev pub IsReversed : ℕ → ℕ → List A → List A → Type ℓ
  IsReversed lo stop a b =
      (length b ≡ length a)
      × ((j : ℕ) → at b j ≡ (if leb lo j && ltb j stop then at a (lo + stop - 1 - j) else at a j))

  -- One round, and what the rest does to the cells between the two that were exchanged.
  round_cells :
      (lo stop : ℕ) (a : List A) (j : ℕ)
      → lo + 1 < stop
      → stop ≤ length a
      → (if leb (lo + 1) j && ltb j (stop - 1)
          then at (swapped a lo (stop - 1)) ((lo + 1) + (stop - 1) - 1 - j)
          else at (swapped a lo (stop - 1)) j)
        ≡ (if leb lo j && ltb j stop then at a (lo + stop - 1 - j) else at a j)
  round_cells lo stop a j h room =
      let cell = at-swapped a lo (stop - 1) (omega arith) (omega arith) in
      elim (Bool-cases (lo == j)) [
        | inl left ↦
            let outer : (leb (lo + 1) j && ltb j (stop - 1)) ≡ false = ground arith in
            let range : (leb lo j && ltb j stop) ≡ true = ground arith in
            let other : (stop - 1 == j) ≡ false = ground arith in
            let index : stop - 1 ≡ lo + stop - 1 - j = ground arith in
            rw (outer, range, cell j, other, left) (ap (at a) index)
        | inr left ↦ elim (Bool-cases (stop - 1 == j)) [
          | inl right ↦
              let outer : (leb (lo + 1) j && ltb j (stop - 1)) ≡ false = ground arith in
              let range : (leb lo j && ltb j stop) ≡ true = ground arith in
              let index : lo ≡ lo + stop - 1 - j = ground arith in
              rw (outer, range, cell j, right) (ap (at a) index)
          | inr right ↦ elim (Bool-cases (leb (lo + 1) j && ltb j (stop - 1))) [
            | inl inner ↦
                let k : ℕ = (lo + 1) + (stop - 1) - 1 - j in
                let range : (leb lo j && ltb j stop) ≡ true = ground arith in
                let not_right : (stop - 1 == k) ≡ false = ground arith in
                let not_left : (lo == k) ≡ false = ground arith in
                let index : k ≡ lo + stop - 1 - j = ground arith in
                rw (inner, range, cell k, not_right, not_left) (ap (at a) index)
            | inr outer ↦
                let range : (leb lo j && ltb j stop) ≡ false = ground arith in
                rw (outer, range, cell j, right, left) refl
          ]
        ]
      ]

  -- At most one cell: nothing to do.
  short_cells :
      (lo stop : ℕ) (a : List A) (j : ℕ)
      → stop ≤ lo + 1
      → at a j ≡ (if leb lo j && ltb j stop then at a (lo + stop - 1 - j) else at a j)
  short_cells lo stop a j h = elim (Bool-cases (leb lo j && ltb j stop)) [
    | inl range ↦ let index : j ≡ lo + stop - 1 - j = ground arith in rw range (ap (at a) index)
    | inr range ↦ rw range refl
  ]

  reverse_loop-IsReversed :
      (fuel lo stop : ℕ) (a : List A)
      → stop ≤ length a
      → stop < fuel + lo
      → lo ≤ stop
      → Returns (IsReversed lo stop a) (reverse_loop fuel lo stop a)
  unfolding reverse_loop
  reverse_loop-IsReversed zero lo stop a h enough range = absurd (omega arith)
  reverse_loop-IsReversed (suc fuel) lo stop a h enough range =
      branch (ltb (lo + 1) stop)
        (λ going.
          let b = swapped a lo (stop - 1) in
          let hl : lo < length a = ground arith in
          let hr : stop - 1 < length a = ground arith in
          let same = length-swapped a lo (stop - 1) in
          rw (swap-ok a lo (stop - 1) hl hr) (
            weaken
              (reverse_loop-IsReversed fuel (lo + 1) (stop - 1) b (omega (arith, same))
                (omega arith) (ground arith))
              λ c r. (r.0 ∙ same, λ j. r.1 j ∙ round_cells lo stop a j (ground arith) h)))
        (λ done. returns (refl, λ j. short_cells lo stop a j (ground arith)))

  -- For an array of at least `n` cells `reverse` returns: the first `n` cells stand in the opposite
  -- order, and the others where they were.
  pub reverse-IsReversed :
      (a : List A) (n : ℕ) → n ≤ length a → Returns (IsReversed 0 n a) (reverse a n)
  unfolding reverse
  reverse-IsReversed a n h = reverse_loop-IsReversed (n + 1) 0 n a h (omega arith) (omega arith)
