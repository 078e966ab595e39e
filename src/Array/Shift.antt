-- ===== src/Array/Shift.antt =====
-- Cells moved by one place, as lists.
use mathlib.Core.List.{append-nil}
use textbook_c_ds_deep.Prelude.{
  ℕ, zero, suc, ◌+◌, ◌≤◌, ◌<◌, ◌≡◌, refl, sym, ap, ◌∙◌, List, [], ◌∷◌, ◌++◌, arith, length, set,
  take, drop, take-append-drop, length-take, length-append, length-drop,
}
use textbook_c_ds_deep.Run.{ok}
use textbook_c_ds_deep.Array.{moved, memmove}

module _ {ℓ} {A : Type ℓ} where
  pub memmove-ok :
      (a : List A) (dst src n : ℕ)
      → dst + n ≤ length a
      → src + n ≤ length a
      → memmove a dst src n ≡ ok (moved dst src n a)
  unfolding memmove
  memmove-ok a dst src n h k = ground arith

  pub take-take : (k n : ℕ) (a : List A) → k ≤ n → take k (take n a) ≡ take k a
  take-take zero n a h = refl
  take-take (suc k) zero a h = absurd (omega arith)
  take-take (suc k) (suc n) [] h = refl
  take-take (suc k) (suc n) (x ∷ a) h = ap (◌∷◌ x) (take-take k n a (omega arith))

  take-nil : (k : ℕ) → take {A = A} k [] ≡ []
  take-nil zero = refl
  take-nil (suc k) = refl

  pub drop-take : (k i : ℕ) (a : List A) → drop i (take (i + k) a) ≡ take k (drop i a)
  drop-take k zero a = let e : 0 + k ≡ k = omega arith in ap (λ n. take n a) e
  drop-take k (suc i) [] = let e : suc i + k ≡ suc (i + k) = omega arith in rw e (sym (take-nil k))
  drop-take k (suc i) (x ∷ a) =
      let e : suc i + k ≡ suc (i + k) = omega arith in rw e (drop-take k i a)

  pub take-append_left : (n : ℕ) (a b : List A) → length a ≡ n → take n (a ++ b) ≡ a
  take-append_left n [] b h = rw (← h) refl
  take-append_left n (x ∷ a) b h = rw (← h) (ap (◌∷◌ x) (take-append_left (length a) a b refl))

  -- A write into the gap that a move by one place to the right leaves.
  pub set-moved :
      (i k : ℕ) (a : List A) (x : A)
      → i < length a
      → set (moved (suc i) i k a) i x
        ≡ (take i a ++ x ∷ take k (drop i a)) ++ drop k (drop (suc i) a)
  unfolding moved
  set-moved i k [] x h = absurd (omega arith)
  set-moved zero k (y ∷ a) x h = refl
  set-moved (suc i) k (y ∷ a) x h = ap (◌∷◌ y) (set-moved i k a x (omega arith))

  -- The first cells after a move by one place to the left.
  pub take-moved :
      (i k : ℕ) (a : List A)
      → i + suc k ≤ length a
      → take (i + k) (moved i (suc i) k a) ≡ take i a ++ take k (drop (suc i) a)
  unfolding moved
  take-moved i k a h =
      take-append_left (i + k) (take i a ++ take k (drop (suc i) a)) (drop k (drop i a)) (
        omega (
          arith,
          length-append (take i a) (take k (drop (suc i) a)),
          length-take i a,
          length-take k (drop (suc i) a),
          length-drop (suc i) a,
        ))

  pub length-moved :
      (dst src n : ℕ) (a : List A)
      → dst + n ≤ length a
      → src + n ≤ length a
      → length (moved dst src n a) ≡ length a
  unfolding moved
  length-moved dst src n a h k = omega (
    arith,
    h,
    k,
    length-append (take dst a ++ take n (drop src a)) (drop n (drop dst a)),
    length-append (take dst a) (take n (drop src a)),
    length-take dst a,
    length-take n (drop src a),
    length-drop src a,
    length-drop n (drop dst a),
    length-drop dst a,
  )

  pub drop_all : (n : ℕ) (a : List A) → drop n (take n a) ≡ []
  drop_all n a =
      let same : n ≡ n + 0 = omega arith in ap (λ k. drop n (take k a)) same ∙ drop-take 0 n a

  pub moved_none : (i : ℕ) (a : List A) (j : ℕ) → moved i j 0 a ≡ a
  unfolding moved
  moved_none i a j = rw (append-nil (take i a)) (take-append-drop i a)
