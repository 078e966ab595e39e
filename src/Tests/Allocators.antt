-- ===== src/Tests/Allocators.antt =====
-- Two C libraries that keep the laws of `Memory`: one with room for all, one with room for none.
use textbook_c_ds_deep.Prelude.{
  ℕ, zero, suc, ◌≤◌, ◌≡◌, refl, ap, ◌∙◌, none, some, List, [], ◌∷◌, ◌++◌, arith, length, take,
  replicate, length-replicate, length-take, length-append,
}
use textbook_c_ds_deep.Memory.{Memory}

module _ {ℓ} {A : Type ℓ} where
  take-take_append :
      (k n : ℕ) (a r : List A) → k ≤ length a → k ≤ n → take k (take n (a ++ r)) ≡ take k a
  take-take_append zero n a r h p = refl
  take-take_append (suc k) zero a r h p = absurd (omega arith)
  take-take_append (suc k) (suc n) [] r h p = absurd (omega arith)
  take-take_append (suc k) (suc n) (x ∷ a) r h p =
      ap (◌∷◌ x) (take-take_append k n a r (omega arith) (omega arith))

  -- Fresh cells hold `x`.
  pub resized : A → List A → ℕ → List A
  resized x a n = take n (a ++ replicate n x)

  pub length-resized : (x : A) (a : List A) (n : ℕ) → length (resized x a n) ≡ n
  unfolding resized
  length-resized x a n = omega (
    arith,
    length-take n (a ++ replicate n x),
    length-append a (replicate n x),
    length-replicate n x,
  )

  pub take-resized :
      (x : A) (a : List A) (n k : ℕ) → k ≤ length a → k ≤ n → take k (resized x a n) ≡ take k a
  unfolding resized
  take-resized x a n k = take-take_append k n a (replicate n x)

  -- The block that a call returned.
  pub given : {a b : List A} → some a ≡ some b → b ≡ a
  given e = cc

  unfoldable pub plenty : A → Memory A
  unfolding resized
  plenty x = record {
    malloc = λ n. some (replicate n x);
    realloc = λ a n. some (resized x a n);
    malloc_length = λ n b e. ap length (given e) ∙ length-replicate n x;
    realloc_length = λ a n b e. ap length (given e) ∙ length-resized x a n;
    realloc_keeps = λ a n b k e h p. ap (take k) (given e) ∙ take-resized x a n k h p;
  }

unfoldable pub scarce {ℓ} : (A : Type ℓ) → Memory A
scarce A = record {
  malloc = λ n. none;
  realloc = λ a n. none;
  malloc_length = λ n b e. cc;
  realloc_length = λ a n b e. cc;
  realloc_keeps = λ a n b k e h p. cc;
}
