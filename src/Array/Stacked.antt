-- ===== src/Array/Stacked.antt =====
-- A stack kept in the first cells of an array, the top in the last of them.
use textbook_c_ds_deep.Prelude.{
  ℕ, zero, suc, ◌+◌, ◌-◌, ◌≤◌, ◌<◌, ◌≡◌, refl, sym, ap, ◌∙◌, List, [], ◌∷◌, arith, length, take,
  set, ◌==◌, if◌then◌else◌, inl, inr, Bool-cases,
}
use textbook_c_ds_deep.Run.{ok}
use textbook_c_ds_deep.Array.{Default, at, at-set, at-take, load, load-ok}

module _ {ℓ} {A : Type ℓ} ⦃d : Default A⦄ where
  -- The first `n` cells of `a` hold `st`, the last pushed first.
  pub record IsStacked (a : List A) (n : ℕ) (st : List A) : Type ℓ where
    pub size : n ≡ length st
    pub cells : (i : ℕ) → i < n → at a i ≡ at st (n - 1 - i)

  pub IsStacked-none : (a : List A) → IsStacked a 0 []
  IsStacked-none a = record { size = refl; cells = λ i p. absurd (omega arith) }

  pub IsStacked-keep :
      {a : List A} {n : ℕ} {st : List A} (b : List A)
      → IsStacked a n st
      → take n b ≡ take n a
      → IsStacked b n st
  IsStacked-keep {a} {n} b h keeps = record {
    size = h.size;
    cells = λ i p.
        sym (at-take n b i p) ∙ ap (λ (c : List A). at c i) keeps ∙ at-take n a i p ∙ h.cells i p;
  }

  pushed-at :
      (a : List A) (n : ℕ) (st : List A) (x : A)
      → IsStacked a n st
      → (i : ℕ) → i < n + 1
      → (if n == i then x else at a i) ≡ at (x ∷ st) (n + 1 - 1 - i)
  unfolding at
  pushed-at a n st x h i p = elim (Bool-cases (n == i)) [
    | inl same ↦
        let first : n + 1 - 1 - i ≡ 0 = ground arith in rw same (sym (ap (at (x ∷ st)) first))
    | inr other ↦
        let next : n + 1 - 1 - i ≡ suc (n - 1 - i) = ground arith in
        let before : i < n = ground arith in
        rw other (h.cells i before ∙ sym (ap (at (x ∷ st)) next))
  ]

  pub IsStacked-push :
      {a : List A} {n : ℕ} {st : List A} (x : A)
      → IsStacked a n st
      → n < length a
      → IsStacked (set a n x) (n + 1) (x ∷ st)
  IsStacked-push {a} {n} {st} x h free = record {
    size = omega (arith, h.size);
    cells = λ i p. at-set a n i x free ∙ pushed-at a n st x h i p;
  }

  module _ {a : List A} {n : ℕ} {x : A} {st : List A} (h : IsStacked a n (x ∷ st)) where
    pub IsStacked-pop : IsStacked a (n - 1) st
    unfolding at
    IsStacked-pop = record {
      size = omega (arith, h.size);
      cells = λ i p.
          let next : n - 1 - i ≡ suc (n - 1 - 1 - i) = omega (arith, p) in
          h.cells i (omega (arith, p)) ∙ ap (at (x ∷ st)) next;
    }

    pub IsStacked-top : n ≤ length a → load a (n - 1) ≡ ok x
    unfolding at
    IsStacked-top le =
        let first : n - 1 - (n - 1) ≡ 0 = omega arith in
        load-ok a (n - 1) (omega (arith, le, h.size))
        ∙ ap ok (h.cells (n - 1) (omega (arith, h.size)) ∙ ap (at (x ∷ st)) first)

  -- What the first `n` cells hold.
  pub stack_of : List A → ℕ → List A
  stack_of a zero = []
  stack_of a (suc n) = at a n ∷ stack_of a n

  same_cell : (a : List A) (n i : ℕ) → at a i ≡ (if n == i then at a n else at a i)
  same_cell a n i = elim (Bool-cases (n == i)) [
    | inl same ↦ let e : i ≡ n = ground arith in rw same (ap (at a) e)
    | inr other ↦ rw other refl
  ]

  pub IsStacked-stack_of : (a : List A) (n : ℕ) → IsStacked a n (stack_of a n)
  unfolding stack_of
  IsStacked-stack_of a zero = IsStacked-none a
  IsStacked-stack_of a (suc n) =
      let h = IsStacked-stack_of a n in
      record {
        size = ap suc h.size;
        cells = λ i p.
            let e : n + 1 - 1 - i ≡ suc n - 1 - i = omega arith in
            same_cell a n i
            ∙ pushed-at a n (stack_of a n) (at a n) h i (omega arith)
            ∙ ap (at (at a n ∷ stack_of a n)) e;
      }
