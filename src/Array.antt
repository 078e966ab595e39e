-- ===== src/Array.antt =====
-- C arrays: a block of cells with checked reads and writes, and the laws of both.
pub mod Shift
pub mod Stacked
use mathlib.Core.List.{Mem, mem-cons_self, mem-cons_of_mem, not-mem-nil, forall_mem-cons}
use mathlib.Core.List.Perm
use textbook_c_ds_deep.Prelude.{
  ℕ, zero, suc, ◌+◌, ◌<◌, ◌≤◌, ◌≡◌, refl, ap, ◌∙◌, List, [], ◌∷◌, ◌++◌, Perm, arith, ◌==◌,
  if◌then◌else◌, length, get_elem?, set, take, drop, length-set, take-set, drop-set_lt, ltb, leb,
  ◌&&◌, some, Bool, true, false,
}
use textbook_c_ds_deep.Run.{Run, ok, fault, ◌>>=◌, check}

-- A value of the cell type. No theorem depends on which.
pub record Default {ℓ} (A : Type ℓ) : Type ℓ where
  pub value : A

module _ {ℓ} {A : Type ℓ} where
  -- `a[i]` as an rvalue
  unfoldable pub load : List A → ℕ → Run A
  load a i = check (get_elem? a i)

  -- `a[i] = v`
  unfoldable pub store : List A → ℕ → A → Run (List A)
  store a i v = if ltb i (length a) then ok (set a i v) else fault

  -- `n` cells from `src` on, copied to `dst` and the cells after it.
  unfoldable pub moved : ℕ → ℕ → ℕ → List A → List A
  moved dst src n a = take dst a ++ take n (drop src a) ++ drop n (drop dst a)

  -- `memmove(a + dst, a + src, n)`
  unfoldable pub memmove : List A → ℕ → ℕ → ℕ → Run (List A)
  memmove a dst src n =
      if leb (dst + n) (length a) && leb (src + n) (length a) then ok (moved dst src n a) else fault

  pub store-ok : (a : List A) (i : ℕ) (v : A) → i < length a → store a i v ≡ ok (set a i v)
  unfolding store
  store-ok a i v h = ground arith

  pub store-fault : (a : List A) (i : ℕ) (v : A) → length a ≤ i → store a i v ≡ fault
  unfolding store
  store-fault a i v h = ground arith

  pub load-fault : (a : List A) (i : ℕ) → length a ≤ i → load a i ≡ fault
  unfolding load
  load-fault [] i h = refl
  load-fault (x ∷ a) zero h = absurd (omega arith)
  load-fault (x ∷ a) (suc i) h = load-fault a i (omega arith)

module _ {ℓ} {A : Type ℓ} ⦃d : Default A⦄ where
  -- The cell at `i`, for statements.
  unfoldable pub at : List A → ℕ → A
  at [] i = d.value
  at (x ∷ a) zero = x
  at (x ∷ a) (suc i) = at a i

  pub get_elem?-at : (a : List A) (i : ℕ) → i < length a → get_elem? a i ≡ some (at a i)
  unfolding at
  get_elem?-at [] i h = absurd (omega arith)
  get_elem?-at (x ∷ a) zero h = refl
  get_elem?-at (x ∷ a) (suc i) h = get_elem?-at a i (omega arith)

  pub load-ok : (a : List A) (i : ℕ) → i < length a → load a i ≡ ok (at a i)
  unfolding load
  load-ok a i h = ap check (get_elem?-at a i h)

  pub at-set :
      (a : List A) (i j : ℕ) (v : A)
      → i < length a
      → at (set a i v) j ≡ (if i == j then v else at a j)
  unfolding at
  at-set [] i j v h = absurd (omega arith)
  at-set (x ∷ a) zero zero v h = refl
  at-set (x ∷ a) zero (suc j) v h = ground arith
  at-set (x ∷ a) (suc i) zero v h = ground arith
  at-set (x ∷ a) (suc i) (suc j) v h = ground (arith, at-set a i j v)

  pub at-take : (n : ℕ) (a : List A) (i : ℕ) → i < n → at (take n a) i ≡ at a i
  unfolding at
  at-take zero a i h = absurd (omega arith)
  at-take (suc n) [] i h = refl
  at-take (suc n) (x ∷ a) zero h = refl
  at-take (suc n) (x ∷ a) (suc i) h = at-take n a i (omega arith)

  -- A write trades the old cell for the new one.
  pub set-perm : (a : List A) (i : ℕ) (v : A) → i < length a → Perm (at a i ∷ set a i v) (v ∷ a)
  unfolding at
  set-perm [] i v h = absurd (omega arith)
  set-perm (x ∷ a) zero v h = Perm.swap v x a
  set-perm (x ∷ a) (suc i) v h =
      Perm.trans (Perm.swap x (at a i) (set a i v))
        (Perm.trans (Perm.cons x (set-perm a i v (omega arith))) (Perm.swap v x a))

module _ {ℓ} {A : Type ℓ} where
  -- Exchanges two cells through a temporary.
  unfoldable pub swap : List A → ℕ → ℕ → Run (List A)
  swap a i j = do x ← load a i; y ← load a j; b ← store a i y; store b j x

module _ {ℓ} {A : Type ℓ} ⦃d : Default A⦄ where
  unfoldable pub swapped : List A → ℕ → ℕ → List A
  swapped a i j = set (set a i (at a j)) j (at a i)

  pub length-swapped : (a : List A) (i j : ℕ) → length (swapped a i j) ≡ length a
  unfolding swapped
  length-swapped a i j = length-set (set a i (at a j)) j (at a i) ∙ length-set a i (at a j)

  module _ (a : List A) (i j : ℕ) (hi : i < length a) (hj : j < length a) where
    pub swap-ok : swap a i j ≡ ok (swapped a i j)
    unfolding swap swapped
    swap-ok = rw (
      load-ok a i hi,
      load-ok a j hj,
      store-ok a i (at a j) hi,
      store-ok (set a i (at a j)) j (at a i) (rw length-set hj),
    )

    pub at-swapped :
        (c : ℕ)
        → at (swapped a i j) c ≡ (if j == c then at a i else if i == c then at a j else at a c)
    unfolding swapped
    at-swapped c =
        rw (at-set (set a i (at a j)) j c (at a i) (rw length-set hj), at-set a i c (at a j) hi)

    pub swapped-perm : Perm (swapped a i j) a
    unfolding swapped
    swapped-perm =
        let b = set a i (at a j) in
        let same : at b j ≡ at a j = ground (arith, at-set a i j (at a j) hi) in
        let back = rw same at (set-perm b j (at a i) (rw length-set hj)) in
        Perm.cons_inv (Perm.trans back (set-perm a i (at a j) hi))

  -- Exchanging two of the first `n` cells is an exchange within those cells.
  pub take-swapped :
      (n : ℕ) (a : List A) (i j : ℕ)
      → i < n
      → j < n
      → take n (swapped a i j) ≡ swapped (take n a) i j
  unfolding swapped
  take-swapped n a i j hi hj =
      take-set n (set a i (at a j)) j (at a i)
      ∙ rw (take-set n a i (at a j), at-take n a i hi, at-take n a j hj)

  pub drop-swapped :
      (n : ℕ) (a : List A) (i j : ℕ) → i < n → j < n → drop n (swapped a i j) ≡ drop n a
  unfolding swapped
  drop-swapped n a i j hi hj =
      drop-set_lt n (set a i (at a j)) j (at a i) hj ∙ drop-set_lt n a i (at a j) hi

  pub at-drop : (n : ℕ) (a : List A) (i : ℕ) → at (drop n a) i ≡ at a (n + i)
  unfolding at
  at-drop zero a i = let e : i ≡ 0 + i = omega arith in ap (at a) e
  at-drop (suc n) [] i = refl
  at-drop (suc n) (x ∷ a) i =
      let e : suc (n + i) ≡ suc n + i = omega arith in at-drop n a i ∙ ap (at (x ∷ a)) e

  -- The cells before `n`, and the one at `n`.
  pub take-suc : (n : ℕ) (a : List A) → n < length a → take (suc n) a ≡ take n a ++ at a n ∷ []
  unfolding at
  take-suc n [] h = absurd (omega arith)
  take-suc zero (x ∷ a) h = refl
  take-suc (suc n) (x ∷ a) h = ap (◌∷◌ x) (take-suc n a (omega arith))

  pub mem-at : (a : List A) (i : ℕ) → i < length a → Mem (at a i) a
  unfolding at
  mem-at [] i h = absurd (omega arith)
  mem-at (x ∷ a) zero h = mem-cons_self
  mem-at (x ∷ a) (suc i) h = mem-cons_of_mem x (mem-at a i (omega arith))

  -- What holds of every cell holds of every member.
  pub all_at-mem {κ} :
      (P : A → Type κ)
      → ((x : A) → IsProp (P x))
      → (a : List A) → ((i : ℕ) → i < length a → P (at a i))
      → (x : A) → Mem x a
      → P x
  unfolding at
  all_at-mem P prop [] h = λ x m. absurd (not-mem-nil m)
  all_at-mem P prop (y ∷ a) h =
      (forall_mem-cons prop).1
        (h 0 (omega arith), all_at-mem P prop a (λ i p. h (suc i) (omega arith)))
